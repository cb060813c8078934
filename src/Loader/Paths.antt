-- ===== src/Loader/Paths.antt =====
-- DirName, JoinPath, NormalizePath and ResolveImport.
use voodoo.Prelude.{
  ℕ, List, [], ◌∷◌, ◌++◌, Bool, false, ◌&&◌, ◌||◌, Option, none, some, map, is_empty, ◌==◌,
  if◌then◌else◌,
}
use voodoo.Prelude.Text.{Bytes, codes, same_text}
use voodoo.Lexer.Chars.{is_alpha}

abbrev pub is_slash : ℕ → Bool
is_slash c = c == b'/' || c == b'\\'

-- What stands before the last slash, if there is one.
abbrev pub before_slash : Bytes → Option Bytes
before_slash [] = none
before_slash (c ∷ s) = elim (before_slash s) [
  | some dir ↦ some (c ∷ dir)
  | none ↦ if is_slash c then some [] else none
]

-- DirName
abbrev pub dir_name : Bytes → Bytes
dir_name path = elim (before_slash path) [ none ↦ [] | some dir ↦ dir ]

abbrev pub ends_in_slash : Bytes → Bool
ends_in_slash [] = false
ends_in_slash (c ∷ []) = is_slash c
ends_in_slash (c ∷ d ∷ s) = ends_in_slash (d ∷ s)

-- JoinPath
abbrev pub join_path : Bytes → Bytes → Bytes
join_path dir rel =
    if is_empty dir then rel else if ends_in_slash dir then dir ++ rel else dir ++ b'/' ∷ rel

-- `if (c == '\\') c = '/'`
abbrev pub unify : Bytes → Bytes
unify path = map (λ c. if c == b'\\' then b'/' else c) path

-- The prefix, "" or "/" or "C:/", and what follows it.
abbrev pub root_prefix : Bytes → Bytes × Bytes
root_prefix [] = ([], [])
root_prefix (a ∷ b ∷ c ∷ s) =
    if is_alpha a && (b == b':' && c == b'/')
    then (a ∷ b ∷ c ∷ [], s)
    else if a == b'/'
    then (a ∷ [], b ∷ c ∷ s)
    else ([], a ∷ b ∷ c ∷ s)
root_prefix (a ∷ s) = if a == b'/' then (a ∷ [], s) else ([], a ∷ s)

abbrev pub onto_first : ℕ → List Bytes → List Bytes
onto_first c [] = (c ∷ []) ∷ []
onto_first c (seg ∷ segs) = (c ∷ seg) ∷ segs

-- The segments between slashes, empty ones included.
abbrev pub segments : Bytes → List Bytes
segments [] = [] ∷ []
segments (c ∷ s) = let rest = segments s in if c == b'/' then [] ∷ rest else onto_first c rest

-- One segment of the loop. The back of the vector `stack` is the head of the list.
abbrev pub push_segment : Bytes → List Bytes → Bytes → List Bytes
push_segment prefix [] seg =
    if is_empty seg || same_text seg (codes ".")
    then []
    else if same_text seg (codes "..")
    then (if is_empty prefix then codes ".." ∷ [] else [])
    else seg ∷ []
push_segment prefix (top ∷ stack) seg =
    if is_empty seg || same_text seg (codes ".")
    then top ∷ stack
    else if same_text seg (codes "..")
    then (if same_text top (codes "..")
        then (if is_empty prefix then codes ".." ∷ top ∷ stack else top ∷ stack)
        else stack)
    else seg ∷ top ∷ stack

abbrev pub push_segments : Bytes → List Bytes → List Bytes → List Bytes
push_segments prefix stack [] = stack
push_segments prefix stack (seg ∷ segs) = push_segments prefix (push_segment prefix stack seg) segs

-- The stack from front to back with a slash between two segments, in front of `back`.
abbrev pub join_stack : List Bytes → Bytes → Bytes
join_stack [] back = back
join_stack (seg ∷ []) back = seg ++ back
join_stack (seg ∷ below ∷ stack) back = join_stack (below ∷ stack) (b'/' ∷ (seg ++ back))

abbrev pub or_dot : Bytes → Bytes
or_dot result = if is_empty result then codes "." else result

abbrev pub normalize_from : Bytes × Bytes → Bytes
normalize_from (prefix, s) = or_dot (prefix ++ join_stack (push_segments prefix [] (segments s)) [])

-- NormalizePath
unfoldable pub normalize_path : Bytes → Bytes
normalize_path path = normalize_from (root_prefix (unify path))

pub record ResolvedFile : Type 0 where
  pub path : Bytes
  pub content : Bytes

-- The loop over the candidates: the first that can be read.
unfoldable pub first_readable : (Bytes → Option Bytes) → List Bytes → Option ResolvedFile
first_readable read_file [] = none
first_readable read_file (candidate ∷ candidates) = elim (read_file candidate) [
  | some content ↦ some (record { path = candidate; content = content })
  | none ↦ first_readable read_file candidates
]

-- ResolveImport
unfoldable pub resolve_import :
    Bytes → Bytes → List Bytes → (Bytes → Option Bytes) → Option ResolvedFile
unfolding normalize_path first_readable
resolve_import import_path importer_dir import_dirs read_file =
    first_readable read_file
      (map (λ dir. normalize_path (join_path dir import_path)) (importer_dir ∷ import_dirs))
