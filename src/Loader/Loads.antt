-- ===== src/Loader/Loads.antt =====
-- The invariant over the loop over the imports.
use voodoo.Prelude.{
  List, [], ◌∷◌, ◌++◌, Bool, true, false, Option, none, some, ◌≡◌, refl, sym, ap, subst, ◌∙◌, inl,
  inr, map, All, if◌then◌else◌, Bool-cases, if-true, if-false,
}
use voodoo.Prelude.Text.{Bytes, mem_text, codes}
use voodoo.Ast.{ImportDecl}
use voodoo.Loader.Paths.{
  ResolvedFile, dir_name, normalize_path, first_readable, resolve_import, join_path,
}
use voodoo.Loader.State.{
  Parser, LoadState, Settings, Outcome, load_error, and_then, skip_message, Imported, cons_import,
  resolved_to, unresolved_message, load_error_what,
}
use voodoo.Loader.Load.{load_imports}
use voodoo.Loader.Graph.{paths, ImportOk, ImportOk-grows}
use voodoo.Loader.Post.{Post, Post-and_then, true-false}
use voodoo.Loader.Sound.{Loaded, Inside, skip_message-Sound}

pub first_readable-reads :
    (read_file : Bytes → Option Bytes) (candidates : List Bytes) (file : ResolvedFile)
    → first_readable read_file candidates ≡ some file
    → read_file file.path ≡ some file.content
unfolding first_readable
first_readable-reads read_file [] file h = cc
first_readable-reads read_file (p ∷ ps) file h =
    go (read_file p) refl h (first_readable-reads read_file ps file)
  where
    go :
        (o : Option Bytes)
        → read_file p ≡ o
        → elim o [
          | some content ↦ some (record { path = p; content = content })
          | none ↦ first_readable read_file ps
        ]
          ≡ some file
        → (first_readable read_file ps ≡ some file → read_file file.path ≡ some file.content)
        → read_file file.path ≡ some file.content
    go none e k later = later k
    go (some content) e k later = cc

module _ {State : Type 0} (parser : Parser State) (settings : Settings) where
  pub resolve_import-reads :
      (import_path dir : Bytes) (file : ResolvedFile)
      → resolve_import import_path dir settings.import_dirs settings.read_file ≡ some file
      → settings.read_file file.path ≡ some file.content
  unfolding resolve_import
  resolve_import-reads import_path dir file h =
      first_readable-reads settings.read_file
        (map (λ d. normalize_path (join_path d import_path)) (dir ∷ settings.import_dirs)) file h

  Inside_step :
      (path start st p st' : _)
      → Inside parser settings path start st
      → Loaded parser settings p st st'
      → Inside parser settings path start st'
  Inside_step path start st p st' i l = record {
    sound = l.sound;
    within = l.extends.same_loading ∙ i.within;
    outside = i.outside;
    same_mode = l.extends.same_mode ∙ i.same_mode;
    grows = λ q h. l.extends.grows q (i.grows q h);
  }

  -- The import whose file has just been loaded.
  ImportOk-Loaded :
      (path : Bytes) (imp : ImportDecl) (file : ResolvedFile) (st st' : LoadState)
      → resolve_import imp.path (dir_name path) settings.import_dirs settings.read_file ≡ some file
      → Loaded parser settings file.path st st'
      → ImportOk parser settings st'.per_file path st'.graph (resolved_to file.path st' imp)
  ImportOk-Loaded path imp file st st' e l =
      elim (Bool-cases (mem_text file.path st'.failed_paths)) [
        | inl lost ↦ elim (Bool-cases st'.per_file) [
          | inl mode ↦ inr (if-true _ _ lost, mode)
          | inr strict ↦
              absurd (true-false (sym lost ∙ ap (mem_text file.path) (l.sound.strict strict)))
        ]
        | inr kept ↦ elim (l.sound.merged_found file.path l.merges) [
          | inl found ↦ inl (file, e, if-false _ _ kept, found)
          | inr lost ↦ absurd (true-false (sym lost ∙ kept))
        ]
      ]

  -- The loop over imports: its result, from the state `st`.
  pub record Imports (path : Bytes) (start st : LoadState) (imps : List ImportDecl) (r : Imported)
      : Type 0 where
    pub inside : Inside parser settings path start r.1
    pub all_ok : All (ImportOk parser settings r.1.per_file path r.1.graph) r.0
    pub same_paths : map (λ i. i.path) r.0 ≡ map (λ i. i.path) imps
    pub grows :
        (p : Bytes) → mem_text p (paths st.graph) ≡ true → mem_text p (paths r.1.graph) ≡ true

  abbrev unresolved : ImportDecl → ImportDecl
  unresolved imp = record imp { resolved_path = [] }

  Imports-skipped :
      (path : Bytes) (start st : LoadState) (message : Bytes) (imp : ImportDecl)
      (imps : List ImportDecl)
      → (Unfueled : Type 0) → Inside parser settings path start st
      → st.per_file ≡ true
      → (r : Imported) → Imports path start (skip_message message st) imps r
      → Post Unfueled (Imports path start st (imp ∷ imps)) (cons_import (unresolved imp) r)
  Imports-skipped path start st message imp imps U i mode (imps', s) h = record {
    inside = h.inside;
    all_ok = (inr (refl, h.inside.same_mode ∙ sym i.same_mode ∙ mode), h.all_ok);
    same_paths = ap (λ ps. imp.path ∷ ps) h.same_paths;
    grows = h.grows;
  }

  Imports-Loaded :
      (path : Bytes) (start st s : LoadState) (imp : ImportDecl) (imps : List ImportDecl)
      (file : ResolvedFile)
      → (Unfueled : Type 0)
      → resolve_import imp.path (dir_name path) settings.import_dirs settings.read_file ≡ some file
      → Inside parser settings path start st
      → Loaded parser settings file.path st s
      → (r : Imported) → Imports path start s imps r
      → Post Unfueled
          (Imports path start st (imp ∷ imps))
          (cons_import (resolved_to file.path s imp) r)
  Imports-Loaded path start st s imp imps file U e i l (imps', s') h = record {
    inside = h.inside;
    all_ok = (
      (ImportOk-grows parser settings s'.per_file path s.graph s'.graph
          (resolved_to file.path s imp ∷ []) h.grows
          (
            subst (λ b. ImportOk parser settings b path s.graph (resolved_to file.path s imp))
                (l.extends.same_mode ∙ i.same_mode ∙ sym h.inside.same_mode)
                (ImportOk-Loaded path imp file st s e l),
            tt,
          )).0,
      h.all_ok,
    );
    same_paths = ap (λ ps. imp.path ∷ ps) h.same_paths;
    grows = λ p k. h.grows p (l.extends.grows p k);
  }

  module _ (Unfueled : Type 0) (load : Bytes → Bytes → LoadState → Outcome LoadState) (path : Bytes)
      (start : LoadState)
      (loads : (p content : Bytes) (st : LoadState)
        → Inside parser settings path start st
        → settings.read_file p ≡ some content
        → Post Unfueled (Loaded parser settings p st) (load p content st)) where
    pub load_imports-Post :
        (imps : List ImportDecl) (st : LoadState)
        → Inside parser settings path start st
        → Post Unfueled
            (Imports path start st imps)
            (load_imports parser settings load path imps st)
    unfolding load_imports
    load_imports-Post [] st i = record {
      inside = i;
      all_ok = tt;
      same_paths = refl;
      grows = λ p h. h;
    }
    load_imports-Post (imp ∷ imps) st i =
        go (resolve_import imp.path (dir_name path) settings.import_dirs settings.read_file) refl
          st.per_file refl (λ s. load_imports-Post imps s)
      where
        rest : LoadState → Outcome Imported
        rest s = load_imports parser settings load path imps s

        message : Bytes
        message = unresolved_message imp.path ++ codes " (imported from '" ++ path ++ codes "')"

        go :
            (o : Option ResolvedFile)
            → resolve_import imp.path (dir_name path) settings.import_dirs settings.read_file ≡ o
            → (b : Bool) → st.per_file ≡ b
            → ((s : LoadState)
                → Inside parser settings path start s
                → Post Unfueled (Imports path start s imps) (rest s))
            → Post Unfueled (Imports path start st (imp ∷ imps)) (elim o [
              | none ↦
                  if b
                  then and_then (rest (skip_message message st)) (cons_import (unresolved imp))
                  else load_error (load_error_what (unresolved_message imp.path) path imp.line)
              | some file ↦
                  and_then
                    (load file.path file.content st)
                    λ st'. and_then (rest st') (cons_import (resolved_to file.path st' imp))
            ])
        go none e true mode k =
            Post-and_then Unfueled (Imports path start (skip_message message st) imps) _
              (rest (skip_message message st)) (cons_import (unresolved imp))
              (k (skip_message message st) (record {
                sound = skip_message-Sound parser settings message st i.sound;
                within = i.within;
                outside = i.outside;
                same_mode = i.same_mode;
                grows = i.grows;
              }))
              (Imports-skipped path start st message imp imps Unfueled i mode)
        go none e false mode k = tt
        go (some file) e b mode k =
            Post-and_then Unfueled (Loaded parser settings file.path st) _
              (load file.path file.content st) _
              (loads file.path file.content st i
                (resolve_import-reads imp.path (dir_name path) file e))
              (λ s l.
                Post-and_then Unfueled (Imports path start s imps) _ (rest s)
                  (cons_import (resolved_to file.path s imp))
                  (k s (Inside_step path start st file.path s i l))
                  (Imports-Loaded path start st s imp imps file Unfueled e i l))
