-- ===== src/Loader/Graph.antt =====
-- A graph in dependency order: what module_loader.h says of LoadedGraph.
use voodoo.Prelude.{
  arith, List, [], ◌∷◌, ◌++◌, Bool, true, false, ◌||◌, some, ◌≡◌, refl, sym, ap, subst, ◌⊎◌, inl,
  inr, map, All, append_assoc, append-nil,
}
use voodoo.Prelude.Text.{Bytes, mem_text}
use voodoo.Ast.{ImportDecl, Module}
use voodoo.Gating.{apply_enable_if}
use voodoo.Lexer.Types.{Token}
use voodoo.Lexer.Tokenize.{tokens, tokenize}
use voodoo.Loader.Paths.{ResolvedFile, dir_name, resolve_import}
use voodoo.Loader.Merge.{Prelude, empty_prelude, merge_into_accumulated}
use voodoo.Loader.State.{parsed, FileHeader, Parser, LoadedFile, Settings}

abbrev pub paths : List LoadedFile → List Bytes
paths graph = map (λ f. f.resolved_path) graph

-- The declarations of some files in order, merged behind what there is.
abbrev pub accumulate : Prelude → List LoadedFile → Prelude
accumulate acc [] = acc
accumulate acc (f ∷ fs) =
    accumulate (merge_into_accumulated acc f.file_module f.file_module.name) fs

pub accumulate-snoc :
    (acc : Prelude) (fs : List LoadedFile) (f : LoadedFile)
    → accumulate acc (fs ++ f ∷ [])
      ≡ merge_into_accumulated (accumulate acc fs) f.file_module f.file_module.name
accumulate-snoc acc [] f = refl
accumulate-snoc acc (g ∷ fs) f =
    accumulate-snoc (merge_into_accumulated acc g.file_module g.file_module.name) fs f

pub mem_text-append :
    (p : Bytes) (xs ys : List Bytes) → mem_text p (xs ++ ys) ≡ (mem_text p xs || mem_text p ys)
mem_text-append p [] ys = refl
mem_text-append p (x ∷ xs) ys = ground (arith, mem_text-append p xs ys)

pub paths-snoc :
    (fs : List LoadedFile) (f : LoadedFile)
    → paths (fs ++ f ∷ []) ≡ paths fs ++ f.resolved_path ∷ []
paths-snoc [] f = refl
paths-snoc (g ∷ fs) f = ap (λ ps. g.resolved_path ∷ ps) (paths-snoc fs f)

module _ {State : Type 0} (parser : Parser State) (settings : Settings) where
  -- The import of a file at `path` names the file that ResolveImport finds, which is one of those
  -- before it; or it is without a path, which only the per-file mode allows.
  abbrev pub ImportOk : Bool → Bytes → List LoadedFile → ImportDecl → Type 0
  ImportOk per_file path before imp =
      ((file : ResolvedFile) × (resolve_import imp.path (dir_name path) settings.import_dirs
            settings.read_file
          ≡ some file)
        × (imp.resolved_path ≡ file.path)
        × (mem_text file.path (paths before) ≡ true))
      ⊎ ((imp.resolved_path ≡ []) × (per_file ≡ true))

  -- The file is what the parser makes of the text at its path, with the declarations of the files
  -- before it, filtered by the enabled features.
  pub record IsParsed (before : List LoadedFile) (f : LoadedFile) : Type 0 where
    pub content : Bytes
    pub text_tokens : List Token
    pub header : FileHeader
    pub state : State
    pub body : Module
    pub reads : settings.read_file f.resolved_path ≡ some content
    pub lexes : tokenize settings.long_max content ≡ tokens text_tokens
    pub parses : parser.parse_header text_tokens ≡ parsed (header, state)
    pub parses_body : parser.parse_body state (accumulate empty_prelude before) ≡ parsed body
    pub imported : map (λ i. i.path) f.file_module.imports ≡ map (λ i. i.path) header.imports
    pub gated :
        f.file_module
        ≡ apply_enable_if settings.enabled_features
            (record body { name = header.module_name; imports = f.file_module.imports })

  -- A file that may stand behind the files `before`: no other has its path.
  abbrev pub FileOk : Bool → List LoadedFile → LoadedFile → Type 0
  FileOk per_file before f =
      (mem_text f.resolved_path (paths before) ≡ false)
      × All (ImportOk per_file f.resolved_path before) f.file_module.imports
      × IsParsed before f

  abbrev pub WellLoaded : Bool → List LoadedFile → List LoadedFile → Type 0
  WellLoaded per_file before [] = Unit
  WellLoaded per_file before (f ∷ fs) =
      FileOk per_file before f × WellLoaded per_file (before ++ f ∷ []) fs

  pub WellLoaded-snoc :
      (per_file : Bool) (before fs : List LoadedFile) (f : LoadedFile)
      → WellLoaded per_file before fs
      → FileOk per_file (before ++ fs) f
      → WellLoaded per_file before (fs ++ f ∷ [])
  WellLoaded-snoc b before [] f w h = (subst (λ fs. FileOk b fs f) (append-nil before) h, tt)
  WellLoaded-snoc b before (g ∷ fs) f w h = (
    w.0,
    WellLoaded-snoc b (before ++ g ∷ []) fs f w.1
        (subst (λ fs. FileOk b fs f) (sym (append_assoc before (g ∷ []) fs)) h),
  )

  -- A longer graph keeps what is said of imports.
  pub ImportOk-grows :
      (per_file : Bool) (path : Bytes) (g g' : List LoadedFile) (imps : List ImportDecl)
      → ((p : Bytes) → mem_text p (paths g) ≡ true → mem_text p (paths g') ≡ true)
      → All (ImportOk per_file path g) imps
      → All (ImportOk per_file path g') imps
  ImportOk-grows b path g g' [] k h = tt
  ImportOk-grows b path g g' (imp ∷ imps) k h = (
    elim h.0 [
      | inl (file, resolves, is, there) ↦ inl (file, resolves, is, k file.path there)
      | inr missing ↦ inr missing
    ],
    ImportOk-grows b path g g' imps k h.1,
  )
