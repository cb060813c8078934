-- ===== src/Loader/Load.antt =====
-- LoadFileInto and LoadModuleGraph.
use voodoo.Prelude.{ℕ, zero, suc, List, [], ◌∷◌, ◌++◌, Bool, Option, none, some, if◌then◌else◌}
use voodoo.Prelude.Text.{Bytes, codes, mem_text}
use voodoo.Ast.{ImportDecl, Module}
use voodoo.Gating.{apply_enable_if}
use voodoo.Lexer.Tokenize.{LexResult, tokens, failed, out_of_range, out_of_fuel, tokenize}
use voodoo.Loader.Paths.{dir_name, normalize_path, resolve_import}
use voodoo.Loader.Merge.{merge_into_accumulated}
use voodoo.Loader.State.{
  Parsed, FileHeader, Parser, LoadedFile, LoadState, Settings, Outcome, and_then,
  cycle_chain_message, lex_error_what, load_error_what, skip_message, give_up, file_error,
  unresolved_message, Imported, cons_import, resolved_to, push_file, initial_state, ends_with,
  parsed, parse_error, parse_throws, done, load_error, uncaught, no_fuel,
}

module _ {State : Type 0} (parser : Parser State) (settings : Settings) where
  -- The loop over the imports of the file at `path`, with LoadFileInto as `load`.
  unfoldable pub load_imports :
      (Bytes → Bytes → LoadState → Outcome LoadState)
      → Bytes
      → List ImportDecl
      → LoadState
      → Outcome Imported
  unfolding resolve_import
  load_imports load path [] st = done ([], st)
  load_imports load path (imp ∷ imps) st =
      elim (resolve_import imp.path (dir_name path) settings.import_dirs settings.read_file) [
        | none ↦
            let skip = record imp { resolved_path = [] } in
            let message =
              unresolved_message imp.path ++ codes " (imported from '" ++ path ++ codes "')" in
            let rest = load_imports load path imps (skip_message message st) in
            if st.per_file
            then and_then rest (cons_import skip)
            else load_error (load_error_what (unresolved_message imp.path) path imp.line)
        | some file ↦ and_then (load file.path file.content st) λ st'.
            and_then (load_imports load path imps st') (cons_import (resolved_to file.path st' imp))
      ]

  -- `file_module` once ParseBody has returned.
  abbrev pub finish_module : FileHeader → List ImportDecl → Module → Module
  finish_module header imports body =
      apply_enable_if settings.enabled_features
        (record body { name = header.module_name; imports = imports })

  -- What stands behind the loop over the imports.
  unfoldable pub finish_file : Bytes → FileHeader → State → Imported → Outcome LoadState
  unfolding apply_enable_if merge_into_accumulated
  finish_file path header p (imports, st) = elim (parser.parse_body p st.accumulated) [
    | parse_error what ↦ give_up path (file_error path what) st
    | parse_throws ↦ uncaught
    | parsed body ↦ done (push_file path header.module_name (finish_module header imports body) st)
  ]

  -- What stands behind Tokenize and ParseHeader.
  unfoldable pub load_parsed :
      (Bytes → Bytes → LoadState → Outcome LoadState)
      → Bytes
      → Parsed (FileHeader × State)
      → LoadState
      → Outcome LoadState
  unfolding load_imports finish_file
  load_parsed load path (parse_error what) st = give_up path (file_error path what) st
  load_parsed load path parse_throws st = uncaught
  load_parsed load path (parsed (header, p)) st =
      and_then (load_imports load path header.imports st) (finish_file path header p)

  unfoldable pub load_tokens :
      (Bytes → Bytes → LoadState → Outcome LoadState)
      → Bytes
      → LexResult
      → LoadState
      → Outcome LoadState
  unfolding load_parsed
  load_tokens load path (tokens ts) st = load_parsed load path (parser.parse_header ts) st
  load_tokens load path (failed e) st = give_up path (file_error path (lex_error_what e)) st
  load_tokens load path out_of_range st = uncaught
  load_tokens load path out_of_fuel st = no_fuel

  -- LoadFileInto
  unfoldable pub load_file_into : ℕ → Bytes → Bytes → LoadState → Outcome LoadState
  unfolding load_tokens tokenize
  load_file_into zero path content st = no_fuel
  load_file_into (suc fuel) path content st =
      if mem_text path st.merged
      then done st
      else if mem_text path st.loading
      then load_error (cycle_chain_message st.loading path)
      else load_tokens (load_file_into fuel) path (tokenize settings.long_max content)
          (record st { loading = path ∷ st.loading })

  -- LoadModuleGraph: the graph, `*entry_loaded` and what `skipped` then holds.
  unfoldable pub load_module_graph :
      ℕ → Bytes → Option (List Bytes) → Outcome (List LoadedFile × Bool × Option (List Bytes))
  unfolding load_file_into normalize_path
  load_module_graph fuel entry_path skipped =
      elim (settings.read_file (normalize_path entry_path)) [
        | none ↦ load_error (codes "cannot open '" ++ entry_path ++ codes "' for reading")
        | some content ↦
            and_then
              (load_file_into fuel (normalize_path entry_path) content (initial_state skipped))
              λ st. done (st.graph, ends_with (normalize_path entry_path) st.graph, st.skipped)
      ]
