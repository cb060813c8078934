-- ===== src/Loader/State.antt =====
-- The state of a load, its outcomes, the texts of the errors, and the interface of the
-- parser: what a Parser holds between ParseHeader and ParseBody is its `State`.
use voodoo.Prelude.{
  ℕ, List, [], ◌∷◌, ◌++◌, Bool, true, false, Option, none, some, leb, if◌then◌else◌,
}
use voodoo.Prelude.Text.{Bytes, codes, same_text, mem_text, map_option, to_string}
use voodoo.Ast.{ImportDecl, Module}
use voodoo.Lexer.Types.{Token, LexError}
use voodoo.Loader.Merge.{Prelude, empty_prelude, merge_into_accumulated}

-- A call of the parser: a value, the text of a ParseError, or an exception of another type.
pub data Parsed (A : Type 0) : Type 0 where
  parsed : A → Parsed A
  parse_error : (what : Bytes) → Parsed A
  parse_throws : Parsed A

pub record FileHeader : Type 0 where
  pub module_name : Bytes
  pub imports : List ImportDecl

pub record Parser (State : Type 0) : Type 0 where
  pub parse_header : List Token → Parsed (FileHeader × State)
  pub parse_body : State → Prelude → Parsed Module

pub record LoadedFile : Type 0 where
  pub resolved_path : Bytes
  pub file_module : Module

-- LoadState without what stays the same (Settings), with `accumulated` and `graph`. The back of the
-- vector `loading` is the head of the list.
pub record LoadState : Type 0 where
  pub merged : List Bytes
  pub loading : List Bytes
  pub skipped : Option (List Bytes)
  pub failed_paths : List Bytes
  pub per_file : Bool
  pub accumulated : Prelude
  pub graph : List LoadedFile

pub record Settings : Type 0 where
  pub import_dirs : List Bytes
  pub read_file : Bytes → Option Bytes
  pub enabled_features : List Bytes
  pub long_max : ℕ

-- A value, the text of a LoadError, an exception of another type, or the end of the model's fuel.
pub data Outcome (A : Type 0) : Type 0 where
  done : A → Outcome A
  load_error : (what : Bytes) → Outcome A
  uncaught : Outcome A
  no_fuel : Outcome A

abbrev pub and_then : {A B : Type 0} → Outcome A → (A → Outcome B) → Outcome B
and_then (done a) k = k a
and_then (load_error what) k = load_error what
and_then uncaught k = uncaught
and_then no_fuel k = no_fuel

-- The paths from front to back, each with an arrow behind it, in front of `back`.
abbrev pub chain : List Bytes → Bytes → Bytes
chain [] back = back
chain (p ∷ loading) back = chain loading (p ++ codes " -> " ++ back)

-- CycleChainMessage
abbrev pub cycle_chain_message : List Bytes → Bytes → Bytes
cycle_chain_message loading closing_path = codes "import cycle: " ++ chain loading closing_path

-- LexError::what
abbrev pub lex_error_what : LexError → Bytes
lex_error_what e = e.message ++ codes " (line " ++ to_string e.line ++ codes ")"

-- LoadError::what of a LoadError with a file and a line.
abbrev pub load_error_what : Bytes → Bytes → ℕ → Bytes
load_error_what msg in_file line =
    msg
    ++ codes " ("
    ++ in_file
    ++ (if leb 1 line then codes ":" ++ to_string line else [])
    ++ codes ")"

abbrev pub pop_back : List Bytes → List Bytes
pop_back [] = []
pop_back (p ∷ ps) = ps

-- `if (skipped) skipped->push_back(msg)`
abbrev pub skip_message : Bytes → LoadState → LoadState
skip_message msg st = record st { skipped = map_option (λ ms. ms ++ msg ∷ []) st.skipped }

-- The lambda GiveUp, with the return behind each call of it.
abbrev pub give_up : Bytes → Bytes → LoadState → Outcome LoadState
give_up path msg st =
    let st' = record st {
      loading = pop_back st.loading;
      merged = path ∷ st.merged;
      failed_paths = path ∷ st.failed_paths;
    } in
    if st.per_file then done (skip_message msg st') else load_error msg

abbrev pub file_error : Bytes → Bytes → Bytes
file_error path what = codes "in '" ++ path ++ codes "': " ++ what

abbrev pub unresolved_message : Bytes → Bytes
unresolved_message import_path = codes "cannot resolve import '" ++ import_path ++ codes "'"

-- The result of a loop over imports: the imports with their paths, and the state.
abbrev pub Imported : Type 0
Imported = List ImportDecl × LoadState

abbrev pub cons_import : ImportDecl → Imported → Outcome Imported
cons_import imp (imps, st) = done (imp ∷ imps, st)

-- `imp.resolved_path`, cleared where the file failed
abbrev pub resolved_to : Bytes → LoadState → ImportDecl → ImportDecl
resolved_to path st imp = record imp {
  resolved_path = if mem_text path st.failed_paths then [] else path;
}

-- The last lines of LoadFileInto.
abbrev pub push_file : Bytes → Bytes → Module → LoadState → LoadState
push_file path module_name m st = record st {
  accumulated = merge_into_accumulated st.accumulated m module_name;
  graph = st.graph ++ record { resolved_path = path; file_module = m } ∷ [];
  loading = pop_back st.loading;
  merged = path ∷ st.merged;
}

abbrev pub initial_state : Option (List Bytes) → LoadState
initial_state skipped = record {
  merged = [];
  loading = [];
  skipped = skipped;
  failed_paths = [];
  per_file = elim skipped [ none ↦ false | some ms ↦ true ];
  accumulated = empty_prelude;
  graph = [];
}

-- `!graph.empty() && graph.back().resolved_path == normalized_entry`
abbrev pub ends_with : Bytes → List LoadedFile → Bool
ends_with entry [] = false
ends_with entry (f ∷ []) = same_text f.resolved_path entry
ends_with entry (f ∷ g ∷ fs) = ends_with entry (g ∷ fs)
