-- ===== src/Loader/Tests.antt =====
-- Each theorem about LoadModuleGraph at a concrete input: two files, and a parser that takes every
-- string literal for an import.
use voodoo.Prelude.{
  arith, ◌≡◌, ◌≢◌, refl, List, [], ◌∷◌, true, false, Option, none, some, if◌then◌else◌,
}
use voodoo.Prelude.Text.{Bytes, codes, same_text, mem_text}
use voodoo.Ast.{ImportDecl}
use voodoo.Lexer.Types.{Token, k_string_literal}
use voodoo.Lexer.Strings.{string_step}
use voodoo.Lexer.Tokenize.{lex_step}
use voodoo.Loader.Paths.{normalize_path}
use voodoo.Loader.Idempotent.{normalize_path-idempotent}
use voodoo.Loader.Merge.{empty_module}
use voodoo.Loader.State.{parsed, Parser, LoadedFile, Settings, done, load_error, no_fuel, ends_with}
use voodoo.Loader.Load.{load_module_graph}
use voodoo.Loader.Graph.{WellLoaded}
use voodoo.Loader.Order.{
  load_module_graph-WellLoaded, load_module_graph-ends_with, load_module_graph-ne-no_fuel,
}

abbrev import_of : Token → List ImportDecl → List ImportDecl
import_of t imps = elim t.type [
  | k_string_literal ↦ record { path = t.text; line = t.line; resolved_path = [] } ∷ imps
  | _ ↦ imps
]

abbrev imports_of : List Token → List ImportDecl
imports_of [] = []
imports_of (t ∷ ts) = import_of t (imports_of ts)

abbrev toy_parser : Parser Unit
toy_parser = record {
  parse_header = λ ts. parsed (record { module_name = codes "m"; imports = imports_of ts }, tt);
  parse_body = λ s p. parsed empty_module;
}

abbrev read_file : Bytes → Option Bytes
read_file p =
    if same_text p (codes "d/a")
    then some (codes "\"../b\"")
    else if same_text p (codes "b")
    then some []
    else if same_text p (codes "c")
    then some (codes "\"c\"")
    else none

abbrev settings : Settings
settings = record {
  import_dirs = [];
  read_file = read_file;
  enabled_features = [];
  long_max = 2147483647;
}

abbrev file_of : Bytes → List ImportDecl → LoadedFile
file_of path imports = record {
  resolved_path = path;
  file_module = record empty_module { name = codes "m"; imports = imports };
}

abbrev graph : List LoadedFile
graph =
    file_of (codes "b") []
    ∷ file_of (codes "d/a")
        (record { path = codes "../b"; line = 1; resolved_path = codes "b" } ∷ [])
    ∷ []

load_a : load_module_graph toy_parser settings 5 (codes "d/a") none ≡ done (graph, true, none)
unfolding load_module_graph lex_step string_step
load_a = refl

-- A file that imports itself is an error.
load_cycle :
    load_module_graph toy_parser settings 5 (codes "./c") none
    ≡ load_error (codes "import cycle: c -> c")
unfolding load_module_graph lex_step string_step
load_cycle = refl

load_module_graph-WellLoaded_example : WellLoaded toy_parser settings false [] graph
load_module_graph-WellLoaded_example =
    load_module_graph-WellLoaded toy_parser settings 5 (codes "d/a") none graph true none load_a

load_module_graph-ends_with_example : ends_with (normalize_path (codes "d/a")) graph ≡ true
load_module_graph-ends_with_example =
    load_module_graph-ends_with toy_parser settings 5 (codes "d/a") graph true none load_a

abbrev files : List Bytes
files = codes "d/a" ∷ codes "b" ∷ codes "c" ∷ []

read_file-finite : (p content : Bytes) → read_file p ≡ some content → mem_text p files ≡ true
read_file-finite p content h = ground (arith, h)

-- The file that imports itself.
load_module_graph-ne-no_fuel_example :
    load_module_graph toy_parser settings 4 (codes "c") none ≢ no_fuel
load_module_graph-ne-no_fuel_example =
    load_module_graph-ne-no_fuel toy_parser settings files read_file-finite 4 (omega arith)
      (codes "c") none

-- A path whose first segment turns out to look like a drive.
normalize_path_drive : normalize_path (codes "x/../C:\\y/./z/..") ≡ codes "C:/y"
unfolding normalize_path
normalize_path_drive = refl

normalize_path-idempotent_example :
    normalize_path (normalize_path (codes "x/../C:\\y/./z/.."))
    ≡ normalize_path (codes "x/../C:\\y/./z/..")
normalize_path-idempotent_example = normalize_path-idempotent (codes "x/../C:\\y/./z/..")
