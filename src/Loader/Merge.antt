-- ===== src/Loader/Merge.antt =====
-- MergeIntoAccumulated, and the struct Prelude of src/parser.h.
use voodoo.Prelude.{List, [], ◌∷◌, ◌++◌, map}
use voodoo.Prelude.Text.{Bytes}
use voodoo.Ast.{StructDecl, Interface, Module}

-- The map `owner_by_name` is a list in which the first pair of a name counts.
pub record Prelude : Type 0 where
  pub flat_module : Module
  pub owner_by_name : List (Bytes × Bytes)

abbrev pub empty_module : Module
empty_module = record {
  name = [];
  imports = [];
  enums = [];
  structs = [];
  unions = [];
  interfaces = [];
  consts = [];
  features = [];
}

abbrev pub empty_prelude : Prelude
empty_prelude = record { flat_module = empty_module; owner_by_name = [] }

abbrev pub concat : List (List Bytes) → List Bytes
concat [] = []
concat (xs ∷ xss) = xs ++ concat xss

abbrev pub struct_names : StructDecl → List Bytes
struct_names s = s.name ∷ map (λ e. e.name) s.enums ++ map (λ c. c.name) s.consts

abbrev pub interface_names : Interface → List Bytes
interface_names iface =
    iface.name ∷ map (λ e. e.name) iface.enums
    ++ map (λ c. c.name) iface.consts
    ++ concat (map struct_names iface.structs)
    ++ map (λ u. u.name) iface.unions

-- The names whose owner is set, in order.
abbrev pub declared_names : Module → List Bytes
declared_names src =
    map (λ e. e.name) src.enums
    ++ concat (map struct_names src.structs)
    ++ map (λ u. u.name) src.unions
    ++ concat (map interface_names src.interfaces)
    ++ map (λ c. c.name) src.consts
    ++ concat (map (λ ft. map (λ c. c.name) ft.consts) src.features)

-- `owner_by_name[name] = owner_namespace` for each name.
abbrev pub set_owners : Bytes → List Bytes → List (Bytes × Bytes) → List (Bytes × Bytes)
set_owners owner [] owners = owners
set_owners owner (name ∷ names) owners = set_owners owner names ((name, owner) ∷ owners)

abbrev pub append_decls : Module → Module → Module
append_decls dst src = record dst {
  enums = dst.enums ++ src.enums;
  structs = dst.structs ++ src.structs;
  unions = dst.unions ++ src.unions;
  interfaces = dst.interfaces ++ src.interfaces;
  consts = dst.consts ++ src.consts;
  features = dst.features ++ src.features;
}

-- MergeIntoAccumulated
unfoldable pub merge_into_accumulated : Prelude → Module → Bytes → Prelude
merge_into_accumulated accumulated src owner_namespace = record {
  flat_module = append_decls accumulated.flat_module src;
  owner_by_name = set_owners owner_namespace (declared_names src) accumulated.owner_by_name;
}
