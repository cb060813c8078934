-- ===== src/Gating.antt =====
-- ApplyEnableIf of src/parser.cc: the declarations that `[EnableIf]` takes out of a module.
pub mod Clauses
pub mod Gated
pub mod Stable
mod Tests
use voodoo.Prelude.{
  ℕ, List, [], ◌∷◌, Bool, true, false, not, ◌&&◌, map, is_empty, remove_if, ltb, if◌then◌else◌,
}
use voodoo.Prelude.Text.{Bytes, same_text, mem_text}
use voodoo.Ast.{
  Mode, k_none, k_any, k_all, EnableIfClause, EnableIf, Method, ConstDecl, EnumValue, EnumDecl,
  StructField, StructDecl, UnionField, UnionDecl, Interface, FeatureDecl, Module,
}

-- The two loops of ClauseMatches over the flags.
abbrev pub some_enabled : List Bytes → List Bytes → Bool
some_enabled enabled [] = false
some_enabled enabled (f ∷ flags) =
    let rest = some_enabled enabled flags in if mem_text f enabled then true else rest

abbrev pub all_enabled : List Bytes → List Bytes → Bool
all_enabled enabled [] = true
all_enabled enabled (f ∷ flags) =
    let rest = all_enabled enabled flags in if mem_text f enabled then rest else false

-- ClauseMatches
abbrev pub clause_matches : EnableIfClause → List Bytes → Bool → Bool
clause_matches clause enabled negate = elim clause.mode [
  | k_none ↦ true
  | k_any ↦ let hit = some_enabled enabled clause.flags in if negate then not hit else hit
  | k_all ↦
      let hit = if is_empty clause.flags then false else all_enabled enabled clause.flags in
      if negate then not hit else hit
]

-- IsDeclEnabled
unfoldable pub is_decl_enabled : EnableIf → List Bytes → Bool
is_decl_enabled spec enabled =
    clause_matches spec.enable_if enabled false && clause_matches spec.enable_if_not enabled true

-- EraseDisabled, for the type whose field `enable_if` is given.
abbrev pub erase_disabled {ℓ} : {T : Type ℓ} → (T → EnableIf) → List Bytes → List T → List T
erase_disabled enable_if enabled v = remove_if (λ x. not (is_decl_enabled (enable_if x) enabled)) v

-- The loop `version = std::max(version, x.min_version)`.
abbrev pub max_version : ℕ → List ℕ → ℕ
max_version version [] = version
max_version version (v ∷ vs) = max_version (if ltb version v then v else version) vs

-- FilterEnum
abbrev pub filter_enum : List Bytes → EnumDecl → EnumDecl
filter_enum enabled e = record e { values = erase_disabled (λ v. v.enable_if) enabled e.values }

-- FilterStruct
abbrev pub filter_struct : List Bytes → StructDecl → StructDecl
filter_struct enabled s =
    let fields = erase_disabled (λ f. f.enable_if) enabled s.fields in
    record s {
      fields = fields;
      enums = map (filter_enum enabled) (erase_disabled (λ e. e.enable_if) enabled s.enums);
      consts = erase_disabled (λ c. c.enable_if) enabled s.consts;
      version = max_version 0 (map (λ f. f.min_version) fields);
    }

-- FilterUnion
abbrev pub filter_union : List Bytes → UnionDecl → UnionDecl
filter_union enabled u =
    let fields = erase_disabled (λ f. f.enable_if) enabled u.fields in
    record u { fields = fields; version = max_version 0 (map (λ f. f.min_version) fields) }

-- Unions filtered, and those that have no field left taken out.
abbrev pub filter_unions : List Bytes → List UnionDecl → List UnionDecl
filter_unions enabled us =
    remove_if (λ u. is_empty u.fields)
      (map (filter_union enabled) (erase_disabled (λ u. u.enable_if) enabled us))

-- FilterInterface
abbrev pub filter_interface : List Bytes → Interface → Interface
filter_interface enabled iface =
    let methods = erase_disabled (λ m. m.enable_if) enabled iface.methods in
    record iface {
      methods = methods;
      enums = map (filter_enum enabled) (erase_disabled (λ e. e.enable_if) enabled iface.enums);
      consts = erase_disabled (λ c. c.enable_if) enabled iface.consts;
      structs =
          map (filter_struct enabled) (erase_disabled (λ s. s.enable_if) enabled iface.structs);
      unions = filter_unions enabled iface.unions;
      version = max_version 0 (map (λ m. m.min_version) methods);
    }

abbrev pub filter_feature : List Bytes → FeatureDecl → FeatureDecl
filter_feature enabled ft = record ft {
  consts = erase_disabled (λ c. c.enable_if) enabled ft.consts;
}

-- ApplyEnableIf
unfoldable pub apply_enable_if : List Bytes → Module → Module
apply_enable_if enabled m = record m {
  interfaces =
      map (filter_interface enabled) (erase_disabled (λ i. i.enable_if) enabled m.interfaces);
  structs = map (filter_struct enabled) (erase_disabled (λ s. s.enable_if) enabled m.structs);
  unions = filter_unions enabled m.unions;
  enums = map (filter_enum enabled) (erase_disabled (λ e. e.enable_if) enabled m.enums);
  consts = erase_disabled (λ c. c.enable_if) enabled m.consts;
  features = map (filter_feature enabled) (erase_disabled (λ f. f.enable_if) enabled m.features);
}
