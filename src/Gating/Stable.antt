-- ===== src/Gating/Stable.antt =====
-- ApplyEnableIf on what it left.
use voodoo.Prelude.{
  List, [], ◌∷◌, not, ◌≡◌, refl, sym, ap, ap₂, ◌∙◌, map, is_empty, remove_if, All, if-false,
}
use voodoo.Prelude.Text.{Bytes}
use voodoo.Ast.{EnableIf, EnumDecl, StructDecl, UnionDecl, Interface, FeatureDecl, Module}
use voodoo.Gating.{
  erase_disabled, filter_enum, filter_struct, filter_union, filter_unions, filter_interface,
  filter_feature, apply_enable_if,
}
use voodoo.Gating.Clauses.{Kept, Kept-enabled, IsGreatest-max_version}
use voodoo.Gating.Gated.{
  EnumGated, StructGated, UnionGated, UnionKept, InterfaceGated, FeatureGated, ModuleGated,
  apply_enable_if-Gated,
}

module _ (enabled : List Bytes) where
  erase_disabled_fix {ℓ} :
      {T : Type ℓ} (f : T → EnableIf) (xs : List T)
      → All (λ x. Kept enabled (f x)) xs
      → erase_disabled f enabled xs ≡ xs
  erase_disabled_fix f [] h = refl
  erase_disabled_fix f (x ∷ xs) h =
      if-false _ _ (ap not (Kept-enabled enabled (f x) h.0))
      ∙ ap (λ ys. x ∷ ys) (erase_disabled_fix f xs h.1)

  map-erase_disabled_fix {ℓ κ} :
      {T : Type ℓ} (P : T → Type κ) (f : T → EnableIf) (g : T → T) (xs : List T)
      → ((x : T) → P x → g x ≡ x)
      → All (λ x. Kept enabled (f x) × P x) xs
      → map g (erase_disabled f enabled xs) ≡ xs
  map-erase_disabled_fix P f g [] k h = refl
  map-erase_disabled_fix P f g (x ∷ xs) k h =
      ap (map g) (if-false _ _ (ap not (Kept-enabled enabled (f x) h.0.0)))
      ∙ ap₂ (λ y ys. y ∷ ys) (k x h.0.1) (map-erase_disabled_fix P f g xs k h.1)

  filter_enum_fix : (e : EnumDecl) → EnumGated enabled e → filter_enum enabled e ≡ e
  filter_enum_fix e h = rw (erase_disabled_fix (λ v. v.enable_if) e.values h) refl

  enums_fix :
      (es : List EnumDecl)
      → All (λ e. Kept enabled e.enable_if × EnumGated enabled e) es
      → map (filter_enum enabled) (erase_disabled (λ e. e.enable_if) enabled es) ≡ es
  enums_fix es h =
      map-erase_disabled_fix (EnumGated enabled) (λ e. e.enable_if) (filter_enum enabled) es
        filter_enum_fix h

  filter_struct_fix : (s : StructDecl) → StructGated enabled s → filter_struct enabled s ≡ s
  filter_struct_fix s h =
      rw
        (
          erase_disabled_fix (λ f. f.enable_if) s.fields h.0,
          enums_fix s.enums h.1,
          erase_disabled_fix (λ c. c.enable_if) s.consts h.2,
          sym (IsGreatest-max_version s.version _ h.3),
        )
        refl

  structs_fix :
      (ss : List StructDecl)
      → All (λ s. Kept enabled s.enable_if × StructGated enabled s) ss
      → map (filter_struct enabled) (erase_disabled (λ s. s.enable_if) enabled ss) ≡ ss
  structs_fix ss h =
      map-erase_disabled_fix (StructGated enabled) (λ s. s.enable_if) (filter_struct enabled) ss
        filter_struct_fix h

  filter_union_fix : (u : UnionDecl) → UnionGated enabled u → filter_union enabled u ≡ u
  filter_union_fix u h =
      rw
        (
          erase_disabled_fix (λ f. f.enable_if) u.fields h.0,
          sym (IsGreatest-max_version u.version _ h.1),
        )
        refl

  unions_fix : (us : List UnionDecl) → All (UnionKept enabled) us → filter_unions enabled us ≡ us
  unions_fix [] h = refl
  unions_fix (u ∷ us) h =
      ap (λ vs. remove_if (λ u. is_empty u.fields) (map (filter_union enabled) vs))
        (if-false _ _ (ap not (Kept-enabled enabled u.enable_if h.0.0.0)))
      ∙ ap
          (λ v.
            remove_if (λ u. is_empty u.fields)
              (v ∷ map (filter_union enabled) (erase_disabled (λ u. u.enable_if) enabled us)))
          (filter_union_fix u h.0.0.1)
      ∙ if-false _ _ h.0.1
      ∙ ap (λ vs. u ∷ vs) (unions_fix us h.1)

  filter_interface_fix : (i : Interface) → InterfaceGated enabled i → filter_interface enabled i ≡ i
  filter_interface_fix i h =
      rw
        (
          erase_disabled_fix (λ m. m.enable_if) i.methods h.0,
          enums_fix i.enums h.1,
          erase_disabled_fix (λ c. c.enable_if) i.consts h.2,
          structs_fix i.structs h.3,
          unions_fix i.unions h.4,
          sym (IsGreatest-max_version i.version _ h.5),
        )
        refl

  filter_feature_fix : (f : FeatureDecl) → FeatureGated enabled f → filter_feature enabled f ≡ f
  filter_feature_fix f h = rw (erase_disabled_fix (λ c. c.enable_if) f.consts h) refl

  -- ApplyEnableIf leaves a module as it is where each type, feature, field, enum value, method and
  -- constant, nested ones included, has an `EnableIf` that the features meet and an `EnableIfNot`
  -- that they do not, each version is the greatest `min_version` of its fields or methods, and no
  -- union is without fields.
  pub apply_enable_if_fix : (m : Module) → ModuleGated enabled m → apply_enable_if enabled m ≡ m
  unfolding apply_enable_if
  apply_enable_if_fix m h =
      rw
        (
          enums_fix m.enums h.0,
          structs_fix m.structs h.1,
          unions_fix m.unions h.2,
          map-erase_disabled_fix (InterfaceGated enabled) (λ i. i.enable_if)
              (filter_interface enabled) m.interfaces filter_interface_fix h.3,
          erase_disabled_fix (λ c. c.enable_if) m.consts h.4,
          map-erase_disabled_fix (FeatureGated enabled) (λ f. f.enable_if) (filter_feature enabled)
              m.features filter_feature_fix h.5,
        )
        refl

-- ApplyEnableIf with the same features a second time changes nothing more.
pub apply_enable_if-idempotent :
    (enabled : List Bytes) (m : Module)
    → apply_enable_if enabled (apply_enable_if enabled m) ≡ apply_enable_if enabled m
apply_enable_if-idempotent enabled m =
    apply_enable_if_fix enabled (apply_enable_if enabled m) (apply_enable_if-Gated enabled m)
