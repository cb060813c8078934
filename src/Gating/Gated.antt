-- ===== src/Gating/Gated.antt =====
-- What ApplyEnableIf leaves.
use voodoo.Prelude.{
  List, [], ◌∷◌, Bool, false, not, ◌≡◌, refl, sym, ap, subst, map, is_empty, remove_if, All,
  Bool-cases, inl, inr, if-true, if-false,
}
use voodoo.Prelude.Text.{Bytes}
use voodoo.Ast.{EnableIf, EnumDecl, StructDecl, UnionDecl, Interface, FeatureDecl, Module}
use voodoo.Gating.Clauses.{Kept, enabled-Kept, IsGreatest, max_version-IsGreatest}
use voodoo.Gating.{
  is_decl_enabled, erase_disabled, filter_enum, filter_struct, filter_union, filter_unions,
  filter_interface, filter_feature, apply_enable_if,
}

-- The elements that a filter leaves, each changed by a function whose results are good.
map-All {ℓ κ ι} :
    {A : Type ℓ} {B : Type κ} (P : B → Type ι) (f : A → B) (xs : List A)
    → ((x : A) → P (f x))
    → All P (map f xs)
map-All P f [] h = tt
map-All P f (x ∷ xs) h = (h x, map-All P f xs h)

remove_if-All {ℓ ι} :
    {A : Type ℓ} (P : A → Type ι) (p : A → Bool) (xs : List A)
    → All P xs
    → All (λ x. P x × (p x ≡ false)) (remove_if p xs)
remove_if-All P p [] h = tt
remove_if-All P p (x ∷ xs) h = elim (Bool-cases (p x)) [
  | inl e ↦ subst (All _) (sym (if-true _ _ e)) (remove_if-All P p xs h.1)
  | inr e ↦ subst (All _) (sym (if-false _ _ e)) ((h.0, e), remove_if-All P p xs h.1)
]

module _ (enabled : List Bytes) where
  abbrev pub EnumGated : EnumDecl → Type 0
  EnumGated e = All (λ v. Kept enabled v.enable_if) e.values

  abbrev pub StructGated : StructDecl → Type 0
  StructGated s =
      All (λ f. Kept enabled f.enable_if) s.fields
      × All (λ e. Kept enabled e.enable_if × EnumGated e) s.enums
      × All (λ c. Kept enabled c.enable_if) s.consts
      × IsGreatest s.version (map (λ f. f.min_version) s.fields)

  abbrev pub UnionGated : UnionDecl → Type 0
  UnionGated u =
      All (λ f. Kept enabled f.enable_if) u.fields
      × IsGreatest u.version (map (λ f. f.min_version) u.fields)

  abbrev pub UnionKept : UnionDecl → Type 0
  UnionKept u = (Kept enabled u.enable_if × UnionGated u) × (is_empty u.fields ≡ false)

  abbrev pub InterfaceGated : Interface → Type 0
  InterfaceGated i =
      All (λ m. Kept enabled m.enable_if) i.methods
      × All (λ e. Kept enabled e.enable_if × EnumGated e) i.enums
      × All (λ c. Kept enabled c.enable_if) i.consts
      × All (λ s. Kept enabled s.enable_if × StructGated s) i.structs
      × All UnionKept i.unions
      × IsGreatest i.version (map (λ m. m.min_version) i.methods)

  abbrev pub FeatureGated : FeatureDecl → Type 0
  FeatureGated f = All (λ c. Kept enabled c.enable_if) f.consts

  -- Every type, feature, field, enum value, method and constant of the module, nested ones
  -- included, is one that the features enable; each version is the greatest `min_version` left; and
  -- no union is without fields.
  abbrev pub ModuleGated : Module → Type 0
  ModuleGated m =
      All (λ e. Kept enabled e.enable_if × EnumGated e) m.enums
      × All (λ s. Kept enabled s.enable_if × StructGated s) m.structs
      × All UnionKept m.unions
      × All (λ i. Kept enabled i.enable_if × InterfaceGated i) m.interfaces
      × All (λ c. Kept enabled c.enable_if) m.consts
      × All (λ f. Kept enabled f.enable_if × FeatureGated f) m.features

  erase_disabled-Kept {ℓ} :
      {T : Type ℓ} (f : T → EnableIf) (xs : List T)
      → All (λ x. Kept enabled (f x)) (erase_disabled f enabled xs)
  erase_disabled-Kept f [] = tt
  erase_disabled-Kept f (x ∷ xs) = elim (Bool-cases (is_decl_enabled (f x) enabled)) [
    | inl e ↦
        subst (All _) (sym (if-false _ _ (ap not e)))
          (enabled-Kept enabled (f x) e, erase_disabled-Kept f xs)
    | inr e ↦ subst (All _) (sym (if-true _ _ (ap not e))) (erase_disabled-Kept f xs)
  ]

  -- Declarations kept and then filtered by a function that leaves their clauses as they are.
  map-erase_disabled {ℓ κ} :
      {T : Type ℓ} (P : T → Type κ) (f : T → EnableIf) (g : T → T) (xs : List T)
      → ((x : T) → f (g x) ≡ f x)
      → ((x : T) → P (g x))
      → All (λ x. Kept enabled (f x) × P x) (map g (erase_disabled f enabled xs))
  map-erase_disabled P f g [] h k = tt
  map-erase_disabled P f g (x ∷ xs) h k = elim (Bool-cases (is_decl_enabled (f x) enabled)) [
    | inl e ↦
        subst (λ ys. All (λ x. Kept enabled (f x) × P x) (map g ys)) (sym (if-false _ _ (ap not e)))
          (
            (subst (Kept enabled) (sym (h x)) (enabled-Kept enabled (f x) e), k x),
            map-erase_disabled P f g xs h k,
          )
    | inr e ↦
        subst (λ ys. All (λ x. Kept enabled (f x) × P x) (map g ys)) (sym (if-true _ _ (ap not e)))
          (map-erase_disabled P f g xs h k)
  ]

  filter_enum-Gated : (e : EnumDecl) → EnumGated (filter_enum enabled e)
  filter_enum-Gated e = erase_disabled-Kept (λ v. v.enable_if) e.values

  enums-Gated :
      (es : List EnumDecl)
      → All
          (λ e. Kept enabled e.enable_if × EnumGated e)
          (map (filter_enum enabled) (erase_disabled (λ e. e.enable_if) enabled es))
  enums-Gated es =
      map-erase_disabled EnumGated (λ e. e.enable_if) (filter_enum enabled) es (λ e. refl)
        filter_enum-Gated

  filter_struct-Gated : (s : StructDecl) → StructGated (filter_struct enabled s)
  filter_struct-Gated s = (
    erase_disabled-Kept (λ f. f.enable_if) s.fields,
    enums-Gated s.enums,
    erase_disabled-Kept (λ c. c.enable_if) s.consts,
    max_version-IsGreatest _,
  )

  structs-Gated :
      (ss : List StructDecl)
      → All
          (λ s. Kept enabled s.enable_if × StructGated s)
          (map (filter_struct enabled) (erase_disabled (λ s. s.enable_if) enabled ss))
  structs-Gated ss =
      map-erase_disabled StructGated (λ s. s.enable_if) (filter_struct enabled) ss (λ s. refl)
        filter_struct-Gated

  filter_union-Gated : (u : UnionDecl) → UnionGated (filter_union enabled u)
  filter_union-Gated u = (erase_disabled-Kept (λ f. f.enable_if) u.fields, max_version-IsGreatest _)

  unions-Gated : (us : List UnionDecl) → All UnionKept (filter_unions enabled us)
  unions-Gated us =
      remove_if-All (λ u. Kept enabled u.enable_if × UnionGated u) (λ u. is_empty u.fields) _
        (map-erase_disabled UnionGated (λ u. u.enable_if) (filter_union enabled) us (λ u. refl)
          filter_union-Gated)

  filter_interface-Gated : (i : Interface) → InterfaceGated (filter_interface enabled i)
  filter_interface-Gated i = (
    erase_disabled-Kept (λ m. m.enable_if) i.methods,
    enums-Gated i.enums,
    erase_disabled-Kept (λ c. c.enable_if) i.consts,
    structs-Gated i.structs,
    unions-Gated i.unions,
    max_version-IsGreatest _,
  )

  filter_feature-Gated : (f : FeatureDecl) → FeatureGated (filter_feature enabled f)
  filter_feature-Gated f = erase_disabled-Kept (λ c. c.enable_if) f.consts

  -- After ApplyEnableIf, every type, feature, field, enum value, method and constant of the module,
  -- nested ones included but not the parameters of methods, has an `EnableIf` that the features meet
  -- and an `EnableIfNot` that they do not; each version of a struct, union or interface is the
  -- greatest `min_version` of the fields or methods left; and no union is without fields.
  pub apply_enable_if-Gated : (m : Module) → ModuleGated (apply_enable_if enabled m)
  unfolding apply_enable_if
  apply_enable_if-Gated m = (
    enums-Gated m.enums,
    structs-Gated m.structs,
    unions-Gated m.unions,
    map-erase_disabled InterfaceGated (λ i. i.enable_if) (filter_interface enabled) m.interfaces
        (λ i. refl) filter_interface-Gated,
    erase_disabled-Kept (λ c. c.enable_if) m.consts,
    map-erase_disabled FeatureGated (λ f. f.enable_if) (filter_feature enabled) m.features
        (λ f. refl) filter_feature-Gated,
  )
