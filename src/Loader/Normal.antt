-- ===== src/Loader/Normal.antt =====
-- The stack of NormalizePath, and paths that it has written.
use voodoo.Prelude.{
  arith, List, [], ◌∷◌, ◌++◌, Bool, true, false, not, ◌&&◌, ◌||◌, ◌≡◌, refl, sym, ap, ◌∙◌, ◌⊎◌, inl,
  inr, is_empty, ◌==◌, if◌then◌else◌, Bool-cases, if-true, if-false, append-nil,
}
use voodoo.Prelude.Text.{Bytes, codes, same_text, same_text_eq}
use voodoo.Loader.Paths.{is_slash, onto_first, segments, push_segment, push_segments, join_stack}

abbrev pub unslashed : Bytes → Bool
unslashed [] = true
unslashed (c ∷ s) = not (is_slash c) && unslashed s

abbrev pub skipped : Bytes → Bool
skipped seg = is_empty seg || same_text seg (codes ".")

abbrev pub climbs : Bytes → Bool
climbs seg = same_text seg (codes "..")

abbrev pub Bottom : List Bytes → Type 0
Bottom [] = Unit
Bottom (top ∷ stack) = climbs top ≡ true

-- A stack of segments that are neither empty nor "."; ".." stands below others only, and only where
-- there is no prefix.
abbrev pub Normal : Bytes → List Bytes → Type 0
Normal prefix [] = Unit
Normal prefix (seg ∷ stack) =
    (unslashed seg ≡ true)
    × (skipped seg ≡ false)
    × ((climbs seg ≡ false) ⊎ ((is_empty prefix ≡ true) × Bottom stack))
    × Normal prefix stack

pub true_ne_false : true ≡ false → ⊥
true_ne_false x = cc

Normal-if :
    (prefix : Bytes) (b : Bool) (x y : List Bytes)
    → (b ≡ true → Normal prefix x)
    → (b ≡ false → Normal prefix y)
    → Normal prefix (if b then x else y)
Normal-if prefix true x y f g = f refl
Normal-if prefix false x y f g = g refl

pub push_segment-Normal :
    (prefix : Bytes) (stack : List Bytes) (seg : Bytes)
    → unslashed seg ≡ true
    → Normal prefix stack
    → Normal prefix (push_segment prefix stack seg)
push_segment-Normal prefix [] seg u h =
    Normal-if prefix (skipped seg) _ _ (λ e. tt)
      λ e.
        Normal-if prefix (climbs seg) _ _
          (λ e'.
            Normal-if prefix (is_empty prefix) _ _ (λ p. (refl, refl, inr (p, tt), tt)) (λ p. tt))
          (λ e'. (u, e, inl e', tt))
push_segment-Normal prefix (top ∷ stack) seg u h =
    Normal-if prefix (skipped seg) _ _ (λ e. h)
      λ e.
        Normal-if prefix (climbs seg) _ _
          (λ e'.
            Normal-if prefix (climbs top) _ _
              (λ t.
                Normal-if prefix (is_empty prefix) _ _ (λ p. (refl, refl, inr (p, t), h)) (λ p. h))
              (λ t. h.3))
          (λ e'. (u, e, inl e', h))

-- The top of a normal stack is pushed onto the rest of it as it is.
push_segment-own :
    (prefix : Bytes) (stack : List Bytes) (seg : Bytes)
    → Normal prefix (seg ∷ stack)
    → push_segment prefix stack seg ≡ seg ∷ stack
push_segment-own prefix [] seg h = if-false _ _ h.1 ∙ elim (Bool-cases (climbs seg)) [
  | inr e ↦ if-false _ _ e
  | inl e ↦ elim h.2 [
    | inl stays ↦ absurd (true_ne_false (sym e ∙ stays))
    | inr (p, b) ↦
        if-true _ _ e ∙ if-true _ _ p ∙ ap (λ s. s ∷ []) (sym (same_text_eq seg (codes "..") e))
  ]
]
push_segment-own prefix (top ∷ stack) seg h = if-false _ _ h.1 ∙ elim (Bool-cases (climbs seg)) [
  | inr e ↦ if-false _ _ e
  | inl e ↦ elim h.2 [
    | inl stays ↦ absurd (true_ne_false (sym e ∙ stays))
    | inr (p, b) ↦
        if-true _ _ e
        ∙ if-true _ _ b
        ∙ if-true _ _ p
        ∙ ap (λ s. s ∷ top ∷ stack) (sym (same_text_eq seg (codes "..") e))
  ]
]

segments-slash :
    (seg s : Bytes) → unslashed seg ≡ true → segments (seg ++ b'/' ∷ s) ≡ seg ∷ segments s
segments-slash [] s h = refl
segments-slash (c ∷ seg) s h =
    if-false {b = c == b'/'} _ _ (ground (arith, h))
    ∙ ap (onto_first c) (segments-slash seg s (ground (arith, h)))

segments-unslashed : (seg : Bytes) → unslashed seg ≡ true → segments seg ≡ seg ∷ []
segments-unslashed [] h = refl
segments-unslashed (c ∷ seg) h =
    if-false {b = c == b'/'} _ _ (ground (arith, h))
    ∙ ap (onto_first c) (segments-unslashed seg (ground (arith, h)))

-- The stack from front to back, in front of segments.
abbrev pub unwind : List Bytes → List Bytes → List Bytes
unwind [] segs = segs
unwind (seg ∷ stack) segs = unwind stack (seg ∷ segs)

segments-join_stack_back :
    (prefix seg : Bytes) (stack : List Bytes) (back : Bytes)
    → Normal prefix (seg ∷ stack)
    → segments (join_stack (seg ∷ stack) back) ≡ unwind stack (segments (seg ++ back))
segments-join_stack_back prefix seg [] back h = refl
segments-join_stack_back prefix seg (below ∷ stack) back h =
    segments-join_stack_back prefix below stack (b'/' ∷ (seg ++ back)) h.3
    ∙ ap (unwind stack) (segments-slash below (seg ++ back) h.3.0)

push_segments-unwind :
    (prefix : Bytes) (stack segs : List Bytes)
    → Normal prefix stack
    → push_segments prefix [] (unwind stack segs) ≡ push_segments prefix stack segs
push_segments-unwind prefix [] segs h = refl
push_segments-unwind prefix (seg ∷ stack) segs h =
    push_segments-unwind prefix stack (seg ∷ segs) h.3
    ∙ ap (λ st. push_segments prefix st segs) (push_segment-own prefix stack seg h)

segments-join_stack :
    (prefix seg : Bytes) (stack : List Bytes)
    → Normal prefix (seg ∷ stack)
    → segments (join_stack (seg ∷ stack) []) ≡ unwind (seg ∷ stack) []
segments-join_stack prefix seg stack h =
    segments-join_stack_back prefix seg stack [] h
    ∙ ap (λ s. unwind stack (segments s)) (append-nil seg)
    ∙ ap (unwind stack) (segments-unslashed seg h.0)

-- What a normal stack is written as is read as that stack.
pub push_segments-join_stack :
    (prefix : Bytes) (stack : List Bytes)
    → Normal prefix stack
    → push_segments prefix [] (segments (join_stack stack [])) ≡ stack
push_segments-join_stack prefix [] h = refl
push_segments-join_stack prefix (seg ∷ stack) h =
    ap (push_segments prefix []) (segments-join_stack prefix seg stack h)
    ∙ push_segments-unwind prefix (seg ∷ stack) [] h
