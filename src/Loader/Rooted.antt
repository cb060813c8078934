-- ===== src/Loader/Rooted.antt =====
-- The prefixes of paths, and the characters that NormalizePath leaves.
use voodoo.Prelude.{
  arith, ℕ, List, [], ◌∷◌, ◌++◌, Bool, true, false, not, ◌&&◌, ◌≡◌, refl, sym, ap₂, subst, inl, inr,
  ◌==◌, ==_eq, if◌then◌else◌, Bool-cases, if-true, if-false, All,
}
use voodoo.Prelude.Text.{Bytes}
use voodoo.Lexer.Chars.{is_alpha}
use voodoo.Loader.Paths.{
  is_slash, onto_first, unify, root_prefix, segments, push_segment, push_segments, join_stack,
  or_dot,
}
use voodoo.Loader.Normal.{unslashed, Normal, push_segment-Normal}

-- No backslash.
abbrev pub unbacked : Bytes → Bool
unbacked [] = true
unbacked (c ∷ s) = not (c == b'\\') && unbacked s

pub unify-unbacked : (s : Bytes) → unbacked (unify s) ≡ true
unify-unbacked [] = refl
unify-unbacked (c ∷ s) = ground (arith, unify-unbacked s)

pub unify_fix : (s : Bytes) → unbacked s ≡ true → unify s ≡ s
unify_fix [] h = refl
unify_fix (c ∷ s) h =
    ap₂ (λ x xs. x ∷ xs) (if-false {b = c == b'\\'} _ _ (ground (arith, h)))
      (unify_fix s (ground (arith, h)))

unbacked-append : (s t : Bytes) → unbacked s ≡ true → unbacked t ≡ true → unbacked (s ++ t) ≡ true
unbacked-append [] t h k = k
unbacked-append (c ∷ s) t h k = ground (arith, h, unbacked-append s t (ground (arith, h)) k)

unslashed-unbacked : (s : Bytes) → unslashed s ≡ true → unbacked s ≡ true
unslashed-unbacked [] h = refl
unslashed-unbacked (c ∷ s) h = ground (arith, h, unslashed-unbacked s (ground (arith, h)))

onto_first-All :
    (c : ℕ) (segs : List Bytes)
    → is_slash c ≡ false
    → All (λ seg. unslashed seg ≡ true) segs
    → All (λ seg. unslashed seg ≡ true) (onto_first c segs)
onto_first-All c [] h k = (ground (arith, h), tt)
onto_first-All c (seg ∷ segs) h k = (ground (arith, h, k.0), k.1)

pub segments-All : (s : Bytes) → unbacked s ≡ true → All (λ seg. unslashed seg ≡ true) (segments s)
segments-All [] h = (refl, tt)
segments-All (c ∷ s) h = elim (Bool-cases (c == b'/')) [
  | inl e ↦
      subst (All (λ seg. unslashed seg ≡ true)) (sym (if-true _ _ e))
        (refl, segments-All s (ground (arith, h)))
  | inr e ↦
      subst (All (λ seg. unslashed seg ≡ true)) (sym (if-false _ _ e))
        (onto_first-All c (segments s) (ground (arith, h, e)) (segments-All s (ground (arith, h))))
]

pub push_segments-Normal :
    (prefix : Bytes) (stack segs : List Bytes)
    → All (λ seg. unslashed seg ≡ true) segs
    → Normal prefix stack
    → Normal prefix (push_segments prefix stack segs)
push_segments-Normal prefix stack [] h k = k
push_segments-Normal prefix stack (seg ∷ segs) h k =
    push_segments-Normal prefix (push_segment prefix stack seg) segs h.1
      (push_segment-Normal prefix stack seg h.0 k)

pub join_stack-unbacked :
    (prefix : Bytes) (stack : List Bytes) (back : Bytes)
    → Normal prefix stack
    → unbacked back ≡ true
    → unbacked (join_stack stack back) ≡ true
join_stack-unbacked prefix [] back h k = k
join_stack-unbacked prefix (seg ∷ []) back h k =
    unbacked-append seg back (unslashed-unbacked seg h.0) k
join_stack-unbacked prefix (seg ∷ below ∷ stack) back h k =
    join_stack-unbacked prefix (below ∷ stack) (b'/' ∷ (seg ++ back)) h.3
      (unbacked-append seg back (unslashed-unbacked seg h.0) k)

-- The prefixes that there are.
pub data Prefix : Bytes → Type 0 where
  relative : Prefix []
  absolute : Prefix (b'/' ∷ [])
  drive : (a : ℕ) → is_alpha a ≡ true → Prefix (a ∷ b':' ∷ b'/' ∷ [])

-- A path as NormalizePath writes it.
abbrev pub written : Bytes → List Bytes → Bytes
written prefix stack = or_dot (prefix ++ join_stack stack [])

-- What root_prefix gives.
pub data Rooted : Bytes × Bytes → Type 0 where
  rooted : {prefix rest : Bytes} → Prefix prefix → unbacked rest ≡ true → Rooted (prefix, rest)

Rooted-if :
    (b : Bool) (x y : Bytes × Bytes)
    → (b ≡ true → Rooted x)
    → (b ≡ false → Rooted y)
    → Rooted (if b then x else y)
Rooted-if true x y f g = f refl
Rooted-if false x y f g = g refl

slash_or :
    (a : ℕ) (s : Bytes)
    → unbacked (a ∷ s) ≡ true
    → Rooted (if a == b'/' then (a ∷ [], s) else ([], a ∷ s))
slash_or a s h =
    Rooted-if (a == b'/') _ _
      (λ e.
        subst (λ x. Rooted (x ∷ [], s)) (sym (==_eq a b'/' e))
          (rooted absolute (ground (arith, h))))
      (λ e. rooted relative h)

pub root_prefix-Rooted : (s : Bytes) → unbacked s ≡ true → Rooted (root_prefix s)
root_prefix-Rooted [] h = rooted relative refl
root_prefix-Rooted (a ∷ []) h = slash_or a [] h
root_prefix-Rooted (a ∷ b ∷ []) h = slash_or a (b ∷ []) h
root_prefix-Rooted (a ∷ b ∷ c ∷ s) h =
    Rooted-if (is_alpha a && (b == b':' && c == b'/')) _ _
      (λ e.
        subst (λ x. Rooted (a ∷ x ∷ c ∷ [], s)) (sym (==_eq b b':' (ground (arith, e))))
          (subst (λ x. Rooted (a ∷ b':' ∷ x ∷ [], s)) (sym (==_eq c b'/' (ground (arith, e))))
            (rooted (drive a (ground (arith, e))) (ground (arith, h)))))
      (λ e. slash_or a (b ∷ c ∷ s) h)

pub absolute_root : (s : Bytes) → root_prefix (b'/' ∷ s) ≡ (b'/' ∷ [], s)
absolute_root [] = refl
absolute_root (a ∷ []) = refl
absolute_root (a ∷ b ∷ s) = refl

pub drive_root :
    (a : ℕ) (s : Bytes)
    → is_alpha a ≡ true
    → root_prefix (a ∷ b':' ∷ b'/' ∷ s) ≡ (a ∷ b':' ∷ b'/' ∷ [], s)
drive_root a s h = if-true {b = is_alpha a && true} _ _ (ground (arith, h))
