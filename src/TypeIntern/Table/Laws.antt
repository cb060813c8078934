-- ===== src/TypeIntern/Table/Laws.antt =====
-- Interning is a bijection between the keys and their ids.
use voodoo.Prelude.{
  ℕ, suc, ◌+◌, ◌-◌, ◌%◌, ◌^◌, ◌<◌, ◌≡◌, refl, sym, ap, subst, ◌∙◌, inl, inr, [], ◌∷◌, ◌++◌, true,
  false, ◌||◌, none, some, ltb, ◌==◌, length, get_or, arith, Bool-cases, Option-cases, if-true,
  if-false, length-append, ==_refl, ==_ne, ◌≢◌,
}
use voodoo.Prelude.Text.{Bytes, same_text, same_text_refl, same_text_eq}
use voodoo.TypeIntern.Table.{TypeIntern, empty_intern, find_key, intern_key, key_of, identical}
use voodoo.TypeIntern.Table.Position.{
  position, Stands, position-Stands, or_last, or_last-false, position-append,
}

-- The map and the list agree, and ids fit 32 bits.
pub record IsIntern (s : TypeIntern) : Type 0 where
  pub linked : (k : Bytes) → find_key k s.by_key ≡ position k s.keys 1
  pub small : length s.keys < 2 ^ 32

pub empty_intern-IsIntern : IsIntern empty_intern
empty_intern-IsIntern = record { linked = λ k. refl; small = omega arith }

-- The table with a key added under an id.
abbrev added : Bytes → TypeIntern → ℕ → ℕ × TypeIntern
added k s id = (id, record { by_key = (k, id) ∷ s.by_key; keys = s.keys ++ k ∷ [] })

-- The two outcomes of InternKey.
data Interned (k : Bytes) (s : TypeIntern) (out : ℕ × TypeIntern) : Type 0 where
  old : (p : ℕ) → position k s.keys 1 ≡ some p → out ≡ (p, s) → Interned k s out
  new : position k s.keys 1 ≡ none → out ≡ added k s (suc (length s.keys)) → Interned k s out

Interned-intern_key :
    (k : Bytes) (s : TypeIntern)
    → IsIntern s
    → suc (length s.keys) < 2 ^ 32
    → Interned k s (intern_key k s)
unfolding intern_key
Interned-intern_key k s v r = elim (Option-cases (find_key k s.by_key)) [
  | inl n ↦
      let w : (length s.keys + 1) % 2 ^ 32 ≡ suc (length s.keys) = omega arith in
      new (sym (v.linked k) ∙ n) (rw (n, intern_key) (ap (added k s) w))
  | inr (p, n) ↦ old p (sym (v.linked k) ∙ n) (rw (n, intern_key) refl)
]

position_last :
    (k : Bytes) (s : TypeIntern)
    → position k s.keys 1 ≡ none
    → position k (s.keys ++ k ∷ []) 1 ≡ some (suc (length s.keys))
position_last k s e =
    let w : 1 + length s.keys ≡ suc (length s.keys) = omega arith in
    position-append k k s.keys 1
    ∙ ap (λ o. or_last o (same_text k k) (1 + length s.keys)) e
    ∙ if-true _ _ (same_text_refl k)
    ∙ ap some w

Interned-position :
    (k : Bytes) (s : TypeIntern) (out : ℕ × TypeIntern)
    → Interned k s out
    → position k out.1.keys 1 ≡ some out.0
Interned-position k s out (old p e f) =
    ap (λ o. position k o.1.keys 1) f ∙ e ∙ ap (λ o. some o.0) (sym f)
Interned-position k s out (new e f) =
    ap (λ o. position k o.1.keys 1) f ∙ position_last k s e ∙ ap (λ o. some o.0) (sym f)

linked-added :
    (k : Bytes) (s : TypeIntern)
    → IsIntern s
    → position k s.keys 1 ≡ none
    → (j : Bytes)
    → find_key j ((k, suc (length s.keys)) ∷ s.by_key) ≡ position j (s.keys ++ k ∷ []) 1
linked-added k s v e j = elim (Bool-cases (same_text k j)) [
  | inl h ↦
      if-true _ _ h
      ∙ sym (position_last k s e)
      ∙ ap (λ x. position x (s.keys ++ k ∷ []) 1) (same_text_eq k j h)
  | inr h ↦
      if-false _ _ h
      ∙ v.linked j
      ∙ sym (
          position-append j k s.keys 1
          ∙ or_last-false (position j s.keys 1) (same_text k j) (1 + length s.keys) h)
]

Interned-room :
    (k : Bytes) (s : TypeIntern) (out : ℕ × TypeIntern)
    → suc (suc (length s.keys)) < 2 ^ 32
    → Interned k s out
    → suc (length out.1.keys) < 2 ^ 32
Interned-room k s out r (old p e f) =
    subst (λ o. suc (length o.1.keys) < 2 ^ 32) (sym f) (omega arith)
Interned-room k s out r (new e f) =
    subst (λ o. suc (length o.1.keys) < 2 ^ 32) (sym f)
      (omega (arith, length-append s.keys (k ∷ [])))

Interned-IsIntern :
    (k : Bytes) (s : TypeIntern) (out : ℕ × TypeIntern)
    → IsIntern s
    → suc (length s.keys) < 2 ^ 32
    → Interned k s out
    → IsIntern out.1
Interned-IsIntern k s out v r (old p e f) = subst (λ o. IsIntern o.1) (sym f) v
Interned-IsIntern k s out v r (new e f) =
    subst (λ o. IsIntern o.1) (sym f)
      (record {
        linked = linked-added k s v e;
        small = omega (arith, length-append s.keys (k ∷ []));
      })

key_of-Stands : (k : Bytes) (s : TypeIntern) (p : ℕ) → Stands k s.keys 1 p → key_of p s ≡ k
unfolding key_of
key_of-Stands k s p st =
    let inside : (p == 0 || ltb (length s.keys) p) ≡ false = ground (arith, st.above, st.below) in
    if-false _ _ inside ∙ st.there

-- While ids last, InternKey keeps the map and the list of a table in agreement.
pub intern_key-IsIntern :
    (k : Bytes) (s : TypeIntern)
    → IsIntern s
    → suc (length s.keys) < 2 ^ 32
    → IsIntern (intern_key k s).1
intern_key-IsIntern k s v r = Interned-IsIntern k s _ v r (Interned-intern_key k s v r)

-- While ids last, Key of the id that InternKey returns is the key that was interned.
pub key_of-intern_key :
    (k : Bytes) (s : TypeIntern)
    → IsIntern s
    → suc (length s.keys) < 2 ^ 32
    → key_of (intern_key k s).0 (intern_key k s).1 ≡ k
key_of-intern_key k s v r =
    key_of-Stands k (intern_key k s).1 (intern_key k s).0
      (position-Stands k _ 1 _ (Interned-position k s _ (Interned-intern_key k s v r)))

same_some : (i p : ℕ) → some i ≡ some p → i ≡ p
same_some i p e = cc

-- Two keys that stand in a table stand apart.
apart :
    (a b : Bytes) (s : TypeIntern) (i p : ℕ)
    → position a s.keys 1 ≡ some i
    → position b s.keys 1 ≡ some p
    → same_text a b ≡ false
    → i ≢ p
apart a b s i p e f h q =
    let one : a ≡ b =
      sym (position-Stands a s.keys 1 i e).there
      ∙ ap (λ n. get_or s.keys (n - 1) []) q
      ∙ (position-Stands b s.keys 1 p f).there in
    let t : true ≡ false = sym (same_text_refl a) ∙ ap (same_text a) one ∙ h in cc

intern_key-found :
    (k : Bytes) (s : TypeIntern) (id : ℕ) → find_key k s.by_key ≡ some id → intern_key k s ≡ (id, s)
unfolding intern_key
intern_key-found k s id e = rw (e, intern_key) refl

-- The id of one key in a table, and what the next key gets.
next_id :
    (a b : Bytes) (s : TypeIntern) (i : ℕ) (out : ℕ × TypeIntern)
    → position a s.keys 1 ≡ some i
    → Interned b s out
    → identical i out.0 ≡ same_text a b
unfolding identical
next_id a b s i out e (old p f g) = elim (Bool-cases (same_text a b)) [
  | inl h ↦
      let q : i ≡ p =
        same_some i p (sym e ∙ ap (λ k. position k s.keys 1) (same_text_eq a b h) ∙ f) in
      ap (λ o. i == o.0) g ∙ ap (λ n. i == n) (sym q) ∙ ==_refl i ∙ sym h
  | inr h ↦ ap (λ o. i == o.0) g ∙ ==_ne i p (apart a b s i p e f h) ∙ sym h
]
next_id a b s i out e (new f g) = elim (Bool-cases (same_text a b)) [
  | inl h ↦
      let q : some i ≡ none = sym e ∙ ap (λ k. position k s.keys 1) (same_text_eq a b h) ∙ f in cc
  | inr h ↦
      let below : i < 1 + length s.keys = (position-Stands a s.keys 1 i e).below in
      ap (λ o. i == o.0) g ∙ ground arith ∙ sym h
]

-- Of two keys interned one after the other, while ids last, the ids are Identical exactly where the
-- keys are equal.
pub identical-intern_key :
    (a b : Bytes) (s : TypeIntern)
    → IsIntern s
    → suc (suc (length s.keys)) < 2 ^ 32
    → identical (intern_key a s).0 (intern_key b (intern_key a s).1).0 ≡ same_text a b
identical-intern_key a b s v r =
    let first : Interned a s (intern_key a s) = Interned-intern_key a s v (omega arith) in
    let w : IsIntern (intern_key a s).1 = Interned-IsIntern a s _ v (omega arith) first in
    next_id a b (intern_key a s).1 (intern_key a s).0 _ (Interned-position a s _ first)
      (Interned-intern_key b (intern_key a s).1 w (Interned-room a s _ r first))

-- While ids last, interning a key again right after it was interned returns the same id and changes
-- nothing.
pub intern_key-intern_key :
    (k : Bytes) (s : TypeIntern)
    → IsIntern s
    → suc (length s.keys) < 2 ^ 32
    → intern_key k (intern_key k s).1 ≡ intern_key k s
intern_key-intern_key k s v r =
    let first : Interned k s (intern_key k s) = Interned-intern_key k s v r in
    intern_key-found k (intern_key k s).1 (intern_key k s).0
      ((Interned-IsIntern k s _ v r first).linked k ∙ Interned-position k s _ first)
