-- ===== src/Loader/Idempotent.antt =====
-- NormalizePath on a path that it has written.
use voodoo.Prelude.{
  arith, ℕ, List, [], ◌∷◌, ◌++◌, Bool, true, false, ◌&&◌, ◌≡◌, refl, sym, ap, subst, ◌∙◌, inl, inr,
  ◌==◌, ==_eq, Bool-cases, if-false,
}
use voodoo.Prelude.Text.{Bytes}
use voodoo.Lexer.Chars.{is_alpha}
use voodoo.Loader.Paths.{
  unify, root_prefix, segments, push_segments, join_stack, or_dot, normalize_from, normalize_path,
}
use voodoo.Loader.Normal.{climbs, Bottom, Normal, true_ne_false, push_segments-join_stack}
use voodoo.Loader.Rooted.{
  unbacked, unify-unbacked, unify_fix, segments-All, push_segments-Normal, join_stack-unbacked,
  Prefix, written, Rooted, root_prefix-Rooted, absolute_root, drive_root, relative, absolute, drive,
  rooted,
}

-- A nonempty stack with its bottom apart.
abbrev behind : List Bytes → Bytes
behind [] = []
behind (seg ∷ stack) = b'/' ∷ join_stack (seg ∷ stack) []

join_stack-snoc_back :
    (seg : Bytes) (stack : List Bytes) (b back : Bytes)
    → join_stack (seg ∷ (stack ++ b ∷ [])) back ≡ b ++ b'/' ∷ join_stack (seg ∷ stack) back
join_stack-snoc_back seg [] b back = refl
join_stack-snoc_back seg (below ∷ stack) b back =
    join_stack-snoc_back below stack b (b'/' ∷ (seg ++ back))

join_stack-snoc :
    (stack : List Bytes) (b : Bytes) → join_stack (stack ++ b ∷ []) [] ≡ b ++ behind stack
join_stack-snoc [] b = refl
join_stack-snoc (seg ∷ stack) b = join_stack-snoc_back seg stack b []

Normal-bottom :
    (prefix : Bytes) (stack : List Bytes) (b : Bytes)
    → Normal prefix (stack ++ b ∷ [])
    → Normal prefix (b ∷ [])
Normal-bottom prefix [] b h = h
Normal-bottom prefix (seg ∷ stack) b h = Normal-bottom prefix stack b h.3

-- Above a bottom that is not "..", nothing is.
stays_above :
    (c : ℕ) (prefix : Bytes) (stack : List Bytes) (b : Bytes)
    → climbs b ≡ false
    → Normal (c ∷ prefix) stack
    → Bottom (stack ++ b ∷ [])
    → ⊥
stays_above c prefix [] b h n k = true_ne_false (sym k ∙ h)
stays_above c prefix (seg ∷ stack) b h n k = elim n.2 [
  | inl stays ↦ true_ne_false (sym k ∙ stays)
  | inr (e, below) ↦ true_ne_false (sym e)
]

Normal-above :
    (c : ℕ) (prefix : Bytes) (stack : List Bytes) (b : Bytes)
    → climbs b ≡ false
    → Normal [] (stack ++ b ∷ [])
    → Normal (c ∷ prefix) stack
Normal-above c prefix [] b h n = tt
Normal-above c prefix (seg ∷ stack) b h n =
    let above : Normal (c ∷ prefix) stack = Normal-above c prefix stack b h n.3 in
    (
      n.0,
      n.1,
      elim n.2 [
        | inl stays ↦ inl stays
        | inr (e, below) ↦ absurd (stays_above c prefix stack b h above below)
      ],
      above,
    )

-- A path without a prefix that looks as if it had none, or that looks as if it had a drive.
plain_fix :
    (stack : List Bytes)
    → Normal [] stack
    → root_prefix (join_stack stack []) ≡ ([], join_stack stack [])
    → normalize_from (root_prefix (join_stack stack [])) ≡ or_dot (join_stack stack [])
plain_fix stack h e =
    ap normalize_from e ∙ ap (λ st. or_dot (join_stack st [])) (push_segments-join_stack [] stack h)

rooted_fix :
    (prefix : Bytes) (stack : List Bytes)
    → Normal prefix stack
    → root_prefix (prefix ++ join_stack stack []) ≡ (prefix, join_stack stack [])
    → normalize_from (root_prefix (prefix ++ join_stack stack [])) ≡ written prefix stack
rooted_fix prefix stack h e =
    ap normalize_from e
    ∙ ap (λ st. or_dot (prefix ++ join_stack st [])) (push_segments-join_stack prefix stack h)

-- Whether a path that starts so has a drive for its prefix.
abbrev looks_drive : ℕ → Bytes → Bool
looks_drive x [] = false
looks_drive x (y ∷ []) = false
looks_drive x (y ∷ z ∷ s) = is_alpha x && (y == b':' && z == b'/')

looks_drive-slash : (x : ℕ) (s : Bytes) → looks_drive x (b'/' ∷ s) ≡ false
looks_drive-slash x [] = refl
looks_drive-slash x (z ∷ s) = ground arith

root_prefix-plain :
    (x : ℕ) (s : Bytes)
    → (x == b'/') ≡ false
    → looks_drive x s ≡ false
    → root_prefix (x ∷ s) ≡ ([], x ∷ s)
root_prefix-plain x [] h k = if-false _ _ h
root_prefix-plain x (y ∷ []) h k = if-false _ _ h
root_prefix-plain x (y ∷ z ∷ s) h k = if-false _ _ k ∙ if-false _ _ h

drive_fix :
    (seg : Bytes) (stack : List Bytes) (x y : ℕ)
    → Normal [] (seg ∷ (stack ++ (x ∷ y ∷ []) ∷ []))
    → is_alpha x ≡ true
    → y ≡ b':'
    → normalize_from (root_prefix (x ∷ y ∷ behind (seg ∷ stack))) ≡ x ∷ y ∷ behind (seg ∷ stack)
drive_fix seg stack x y h a e =
    subst
      (λ y.
        normalize_from (root_prefix (x ∷ y ∷ behind (seg ∷ stack))) ≡ x ∷ y ∷ behind (seg ∷ stack))
      (sym e)
      (rooted_fix (x ∷ b':' ∷ b'/' ∷ []) (seg ∷ stack)
        (Normal-above x (b':' ∷ b'/' ∷ []) (seg ∷ stack) (x ∷ b':' ∷ []) (ground arith)
          (subst (λ y. Normal [] (seg ∷ (stack ++ (x ∷ y ∷ []) ∷ []))) e h))
        (drive_root x (join_stack (seg ∷ stack) []) a))

-- A drive is found in front of a path only where the bottom of its stack is one.
looks_fix :
    (stack : List Bytes) (x : ℕ) (b : Bytes)
    → Normal [] (stack ++ (x ∷ b) ∷ [])
    → looks_drive x (b ++ behind stack) ≡ true
    → normalize_from (root_prefix (x ∷ (b ++ behind stack))) ≡ x ∷ (b ++ behind stack)
looks_fix [] x [] h k = absurd (true_ne_false (sym k))
looks_fix (seg ∷ stack) x [] h k =
    absurd (true_ne_false (sym k ∙ looks_drive-slash x (join_stack (seg ∷ stack) [])))
looks_fix [] x (y ∷ []) h k = absurd (true_ne_false (sym k))
looks_fix (seg ∷ stack) x (y ∷ []) h k =
    drive_fix seg stack x y h (ground (arith, k)) (==_eq y b':' (ground (arith, k)))
looks_fix stack x (y ∷ z ∷ b) h k =
    absurd (ground (arith, k, (Normal-bottom [] stack (x ∷ y ∷ z ∷ b) h).0))

relative_fix :
    (stack : List Bytes) (b : Bytes)
    → Normal [] (stack ++ b ∷ [])
    → normalize_from (root_prefix (or_dot (b ++ behind stack))) ≡ or_dot (b ++ behind stack)
relative_fix stack [] h = absurd (true_ne_false (Normal-bottom [] stack [] h).1)
relative_fix stack (x ∷ b) h = elim (Bool-cases (looks_drive x (b ++ behind stack))) [
  | inl e ↦ looks_fix stack x b h e
  | inr e ↦
      subst (λ j. root_prefix j ≡ ([], j) → normalize_from (root_prefix j) ≡ or_dot j)
        (join_stack-snoc stack (x ∷ b)) (plain_fix (stack ++ (x ∷ b) ∷ []) h)
        (root_prefix-plain x (b ++ behind stack)
          (ground (arith, (Normal-bottom [] stack (x ∷ b) h).0)) e)
]

-- The bottom of a stack, and what stands above it.
parted :
    (seg : Bytes) (stack : List Bytes)
    → (init : List Bytes) × (b : Bytes) × (seg ∷ stack ≡ init ++ b ∷ [])
parted seg [] = ([], seg, refl)
parted seg (below ∷ stack) =
    let (init, b, e) = parted below stack in (seg ∷ init, b, ap (λ st. seg ∷ st) e)

written_fix :
    {prefix : Bytes} (stack : List Bytes)
    → Prefix prefix
    → Normal prefix stack
    → normalize_from (root_prefix (written prefix stack)) ≡ written prefix stack
written_fix stack absolute h = rooted_fix (b'/' ∷ []) stack h (absolute_root (join_stack stack []))
written_fix stack (drive a e) h =
    rooted_fix (a ∷ b':' ∷ b'/' ∷ []) stack h (drive_root a (join_stack stack []) e)
written_fix [] relative h = refl
written_fix (seg ∷ stack) relative h =
    let (init, b, e) = parted seg stack in
    subst (λ st. normalize_from (root_prefix (written [] st)) ≡ written [] st) (sym e)
      (subst (λ j. normalize_from (root_prefix (or_dot j)) ≡ or_dot j)
        (sym (join_stack-snoc init b)) (relative_fix init b (subst (Normal []) e h)))

written-unbacked :
    {prefix : Bytes} (stack : List Bytes)
    → Prefix prefix
    → Normal prefix stack
    → unbacked (written prefix stack) ≡ true
written-unbacked stack absolute h = join_stack-unbacked (b'/' ∷ []) stack [] h refl
written-unbacked stack (drive a e) h =
    ground (arith, e, join_stack-unbacked (a ∷ b':' ∷ b'/' ∷ []) stack [] h refl)
written-unbacked stack relative h =
    or_dot-unbacked (join_stack stack []) (join_stack-unbacked [] stack [] h refl)
  where
    or_dot-unbacked : (s : Bytes) → unbacked s ≡ true → unbacked (or_dot s) ≡ true
    or_dot-unbacked [] k = refl
    or_dot-unbacked (c ∷ s) k = k

normalize_from_fix :
    (r : Bytes × Bytes) → Rooted r → normalize_path (normalize_from r) ≡ normalize_from r
unfolding normalize_path
normalize_from_fix _ (rooted {prefix} {rest} p u) =
    let n : Normal prefix (push_segments prefix [] (segments rest)) =
      push_segments-Normal prefix [] (segments rest) (segments-All rest u) tt in
    ap (λ s. normalize_from (root_prefix s))
      (unify_fix (written prefix (push_segments prefix [] (segments rest)))
        (written-unbacked (push_segments prefix [] (segments rest)) p n))
    ∙ written_fix (push_segments prefix [] (segments rest)) p n

-- NormalizePath of a path that it has written is that path.
pub normalize_path-idempotent :
    (path : Bytes) → normalize_path (normalize_path path) ≡ normalize_path path
unfolding normalize_path
normalize_path-idempotent path =
    normalize_from_fix (root_prefix (unify path))
      (root_prefix-Rooted (unify path) (unify-unbacked path))
