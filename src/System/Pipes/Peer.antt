-- ===== src/System/Pipes/Peer.antt =====
-- The loop of WhpFuseMessagePipes that looks for the far end of a pipe.
use voodoo.Prelude.{
  ℕ, suc, ◌+◌, ◌≡◌, ◌≢◌, refl, sym, ap, subst, ◌∙◌, ◌⊎◌, inl, inr, List, [], ◌∷◌, true, Option,
  none, some, arith, get_or, if◌then◌else◌, if-true, if-false, Bool-cases,
}
use voodoo.System.Types.{Core, Slot, free, PipeEnd}
use voodoo.System.Table.{lookup}
use voodoo.System.Table.Free.{lookup-get_or}
use voodoo.System.Pipes.{pipe_of, is_peer, takes, find_peer}

module _ (h0 h1 : ℕ) (e : PipeEnd) where
  -- A handle that the loop finds is one that it takes.
  find_peer-found :
      (l : List Slot) (i : ℕ) (found : Option ℕ) (q : ℕ)
      → find_peer h0 h1 e i l found ≡ some q
      → (found ≡ some q) ⊎ ((k : ℕ) × (q ≡ i + k) × (takes h0 h1 e q (get_or l k free) ≡ true))
  unfolding find_peer
  find_peer-found [] i found q p = inl p
  find_peer-found (s ∷ ss) i found q p =
      step (find_peer-found ss (suc i) (if takes h0 h1 e i s then some i else found) q p)
    where
      step :
          (((if takes h0 h1 e i s then some i else found) ≡ some q)
            ⊎ ((k : ℕ) × (q ≡ suc i + k) × (takes h0 h1 e q (get_or ss k free) ≡ true)))
          → (found ≡ some q)
            ⊎ ((k : ℕ) × (q ≡ i + k) × (takes h0 h1 e q (get_or (s ∷ ss) k free) ≡ true))
      step (inr (k, r, t)) = inr (suc k, omega (arith, r), t)
      step (inl r) = elim (Bool-cases (takes h0 h1 e i s)) [
        | inl t ↦
            let same : i ≡ q = ground (arith, sym (if-true (some i) found t) ∙ r) in
            inr (0, omega (arith, same), subst (λ n. takes h0 h1 e n s ≡ true) same t)
        | inr t ↦ inl (sym (if-false (some i) found t) ∙ r)
      ]

  -- It is neither of the two given, and its slot is the other end of the pipe.
  pub find_peer_lem :
      (c : Core) (q : ℕ)
      → get_or c.slots 0 free ≡ free
      → find_peer h0 h1 e 0 c.slots none ≡ some q
      → (q ≢ h0) × (q ≢ h1) × (is_peer e (pipe_of (lookup c q)) ≡ true)
  find_peer_lem c q unused p = elim (find_peer-found c.slots 0 none q p) [
    | inl r ↦ cc
    | inr (k, r, t) ↦ ground (arith, lookup-get_or c q unused, ap (λ n. get_or c.slots n free) r)
  ]

-- A slot that is the other end of some pipe is a pipe end.
pub is_peer-pipe :
    (e : PipeEnd) (o : Option PipeEnd) → is_peer e o ≡ true → (f : PipeEnd) × (o ≡ some f)
is_peer-pipe e none h = cc
is_peer-pipe e (some f) h = (f, refl)
