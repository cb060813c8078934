-- ===== src/System/Machine/Preserve/Fuse.antt =====
-- WhpFuseMessagePipes keeps the handle table sound.
use voodoo.Prelude.{
  ℕ, ◌≢◌, ==_ne, ◌≡◌, refl, ◌∙◌, [], ◌∷◌, ◌++◌, ◌||◌, Option, none, some, arith, ◌==◌,
  if◌then◌else◌, length, Option-cases, Bool-cases, inl, inr, if-true, if-false,
}
use voodoo.System.Types.{Core, message_pipe, PipeEnd, PipeState, end0, end1}
use voodoo.System.Table.{lookup, put_slot, free_handle}
use voodoo.System.Table.Sound.{IsSound, same_table-IsSound, put_slot-IsSound, free_handle-IsSound}
use voodoo.System.Machine.Preserve.Blocks.{collect-IsSound, pipe_of-eq}
use voodoo.System.Table.Free.{lookup-slots, lookup-Live, lookup-put_slot, lookup-free_handle}
use voodoo.System.Pipes.Peer.{find_peer_lem, is_peer-pipe}
use voodoo.System.Pipes.{pipe_of, find_peer, join, fuse_ends, fuse_message_pipes, fused, opposite}

-- The handle is one end of a message pipe.
abbrev HasPipe : Core → ℕ → Type 0
HasPipe c h = (e : PipeEnd) × (lookup c h ≡ message_pipe e)

module _ (c : Core) (q : ℕ) (v : IsSound c) (p : HasPipe c q) (e : PipeEnd) where
  put_end-IsSound : IsSound (put_slot c q (message_pipe e))
  put_end-IsSound = put_slot-IsSound c q (message_pipe p.0) v p.1 refl (message_pipe e) refl refl

  put_end-HasPipe : (h : ℕ) → HasPipe c h → HasPipe (put_slot c q (message_pipe e)) h
  put_end-HasPipe h r = elim (Bool-cases (h == q)) [
    | inl b ↦ (e, at h ∙ if-true _ _ b)
    | inr b ↦ (r.0, at h ∙ if-false _ _ b ∙ r.1)
  ]
    where
      at :
          (j : ℕ)
          → lookup (put_slot c q (message_pipe e)) j
            ≡ (if j == q then message_pipe e else lookup c j)
      at =
          lookup-put_slot c q (message_pipe p.0) (lookup-Live c q (message_pipe p.0) p.1 refl)
            (message_pipe e)

module _ (c : Core) (q : ℕ) (v : IsSound c) (p : HasPipe c q) where
  free_end-IsSound : IsSound (free_handle c q)
  free_end-IsSound = free_handle-IsSound c q (message_pipe p.0) v p.1 refl refl

  free_end-HasPipe : (h : ℕ) → h ≢ q → HasPipe c h → HasPipe (free_handle c q) h
  free_end-HasPipe h n r = (
    r.0,
    lookup-free_handle c q (message_pipe p.0) (lookup-Live c q (message_pipe p.0) p.1 refl) h
        ∙ if-false _ _ (==_ne h q n)
        ∙ r.1,
  )

-- The two far ends are pointed at the new pipe, and the two near ends freed.
module _ (h0 h1 q0 q1 : ℕ) (c : Core) (i : ℕ) (v : IsSound c) (n : h1 ≢ h0) (p0 : HasPipe c h0)
    (p1 : HasPipe c h1) (r0 : HasPipe c q0) (r1 : HasPipe c q1) where
  ends-IsSound : IsSound (
      free_handle
        (free_handle
          (put_slot
            (put_slot c q0 (message_pipe (record { state = i; side = end0 })))
            q1
            (message_pipe (record { state = i; side = end1 })))
          h0)
        h1)
  ends-IsSound =
      free_end-IsSound (free_handle c3 h0) h1 (free_end-IsSound c3 h0 v3 (kept h0 p0))
        (free_end-HasPipe c3 h0 v3 (kept h0 p0) h1 n (kept h1 p1))
    where
      e0 : PipeEnd
      e0 = record { state = i; side = end0 }

      e1 : PipeEnd
      e1 = record { state = i; side = end1 }

      c2 : Core
      c2 = put_slot c q0 (message_pipe e0)

      c3 : Core
      c3 = put_slot c2 q1 (message_pipe e1)

      v2 : IsSound c2
      v2 = put_end-IsSound c q0 v r0 e0

      mid : HasPipe c2 q1
      mid = put_end-HasPipe c q0 v r0 e0 q1 r1

      v3 : IsSound c3
      v3 = put_end-IsSound c2 q1 v2 mid e1

      kept : (h : ℕ) → HasPipe c h → HasPipe c3 h
      kept h p = put_end-HasPipe c2 q1 v2 mid e1 h (put_end-HasPipe c q0 v r0 e0 h p)

join-IsSound :
    (h0 h1 q0 q1 : ℕ) (st : PipeState) (c : Core)
    → IsSound c
    → h1 ≢ h0
    → HasPipe c h0
    → HasPipe c h1
    → HasPipe c q0
    → HasPipe c q1
    → IsSound (join h0 h1 q0 q1 st c)
unfolding join
join-IsSound h0 h1 q0 q1 st c v n p0 p1 r0 r1 = collect-IsSound _ (
    ends-IsSound h0 h1 q0 q1 c1 (length c.pipes) (same_table-IsSound v refl refl refl) n
      (same h0 p0) (same h1 p1) (same q0 r0) (same q1 r1))
  where
    c1 : Core
    c1 = record c { pipes = c.pipes ++ st ∷ [] }

    same : (h : ℕ) → HasPipe c h → HasPipe c1 h
    same h p = (p.0, lookup-slots c c1 h refl ∙ p.1)

-- A handle found by the loop is a pipe end.
found-HasPipe :
    (h0 h1 : ℕ) (e : PipeEnd) (c : Core) (q : ℕ)
    → IsSound c
    → find_peer h0 h1 e 0 c.slots none ≡ some q
    → HasPipe c q
found-HasPipe h0 h1 e c q v p =
    let f : (f : PipeEnd) × (pipe_of (lookup c q) ≡ some f) =
      is_peer-pipe e (pipe_of (lookup c q)) (find_peer_lem h0 h1 e c q v.table.unused p).2 in
    (f.0, pipe_of-eq (lookup c q) f.0 f.1)

fuse_ends-IsSound :
    (h0 h1 : ℕ) (o0 o1 : Option PipeEnd) (c : Core)
    → IsSound c
    → pipe_of (lookup c h0) ≡ o0
    → pipe_of (lookup c h1) ≡ o1
    → IsSound (fuse_ends h0 h1 o0 o1 c).1
unfolding fuse_ends
fuse_ends-IsSound h0 h1 none o1 c v p0 p1 = v
fuse_ends-IsSound h0 h1 (some e0) none c v p0 p1 = v
fuse_ends-IsSound h0 h1 (some e0) (some e1) c v p0 p1 =
    elim (Bool-cases (h0 == h1 || e0.state == e1.state)) [
      | inl b ↦ rw b v
      | inr b ↦ elim (Option-cases (find_peer h0 h1 e0 0 c.slots none)) [
        | inl f ↦ rw (b, f) v
        | inr (q0, f) ↦ elim (Option-cases (find_peer h0 h1 e1 0 c.slots none)) [
          | inl g ↦ rw (b, f, g) v
          | inr (q1, g) ↦
              rw (b, f, g)
                (join-IsSound h0 h1 q0 q1 (fused c e0 e1 (opposite e0) (opposite e1)) c v
                  (ground (arith, b)) (e0, pipe_of-eq (lookup c h0) e0 p0)
                  (e1, pipe_of-eq (lookup c h1) e1 p1) (found-HasPipe h0 h1 e0 c q0 v f)
                  (found-HasPipe h0 h1 e1 c q1 v g))
        ]
      ]
    ]

pub fuse_message_pipes-IsSound :
    (h0 h1 : ℕ) (c : Core) → IsSound c → IsSound (fuse_message_pipes h0 h1 c).1
fuse_message_pipes-IsSound h0 h1 c v =
    unfold fuse_message_pipes in fuse_ends-IsSound h0 h1 _ _ c v refl refl
