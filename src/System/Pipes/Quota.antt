-- ===== src/System/Pipes/Quota.antt =====
-- The quotas of a message pipe: a send that is accepted stays within both.
use voodoo.Prelude.{
  ◌≤◌, ◌<◌, ◌≡◌, refl, List, [], ◌∷◌, ◌++◌, true, false, arith, length, length-append, add64,
}
use voodoo.System.Types.{MessageObj, PipeState, Ends, peer, End, end0, end1, at_end, set_end}
use voodoo.System.Pipes.{queue_bytes, over_quota, pushed}

pub at_end-set_end {ℓ} : {A : Type ℓ} (p : Ends A) (s : End) (a : A) → at_end (set_end p s a) s ≡ a
at_end-set_end p end0 a = refl
at_end-set_end p end1 a = refl

pub at_end-set_end-peer {ℓ} :
    {A : Type ℓ} (p : Ends A) (s : End) (a : A)
    → at_end (set_end p s a) (peer s) ≡ at_end p (peer s)
at_end-set_end-peer p end0 a = refl
at_end-set_end-peer p end1 a = refl

pub queue_bytes-append :
    (q : List MessageObj) (m : MessageObj)
    → queue_bytes (q ++ m ∷ []) ≡ add64 (queue_bytes q) (length m.bytes)
unfolding queue_bytes
queue_bytes-append [] m = omega arith
queue_bytes-append (x ∷ q) m = omega (arith, queue_bytes-append q m)

-- Once a message that is not over the quota of an end has been queued there, the number of messages
-- waiting and the sum of their sizes, as the code computes it in 64 bits, are within the limits.
pub over_quota_lem :
    (st : PipeState) (side : End) (m : MessageObj)
    → over_quota st side m ≡ false
    → let st' = pushed st side m in
      (length (at_end st'.queues side) ≤ at_end st'.quota_count side)
      × (queue_bytes (at_end st'.queues side) ≤ at_end st'.quota_bytes side)
unfolding over_quota
over_quota_lem st side m h = (
  rw at_end-set_end (
      omega (
        arith,
        room.0,
        length-append (at_end st.queues side) (record m { committed = true } ∷ []),
      )),
  rw (at_end-set_end, queue_bytes-append) room.1,
)
  where
    room :
        (length (at_end st.queues side) < at_end st.quota_count side)
        × (add64 (queue_bytes (at_end st.queues side)) (length m.bytes)
            ≤ at_end st.quota_bytes side)
    room = ground (arith, h)
