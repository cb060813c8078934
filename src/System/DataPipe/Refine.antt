-- ===== src/System/DataPipe/Refine.antt =====
-- A data pipe is a bounded queue of bytes: what WhpWriteData and WhpReadData do to the ring,
-- against the queue of its unread bytes.
use voodoo.Prelude.{
  ℕ, ◌+◌, ◌-◌, ◌%◌, ◌≤◌, ◌≡◌, refl, sym, ap, ap₂, subst, subst₂, ◌⊎◌, if-true, if-false, ◌∙◌, List,
  ◌++◌, take, drop, arith, min, length, length-take, take-append, drop-append, Option, some, true,
  false, not, ◌==◌, add32, sub32, sub32_lem, Bool-cases, inl, inr,
}
use voodoo.System.Types.{DataPipeState, WhpResult, ok}
use voodoo.System.DataPipe.{store, fetch, write_data, read_data, write_whole, read_whole, whole}
use voodoo.System.DataPipe.Ring.{
  IsRing, contents, length-contents, store-IsRing, grown, shrunk, shrunk-IsRing, fetch_lem,
}
use voodoo.System.DataPipe.Window.{window, length-window}
use voodoo.System.DataPipe.Queue.{Queue, put, put_whole, get, get_whole, view}

abbrev pub with_available : DataPipeState → ℕ → DataPipeState
with_available s k = record s { available = k }

-- The state that a write of `src` leaves, as the code computes it.
write-grown :
    (s : DataPipeState) (src : List ℕ) (n : ℕ)
    → IsRing s
    → length src ≡ n
    → s.available + n ≤ s.capacity
    → with_available (store src s) (add32 (store src s).available n) ≡ grown s src
write-grown s src n v e h =
    ap (λ t. with_available t (add32 t.available n)) (store-IsRing src s v (omega arith)).0
    ∙ ap (λ k. with_available (grown s src) k) (omega arith)

-- So is the state that a read of `n` bytes leaves.
pub read-shrunk :
    (s : DataPipeState) (n : ℕ)
    → IsRing s
    → n ≤ s.available
    → with_available (fetch n s).1 (sub32 (fetch n s).1.available n) ≡ shrunk s n
read-shrunk s n v h =
    ap (λ t. with_available t (sub32 t.available n)) (ap (λ q. q.1) (fetch_lem n s v.r_in v.word))
    ∙ ap (λ k. with_available (shrunk s n) k) (sub32_lem s.available n h (omega arith))

read-split :
    (s : DataPipeState) (n : ℕ)
    → IsRing s
    → n ≤ s.available
    → ((fetch n s).0 ≡ take n (contents s)) × (contents (shrunk s n) ≡ drop n (contents s))
read-split s n v h = (ap (λ q. q.0) (fetch_lem n s v.r_in v.word) ∙ sym (taken.0), sym (taken.1))
  where
    first : List ℕ
    first = window s.capacity s.buf s.r n

    sized : length first ≡ n
    sized = length-window s.capacity s.buf s.r n

    taken : (take n (contents s) ≡ first) × (drop n (contents s) ≡ contents (shrunk s n))
    taken = (
      ap₂ take (sym sized) (shrunk-IsRing s n v h).1 ∙ take-append first (contents (shrunk s n)),
      ap₂ drop (sym sized) (shrunk-IsRing s n v h).1 ∙ drop-append first (contents (shrunk s n)),
    )

-- The result of a call refines that of the queue's operation, and its ring is sound.
abbrev Writes : WhpResult × Option ℕ × DataPipeState → WhpResult × Option ℕ × Queue → Type 0
Writes r q = ((r.0, r.1, view r.2) ≡ q) × IsRing r.2

abbrev Reads :
    WhpResult × List ℕ × Option ℕ × DataPipeState → WhpResult × List ℕ × Option ℕ × Queue → Type 0
Reads r q = ((r.0, r.1, r.2, view r.3) ≡ q) × IsRing r.3

view-grown :
    (s : DataPipeState) (src : List ℕ)
    → IsRing s
    → s.available + length src ≤ s.capacity
    → view (grown s src) ≡ record (view s) { unread = contents s ++ src }
view-grown s src v h = ap (λ l. record (view s) { unread = l }) (store-IsRing src s v h).2

write_whole-Writes :
    (s : DataPipeState) (elements : List ℕ) (n : ℕ)
    → IsRing s
    → n ≤ length elements
    → s.available + n ≤ s.capacity
    → Writes (write_whole s elements n) (put_whole (view s) elements n)
unfolding write_whole put_whole
write_whole-Writes s elements n v h k = elim (Bool-cases (n == 0)) [
  | inl e ↦ rw e (refl, v)
  | inr e ↦ rw e (
    ap (λ t. (ok, some n, view t)) after
        ∙ ap (λ q. (ok, some n, q)) (view-grown s (take n elements) v (omega (arith, sized))),
    subst IsRing (sym after) (store-IsRing (take n elements) s v (omega (arith, sized))).1,
  )
]
  where
    sized : length (take n elements) ≡ n
    sized = length-take n elements h

    after :
        with_available (store (take n elements) s) (add32 (store (take n elements) s).available n)
        ≡ grown s (take n elements)
    after = write-grown s (take n elements) n v sized k

read_whole-Reads :
    (s : DataPipeState) (n : ℕ)
    → IsRing s
    → n ≤ s.available
    → Reads (read_whole s n) (get_whole (view s) n)
unfolding read_whole get_whole
read_whole-Reads s n v h = elim (Bool-cases (n == 0)) [
  | inl e ↦ rw e (refl, v)
  | inr e ↦ rw e (
    ap₂ (λ out t. (ok, out, some n, view t)) (read-split s n v h).0 (read-shrunk s n v h)
        ∙ ap (λ l. (ok, take n (contents s), some n, record (view s) { unread = l }))
            (read-split s n v h).1,
    subst IsRing (sym (read-shrunk s n v h)) (shrunk-IsRing s n v h).0,
  )
]

abbrev seen : WhpResult × Option ℕ × DataPipeState → WhpResult × Option ℕ × Queue
seen r = (r.0, r.1, view r.2)

abbrev RingKept : WhpResult × Option ℕ × DataPipeState → Type 0
RingKept r = IsRing r.2

-- A call that both sides refuse with the same answer refines, whatever the test.
module _ (s : DataPipeState) (elements : List ℕ) (v : IsRing s) where
  accepted : ℕ
  accepted = whole s (min (length elements) (s.capacity - s.available))

  write_data-whole :
      s.consumer_closed ≡ false
      → (length elements % s.element_size == 0) ≡ true
      → write_data s elements ≡ write_whole s elements accepted
  unfolding write_data accepted
  write_data-whole o e =
      if-false _ _ o
      ∙ rw e (
          ap (λ n. write_whole s elements (whole s (min (length elements) n)))
            (sub32_lem s.capacity s.available v.fits v.word))

  put-whole :
      s.consumer_closed ≡ false
      → (length elements % s.element_size == 0) ≡ true
      → put (view s) elements ≡ put_whole (view s) elements accepted
  unfolding put accepted
  put-whole o e = if-false _ _ o ∙ rw (e, length-contents s)

  write_data-refused :
      (s.consumer_closed ≡ true)
        ⊎ ((s.consumer_closed ≡ false) × ((length elements % s.element_size == 0) ≡ false))
      → Writes (write_data s elements) (put (view s) elements)
  unfolding write_data put
  write_data-refused (inl e) =
      (ap seen (if-true _ _ e) ∙ sym (if-true _ _ e), subst RingKept (sym (if-true _ _ e)) v)
  write_data-refused (inr (o, e)) = (
    ap seen (if-false _ _ o ∙ if-true _ _ (ap not e))
        ∙ sym (if-false _ _ o ∙ if-true _ _ (ap not e)),
    subst RingKept (sym (if-false _ _ o ∙ if-true _ _ (ap not e))) v,
  )

-- On a sound ring, WhpWriteData returns what a write to the queue returns, errors included, leaves
-- the pipe holding that queue, and keeps the ring sound.
pub write_data_refines :
    (s : DataPipeState) (elements : List ℕ)
    → IsRing s
    → let (result, num_bytes, s') = write_data s elements in
      ((result, num_bytes, view s') ≡ put (view s) elements) × IsRing s'
write_data_refines s elements v = elim (Bool-cases s.consumer_closed) [
  | inl e ↦ write_data-refused s elements v (inl e)
  | inr o ↦ elim (Bool-cases (length elements % s.element_size == 0)) [
    | inl e ↦
        subst₂ Writes (sym (write_data-whole s elements v o e)) (sym (put-whole s elements v o e)) (
          write_whole-Writes s elements (accepted s elements v) v (unfold accepted in omega arith)
            (unfold accepted in omega arith))
    | inr e ↦ write_data-refused s elements v (inr (o, e))
  ]
]

-- On a sound ring, WhpReadData returns what a read from the queue returns, bytes and errors
-- included, leaves the pipe holding the rest, and keeps the ring sound.
pub read_data_refines :
    (s : DataPipeState) (want : ℕ)
    → IsRing s
    → let (result, out, num_bytes, s') = read_data s want in
      ((result, out, num_bytes, view s') ≡ get (view s) want) × IsRing s'
unfolding read_data get
read_data_refines s want v = elim (Bool-cases (want % s.element_size == 0)) [
  | inl e ↦
      rw (e, length-contents s)
        (read_whole-Reads s (whole s (min want s.available)) v (omega arith))
  | inr e ↦ rw e (refl, v)
]
