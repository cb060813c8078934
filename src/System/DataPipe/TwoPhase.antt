-- ===== src/System/DataPipe/TwoPhase.antt =====
-- The two-phase calls of a data pipe: the buffer that a caller is lent, and what ending a write
-- does.
use native.Mathlib.Nat.{mod-eq_of_lt, mod-add-mod}
use voodoo.Prelude.{
  ℕ, ◌+◌, ◌-◌, ◌%◌, ◌^◌, ◌≤◌, ◌<◌, ◌≡◌, refl, sym, ap, ap₂, subst, ◌∙◌, List, [], ◌∷◌, ◌++◌, take,
  arith, length, none, some, not, ◌==◌, add32, add32_lem, set, length-set, take-append,
  take-append_more, if-false, ltb, ◌||◌,
}
use voodoo.System.Types.{DataPipeState, WhpResult, ok}
use voodoo.System.DataPipe.{store, begin_write, end_write, begin_read}
use voodoo.System.DataPipe.Ring.{IsRing, contents, length-contents, store-IsRing}
use voodoo.System.DataPipe.Window.{window, window-+, length-window}

-- Where WhpBeginWriteData succeeds on a sound ring, the buffer that it lends starts at the write
-- index, has at least one byte and no more than were asked for, lies within the storage, and fits
-- beside the unread bytes; the state changes only in the record of the loan.
pub begin_write_bounds :
    (s s' : DataPipeState) (num_bytes offset n : ℕ)
    → IsRing s
    → begin_write s num_bytes ≡ (ok, some offset, some n, s')
    → (offset ≡ s.w)
      × (0 < n)
      × (n ≤ num_bytes)
      × (offset + n ≤ length s.buf)
      × (s.available + n ≤ s.capacity)
      × (s' ≡ record s { two_phase_write = some offset; two_phase_write_max = n })
unfolding begin_write
begin_write_bounds s s' num_bytes offset n v e = ground arith

-- Where WhpBeginReadData succeeds on a sound ring, the buffer that it lends starts at the read
-- index, has at least one byte and no more than were asked for, lies within the storage, and holds
-- unread bytes only; the state changes only in the record of the loan.
pub begin_read_bounds :
    (s s' : DataPipeState) (num_bytes offset n : ℕ)
    → IsRing s
    → begin_read s num_bytes ≡ (ok, some offset, some n, s')
    → (offset ≡ s.r)
      × (0 < n)
      × (n ≤ num_bytes)
      × (offset + n ≤ length s.buf)
      × (n ≤ s.available)
      × (s' ≡ record s { two_phase_read = some offset; two_phase_read_max = n })
unfolding begin_read
begin_read_bounds s s' num_bytes offset n v e = ground arith

-- What a caller writes into the buffer that it was lent.
abbrev pub overwrite : List ℕ → ℕ → List ℕ → List ℕ
overwrite buf i [] = buf
overwrite buf i (x ∷ xs) = overwrite (set buf i x) (i + 1) xs

-- Up to the end of the storage that is what the loop of WhpWriteData does.
store-overwrite :
    (xs : List ℕ) (s : DataPipeState)
    → s.capacity < 2 ^ 32
    → s.w + length xs ≤ s.capacity
    → (store xs s).buf ≡ overwrite s.buf s.w xs
unfolding store
store-overwrite [] s c h = refl
store-overwrite (x ∷ []) s c h = refl
store-overwrite (x ∷ y ∷ xs) s c h =
    store-overwrite (y ∷ xs) (record s { buf = set s.buf s.w x; w = add32 s.w 1 % s.capacity }) c
      (omega (arith, next))
    ∙ ap (λ k. overwrite (set s.buf s.w x) k (y ∷ xs)) next
  where
    next : add32 s.w 1 % s.capacity ≡ s.w + 1
    next = ap (λ t. t % s.capacity) (add32_lem s.w 1 (omega arith)) ∙ mod-eq_of_lt (omega arith)

-- The state that a caller who has filled the whole buffer ends its write in.
abbrev filled : DataPipeState → List ℕ → DataPipeState
filled s bytes = record s {
  buf = overwrite s.buf s.w bytes;
  two_phase_write = some s.w;
  two_phase_write_max = length bytes;
}

length-overwrite : (buf : List ℕ) (i : ℕ) (xs : List ℕ) → length (overwrite buf i xs) ≡ length buf
length-overwrite buf i [] = refl
length-overwrite buf i (x ∷ xs) = length-overwrite (set buf i x) (i + 1) xs ∙ length-set buf i x

-- The state that ends it after `k` bytes.
abbrev ended : DataPipeState → List ℕ → ℕ → DataPipeState
ended s bytes k = record (filled s bytes) {
  w = (s.w + k) % s.capacity;
  available = s.available + k;
  two_phase_write = none;
}

module _ (s : DataPipeState) (bytes : List ℕ) (k : ℕ) (v : IsRing s)
    (h : s.w + length bytes ≤ s.capacity) (f : s.available + length bytes ≤ s.capacity)
    (le : k ≤ length bytes) where
  ended-IsRing : IsRing (ended s bytes k)
  ended-IsRing = record {
    sized = length-overwrite s.buf s.w bytes ∙ v.sized;
    element_pos = v.element_pos;
    word = v.word;
    r_in = v.r_in;
    behind =
        ap (λ t. (t + k) % s.capacity) v.behind
        ∙ mod-add-mod (s.r + s.available) s.capacity k
        ∙ ap (λ t. t % s.capacity) (omega arith);
    fits = omega (arith, f, le);
  }

  contents-ended : contents (ended s bytes k) ≡ contents s ++ take k bytes
  contents-ended =
      sym (take-append first rest)
      ∙ ap₂ take
          (length-window s.capacity buf s.r (s.available + k)
            ∙ ap (λ n. n + k) (sym (length-contents s)))
          (sym (window-+ s.capacity buf s.r (s.available + k) (length bytes - k) v.r_in)
            ∙ ap₂ (λ b n. window s.capacity b s.r n) (sym (store-overwrite bytes s v.word h))
                (omega (arith, le))
            ∙ (store-IsRing bytes s v f).2)
      ∙ take-append_more (contents s) bytes k
    where
      buf : List ℕ
      buf = overwrite s.buf s.w bytes

      first : List ℕ
      first = window s.capacity buf s.r (s.available + k)

      rest : List ℕ
      rest = window s.capacity buf ((s.r + (s.available + k)) % s.capacity) (length bytes - k)

  end_write-ended : k % s.element_size ≡ 0 → end_write (filled s bytes) k ≡ (ok, ended s bytes k)
  unfolding end_write
  end_write-ended e =
      if-false {b = ltb (length bytes) k || not (k % s.element_size == 0)} _ _ (ground arith)
      ∙ ap₂ (λ w a. (ok, record (ended s bytes k) { w = w; available = a }))
          (ap (λ t. t % s.capacity) (add32_lem s.w k (omega arith)))
          (add32_lem s.available k (omega arith))

-- The loan of WhpBeginWriteData, filled, is what `filled` says.
begun-filled :
    (s s' : DataPipeState) (num_bytes offset n : ℕ) (bytes : List ℕ)
    → IsRing s
    → begin_write s num_bytes ≡ (ok, some offset, some n, s')
    → length bytes ≡ n
    → record s' { buf = overwrite s'.buf offset bytes } ≡ filled s bytes
begun-filled s s' num_bytes offset n bytes v e l =
    let b = begin_write_bounds s s' num_bytes offset n v e in rw (b.5, b.0, ← l) refl

-- On a sound ring, where WhpBeginWriteData lends `n` bytes and the caller writes `n` bytes into
-- them with no other call between, WhpEndWriteData of `k` whole bytes, at most `n`, succeeds, ends
-- the loan, appends the first `k` of them to the unread bytes, and leaves a sound ring.
pub two_phase_write_lem :
    (s s' : DataPipeState) (num_bytes offset n k : ℕ) (bytes : List ℕ)
    → IsRing s
    → begin_write s num_bytes ≡ (ok, some offset, some n, s')
    → length bytes ≡ n
    → k ≤ n
    → k % s.element_size ≡ 0
    → let (result, d) = end_write (record s' { buf = overwrite s'.buf offset bytes }) k in
      (result ≡ ok)
      × IsRing d
      × (contents d ≡ contents s ++ take k bytes)
      × (d.two_phase_write ≡ none)
two_phase_write_lem s s' num_bytes offset n k bytes v e l le m =
    let b = begin_write_bounds s s' num_bytes offset n v e in
    let h : s.w + length bytes ≤ s.capacity = omega (arith, b.3, v.sized) in
    let f : s.available + length bytes ≤ s.capacity = omega (arith, b.4) in
    let le' : k ≤ length bytes = omega arith in
    subst
      (λ (r : WhpResult × DataPipeState).
        (r.0 ≡ ok)
        × IsRing r.1
        × (contents r.1 ≡ contents s ++ take k bytes)
        × (r.1.two_phase_write ≡ none))
      (sym (
        ap (λ t. end_write t k) (begun-filled s s' num_bytes offset n bytes v e l)
        ∙ end_write-ended s bytes k v h f le' m))
      (refl, ended-IsRing s bytes k v h f le', contents-ended s bytes k v h f le', refl)
