-- ===== src/System/DataPipe/Steps.antt =====
-- WhpWriteData and WhpReadData on the two handles of a data pipe do what the queue does.
use voodoo.Prelude.{
  ℕ, ◌≡◌, refl, sym, ap, subst₂, ◌∙◌, inl, inr, List, [], arith, Option, none, true, false, if-true,
  if-false, Bool-cases,
}
use voodoo.System.Types.{Core, free, DataPipeState, WhpResult, invalid_argument}
use voodoo.System.DataPipe.{write_data, read_data}
use voodoo.System.DataPipe.Queue.{Queue, put, get, view}
use voodoo.System.DataPipe.Refine.{write_data_refines, read_data_refines}
use voodoo.System.DataPipe.Ends.{queue_write, queue_read, Ends, stored-Ends}
use voodoo.System.DataCalls.{producer_of, consumer_of, stored, whp_write_data, whp_read_data}

-- Neither a write nor a read closes an end.
put-open :
    (u : Queue) (l : List ℕ)
    → ((put u l).2.no_producer ≡ u.no_producer) × ((put u l).2.no_consumer ≡ u.no_consumer)
unfolding put
put-open u l = ground arith

get-open :
    (u : Queue) (n : ℕ)
    → ((get u n).3.no_producer ≡ u.no_producer) × ((get u n).3.no_consumer ≡ u.no_consumer)
unfolding get
get-open u n = ground arith

-- A call on the core that answers as one on the queue, and leaves the ends of a pipe.
abbrev pub Writes : ℕ → ℕ → ℕ → WhpResult × Option ℕ × Core → WhpResult × Option ℕ × Queue → Type 0
Writes p q i x y =
    (t : DataPipeState) × Ends p q i t x.2
    × ◌≡◌ {A = WhpResult × Option ℕ × Queue} (x.0, x.1, view t) y

abbrev pub Reads :
    ℕ
    → ℕ
    → ℕ
    → WhpResult × List ℕ × Option ℕ × Core
    → WhpResult × List ℕ × Option ℕ × Queue
    → Type 0
Reads p q i x y =
    (t : DataPipeState) × Ends p q i t x.3
    × ◌≡◌ {A = WhpResult × List ℕ × Option ℕ × Queue} (x.0, x.1, x.2, view t) y

abbrev pub Closes : ℕ → ℕ → ℕ → WhpResult × Core → WhpResult × Queue → Type 0
Closes p q i x y =
    (t : DataPipeState) × Ends p q i t x.1 × ◌≡◌ {A = WhpResult × Queue} (x.0, view t) y

module _ (p q i : ℕ) (s : DataPipeState) (c : Core) (e : Ends p q i s c) where
  write_closed :
      s.producer_closed ≡ true
      → (l : List ℕ) → whp_write_data p l true c ≡ (invalid_argument, none, c)
  unfolding whp_write_data
  write_closed h l = rw (ap producer_of (e.producer ∙ if-true free _ h), whp_write_data) refl

  write_open :
      s.producer_closed ≡ false
      → (l : List ℕ)
      → let (result, n, t) = write_data s l in
        whp_write_data p l true c ≡ (result, n, stored c i result t)
  unfolding whp_write_data
  write_open h l = rw (ap producer_of (e.producer ∙ if-false free _ h), whp_write_data, e.at) refl

  pub write-Writes :
      (l : List ℕ) → Writes p q i (whp_write_data p l true c) (queue_write (view s) l)
  unfolding queue_write
  write-Writes l = elim (Bool-cases s.producer_closed) [
    | inl h ↦ subst₂ (Writes p q i) (sym (write_closed h l)) (sym (if-true _ _ h)) (s, e, refl)
    | inr h ↦
        let w = write_data_refines s l e.ring in
        let t = (write_data s l).2 in
        subst₂ (Writes p q i) (sym (write_open h l)) (sym (if-false _ _ h)) (
          t,
          stored-Ends p q i s t (write_data s l).0 c e w.1
              (ap (λ y. y.2.no_producer) w.0 ∙ (put-open (view s) l).0)
              (ap (λ y. y.2.no_consumer) w.0 ∙ (put-open (view s) l).1),
          w.0,
        )
  ]

  read_closed :
      s.consumer_closed ≡ true
      → (n : ℕ) → whp_read_data q n true c ≡ (invalid_argument, [], none, c)
  unfolding whp_read_data
  read_closed h n = rw (ap consumer_of (e.consumer ∙ if-true free _ h), whp_read_data) refl

  read_open :
      s.consumer_closed ≡ false
      → (n : ℕ)
      → let (result, out, k, t) = read_data s n in
        whp_read_data q n true c ≡ (result, out, k, stored c i result t)
  unfolding whp_read_data
  read_open h n = rw (ap consumer_of (e.consumer ∙ if-false free _ h), whp_read_data, e.at) refl

  pub read-Reads : (n : ℕ) → Reads p q i (whp_read_data q n true c) (queue_read (view s) n)
  unfolding queue_read
  read-Reads n = elim (Bool-cases s.consumer_closed) [
    | inl h ↦ subst₂ (Reads p q i) (sym (read_closed h n)) (sym (if-true _ _ h)) (s, e, refl)
    | inr h ↦
        let w = read_data_refines s n e.ring in
        let t = (read_data s n).3 in
        subst₂ (Reads p q i) (sym (read_open h n)) (sym (if-false _ _ h)) (
          t,
          stored-Ends p q i s t (read_data s n).0 c e w.1
              (ap (λ y. y.3.no_producer) w.0 ∙ (get-open (view s) n).0)
              (ap (λ y. y.3.no_consumer) w.0 ∙ (get-open (view s) n).1),
          w.0,
        )
  ]
