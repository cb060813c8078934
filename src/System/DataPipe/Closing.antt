-- ===== src/System/DataPipe/Closing.antt =====
-- WhpClose of either handle of a data pipe does what closing that end of the queue does.
use voodoo.Prelude.{
  ℕ, ◌<◌, ◌≡◌, ◌≢◌, refl, sym, ap, subst, subst₂, ◌∙◌, inl, inr, arith, false, ◌==◌, if◌then◌else◌,
  if-true, if-false, Bool-cases, ==_refl, ==_ne, get_or, length, length-set, get_or-set_self,
}
use voodoo.System.Types.{Core, Slot, free, DataPipeState, new_data_pipe, ok}
use voodoo.System.Table.{lookup, free_handle}
use voodoo.System.Table.Validity.{is_trap, is_free}
use voodoo.System.Table.Free.{lookup-slots, lookup-Live, lookup-free_handle, data_pipes-free_handle}
use voodoo.System.Table.Sound.{IsSound, same_table-IsSound, free_handle-IsSound}
use voodoo.System.Signals.{data_pipe_at}
use voodoo.System.Traps.{collect_trap_events}
use voodoo.System.Platform.{Host}
use voodoo.System.Messages.{Callbacks}
use voodoo.System.Close.{put_data_pipe, close_slot, close_object, release, close}
use voodoo.System.DataPipe.{close_producer, close_consumer}
use voodoo.System.DataPipe.Ring.{IsRing}
use voodoo.System.DataPipe.Queue.{view}
use voodoo.System.DataPipe.Ends.{queue_close_producer, queue_close_consumer, Ends, collect-Ends}
use voodoo.System.DataPipe.Steps.{Closes}

closed-IsRing :
    (s : DataPipeState) → IsRing s → IsRing (close_producer s) × IsRing (close_consumer s)
closed-IsRing s v = ground arith

module _ (p q i : ℕ) (s : DataPipeState) (c : Core) (e : Ends p q i s c) where
  -- A new state of the pipe, and one handle freed.
  freed-IsSound :
      (t : DataPipeState) (h : ℕ) (x : Slot)
      → lookup c h ≡ x
      → is_free x ≡ false
      → is_trap x ≡ false
      → IsSound (free_handle (put_data_pipe c i t) h)
  freed-IsSound t h x f o n =
      free_handle-IsSound (put_data_pipe c i t) h x (same_table-IsSound e.sound refl refl refl)
        (lookup-slots c (put_data_pipe c i t) h refl ∙ f) o n

  freed-lookup :
      (t : DataPipeState) (h : ℕ) (x : Slot)
      → lookup c h ≡ x
      → is_free x ≡ false
      → (j : ℕ)
      → lookup (free_handle (put_data_pipe c i t) h) j ≡ (if j == h then free else lookup c j)
  freed-lookup t h x f o j =
      let d : Core = put_data_pipe c i t in
      lookup-free_handle d h x (lookup-Live d h x (lookup-slots c d h refl ∙ f) o) j
      ∙ ap (λ y. if j == h then free else y) (lookup-slots c d j refl)

  freed-stands :
      (t : DataPipeState) (h : ℕ) → i < length (free_handle (put_data_pipe c i t) h).data_pipes
  freed-stands t h =
      subst (λ l. i < length l) (sym (data_pipes-free_handle (put_data_pipe c i t) h))
        (subst (λ n. i < n) (sym (length-set c.data_pipes i t)) e.stands)

  freed-at : (t : DataPipeState) (h : ℕ) → data_pipe_at (free_handle (put_data_pipe c i t) h) i ≡ t
  freed-at t h =
      ap (λ l. get_or l i new_data_pipe) (data_pipes-free_handle (put_data_pipe c i t) h)
      ∙ get_or-set_self c.data_pipes i t new_data_pipe e.stands

  module _ (apart : p ≢ q) (host : Host) (cb : Callbacks) where
    close_producer_open :
        s.producer_closed ≡ false
        → close host cb p c
          ≡ (ok, collect_trap_events (free_handle (put_data_pipe c i (close_producer s)) p))
    unfolding close release close_object
    close_producer_open h =
        ap (λ x. close_slot host cb p x c) (e.producer ∙ if-false free _ h)
        ∙ ap (λ x. (ok, collect_trap_events (free_handle (put_data_pipe c i (close_producer x)) p)))
            e.at

    producer_freed-Ends :
        s.producer_closed ≡ false
        → Ends p q i (close_producer s) (free_handle (put_data_pipe c i (close_producer s)) p)
    producer_freed-Ends h =
        let f = e.producer ∙ if-false free _ h in
        record {
          sound = freed-IsSound (close_producer s) p _ f refl refl;
          stands = freed-stands (close_producer s) p;
          at = freed-at (close_producer s) p;
          ring = (closed-IsRing s e.ring).0;
          producer = freed-lookup (close_producer s) p _ f refl p ∙ if-true _ _ (==_refl p);
          consumer =
              freed-lookup (close_producer s) p _ f refl q
              ∙ if-false _ _ (==_ne q p (λ r. apart (sym r)))
              ∙ e.consumer;
        }

    pub close_producer-Closes : Closes p q i (close host cb p c) (queue_close_producer (view s))
    unfolding queue_close_producer close
    close_producer-Closes = elim (Bool-cases s.producer_closed) [
      | inl h ↦
          subst₂ (Closes p q i)
            (sym (ap (λ x. close_slot host cb p x c) (e.producer ∙ if-true free _ h)))
            (sym (if-true _ _ h)) (s, e, refl)
      | inr h ↦
          subst₂ (Closes p q i) (sym (close_producer_open h)) (sym (if-false _ _ h))
            (close_producer s, collect-Ends p q i _ _ (producer_freed-Ends h), refl)
    ]

    close_consumer_open :
        s.consumer_closed ≡ false
        → close host cb q c
          ≡ (ok, collect_trap_events (free_handle (put_data_pipe c i (close_consumer s)) q))
    unfolding close release close_object
    close_consumer_open h =
        ap (λ x. close_slot host cb q x c) (e.consumer ∙ if-false free _ h)
        ∙ ap (λ x. (ok, collect_trap_events (free_handle (put_data_pipe c i (close_consumer x)) q)))
            e.at

    consumer_freed-Ends :
        s.consumer_closed ≡ false
        → Ends p q i (close_consumer s) (free_handle (put_data_pipe c i (close_consumer s)) q)
    consumer_freed-Ends h =
        let f = e.consumer ∙ if-false free _ h in
        record {
          sound = freed-IsSound (close_consumer s) q _ f refl refl;
          stands = freed-stands (close_consumer s) q;
          at = freed-at (close_consumer s) q;
          ring = (closed-IsRing s e.ring).1;
          producer =
              freed-lookup (close_consumer s) q _ f refl p
              ∙ if-false _ _ (==_ne p q apart)
              ∙ e.producer;
          consumer = freed-lookup (close_consumer s) q _ f refl q ∙ if-true _ _ (==_refl q);
        }

    pub close_consumer-Closes : Closes p q i (close host cb q c) (queue_close_consumer (view s))
    unfolding queue_close_consumer close
    close_consumer-Closes = elim (Bool-cases s.consumer_closed) [
      | inl h ↦
          subst₂ (Closes p q i)
            (sym (ap (λ x. close_slot host cb q x c) (e.consumer ∙ if-true free _ h)))
            (sym (if-true _ _ h)) (s, e, refl)
      | inr h ↦
          subst₂ (Closes p q i) (sym (close_consumer_open h)) (sym (if-false _ _ h))
            (close_consumer s, collect-Ends p q i _ _ (consumer_freed-Ends h), refl)
    ]
