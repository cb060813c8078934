-- ===== src/System/DataPipe/Ends.antt =====
-- Runs of WhpWriteData, WhpReadData and WhpClose on the two handles of a data pipe, the same on its
-- queue, and the cores where two handles are the ends of one pipe.
use voodoo.Prelude.{
  ℕ, ◌<◌, ◌≡◌, refl, sym, ap, subst, ◌∙◌, List, [], ◌∷◌, Bool, Option, none, true, false,
  if◌then◌else◌, get_or, length, length-set, get_or-set_self,
}
use voodoo.System.Types.{
  Core, Slot, free, data_pipe_producer, data_pipe_consumer, DataPipeState, new_data_pipe, WhpResult,
  ok, invalid_argument,
}
use voodoo.System.Table.{lookup}
use voodoo.System.Table.Validity.{is_trap}
use voodoo.System.Table.Free.{lookup-slots}
use voodoo.System.Table.Sound.{IsSound, same_table-IsSound}
use voodoo.System.Signals.{data_pipe_at}
use voodoo.System.Traps.{collect_trap_events}
use voodoo.System.Traps.Frame.{Collected, Kept-other}
use voodoo.System.Traps.Collect.{collect_trap_events-Collected}
use voodoo.System.Platform.{Host}
use voodoo.System.Messages.{Callbacks}
use voodoo.System.Close.{put_data_pipe, close}
use voodoo.System.DataPipe.Ring.{IsRing}
use voodoo.System.DataPipe.Queue.{Queue, put, get}
use voodoo.System.DataCalls.{stored, whp_write_data, whp_read_data}

-- The calls on the two handles, in some order.
pub data PipeCall : Type 0 where
  writes : List ℕ → PipeCall
  reads : ℕ → PipeCall
  closes_producer closes_consumer : PipeCall

-- What one call answers: the result, the bytes read and what is stored through `num_bytes`.
abbrev pub Answer : Type 0
Answer = WhpResult × List ℕ × Option ℕ

module _ (host : Host) (cb : Callbacks) (p q : ℕ) where
  -- `p` is the producer's handle and `q` the consumer's.
  unfoldable pub run_calls : Core → List PipeCall → List Answer
  run_calls c [] = []
  run_calls c (writes elements ∷ cs) =
      let (result, n, c') = whp_write_data p elements true c in (result, [], n) ∷ run_calls c' cs
  run_calls c (reads want ∷ cs) =
      let (result, out, n, c') = whp_read_data q want true c in (result, out, n) ∷ run_calls c' cs
  run_calls c (closes_producer ∷ cs) =
      let (result, c') = close host cb p c in (result, [], none) ∷ run_calls c' cs
  run_calls c (closes_consumer ∷ cs) =
      let (result, c') = close host cb q c in (result, [], none) ∷ run_calls c' cs

-- The same on the queue. An end that has been closed takes no call.
unfoldable pub queue_write : Queue → List ℕ → WhpResult × Option ℕ × Queue
queue_write u elements = if u.no_producer then (invalid_argument, none, u) else put u elements

unfoldable pub queue_read : Queue → ℕ → WhpResult × List ℕ × Option ℕ × Queue
queue_read u want = if u.no_consumer then (invalid_argument, [], none, u) else get u want

unfoldable pub queue_close_producer : Queue → WhpResult × Queue
queue_close_producer u =
    if u.no_producer then (invalid_argument, u) else (ok, record u { no_producer = true })

unfoldable pub queue_close_consumer : Queue → WhpResult × Queue
queue_close_consumer u =
    if u.no_consumer then (invalid_argument, u) else (ok, record u { no_consumer = true })

unfoldable pub run_queue : Queue → List PipeCall → List Answer
run_queue u [] = []
run_queue u (writes elements ∷ cs) =
    let (result, n, u') = queue_write u elements in (result, [], n) ∷ run_queue u' cs
run_queue u (reads want ∷ cs) =
    let (result, out, n, u') = queue_read u want in (result, out, n) ∷ run_queue u' cs
run_queue u (closes_producer ∷ cs) =
    let (result, u') = queue_close_producer u in (result, [], none) ∷ run_queue u' cs
run_queue u (closes_consumer ∷ cs) =
    let (result, u') = queue_close_consumer u in (result, [], none) ∷ run_queue u' cs

-- What the handle of an end names: its object, until it is closed.
abbrev pub producer_slot : ℕ → Bool → Slot
producer_slot i closed =
    if closed then free else data_pipe_producer (record { state = i; producer = true })

abbrev pub consumer_slot : ℕ → Bool → Slot
consumer_slot i closed =
    if closed then free else data_pipe_consumer (record { state = i; producer = false })

-- A sound core where `p` and `q` are the handles of the data pipe `i`, whose state is `s`.
pub record Ends (p q i : ℕ) (s : DataPipeState) (c : Core) : Type 0 where
  pub sound : IsSound c
  pub stands : i < length c.data_pipes
  pub at : data_pipe_at c i ≡ s
  pub ring : IsRing s
  pub producer : lookup c p ≡ producer_slot i s.producer_closed
  pub consumer : lookup c q ≡ consumer_slot i s.consumer_closed

put-not_trap :
    (i : ℕ) (b : Bool)
    → (is_trap (producer_slot i b) ≡ false) × (is_trap (consumer_slot i b) ≡ false)
put-not_trap i true = (refl, refl)
put-not_trap i false = (refl, refl)

module _ (p q i : ℕ) where
  -- CollectTrapEvents leaves the ends alone.
  pub collect-Ends :
      (s : DataPipeState) (c : Core) → Ends p q i s c → Ends p q i s (collect_trap_events c)
  collect-Ends s c e =
      let k : Collected c (collect_trap_events c) =
        collect_trap_events-Collected c e.sound.table e.sound.listed in
      record {
        sound = record { table = k.table; listed = k.listed };
        stands = subst (λ l. i < length l) (sym k.store.data_pipes) e.stands;
        at = ap (λ l. get_or l i new_data_pipe) k.store.data_pipes ∙ e.at;
        ring = e.ring;
        producer =
            Kept-other (k.slots p) (ap is_trap e.producer ∙ (put-not_trap i s.producer_closed).0)
            ∙ e.producer;
        consumer =
            Kept-other (k.slots q) (ap is_trap e.consumer ∙ (put-not_trap i s.consumer_closed).1)
            ∙ e.consumer;
      }

  -- A new state of the pipe with the same ends open.
  pub put-Ends :
      (s t : DataPipeState) (c : Core)
      → Ends p q i s c
      → IsRing t
      → t.producer_closed ≡ s.producer_closed
      → t.consumer_closed ≡ s.consumer_closed
      → Ends p q i t (put_data_pipe c i t)
  put-Ends s t c e v a b = record {
    sound = same_table-IsSound e.sound refl refl refl;
    stands = subst (λ n. i < n) (sym (length-set c.data_pipes i t)) e.stands;
    at = get_or-set_self c.data_pipes i t new_data_pipe e.stands;
    ring = v;
    producer =
        lookup-slots c (put_data_pipe c i t) p refl ∙ e.producer ∙ ap (producer_slot i) (sym a);
    consumer =
        lookup-slots c (put_data_pipe c i t) q refl ∙ e.consumer ∙ ap (consumer_slot i) (sym b);
  }

  pub stored-Ends :
      (s t : DataPipeState) (r : WhpResult) (c : Core)
      → Ends p q i s c
      → IsRing t
      → t.producer_closed ≡ s.producer_closed
      → t.consumer_closed ≡ s.consumer_closed
      → Ends p q i t (stored c i r t)
  stored-Ends s t ok c e v a b = collect-Ends t (put_data_pipe c i t) (put-Ends s t c e v a b)
  stored-Ends s t _ c e v a b = put-Ends s t c e v a b
