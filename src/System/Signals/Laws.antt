-- ===== src/System/Signals/Laws.antt =====
-- What the signals of a handle say, as bits.
use Prim.Native.Nat.{bit_and}
use voodoo.Prelude.{is_empty, ℕ, ◌≡◌, refl, Bool, true, false, not, ◌&&◌, ltb}
use voodoo.System.Types.{
  WhpHandleSignalsState, signal_readable, signal_writable, signal_peer_closed,
  condition_unsatisfiable, condition_satisfied, End, peer, at_end, PipeState, DataPipeState, Slot,
  free, message_pipe, message, trap, data_pipe_producer, data_pipe_consumer, shared_buffer,
  platform, Core,
}
use voodoo.System.Table.{lookup}
use voodoo.System.Signals.{
  pipe_signals_of, pipe_signals, producer_signals, consumer_signals, data_pipe_signals,
  signals_match, slot_signals, query_locked, pipe_at, data_pipe_at,
}

-- Every satisfied signal is a satisfiable one.
abbrev pub IsCoherent : WhpHandleSignalsState → Type 0
IsCoherent st = bit_and st.satisfied_signals st.satisfiable_signals ≡ st.satisfied_signals

pipe_signals_of-IsCoherent : (p h : Bool) → IsCoherent (pipe_signals_of p h)
unfolding pipe_signals_of
pipe_signals_of-IsCoherent true true = refl
pipe_signals_of-IsCoherent true false = refl
pipe_signals_of-IsCoherent false true = refl
pipe_signals_of-IsCoherent false false = refl

producer_signals-IsCoherent : (p h : Bool) → IsCoherent (producer_signals p h)
unfolding producer_signals
producer_signals-IsCoherent true true = refl
producer_signals-IsCoherent true false = refl
producer_signals-IsCoherent false true = refl
producer_signals-IsCoherent false false = refl

consumer_signals-IsCoherent : (p h : Bool) → IsCoherent (consumer_signals p h)
unfolding consumer_signals
consumer_signals-IsCoherent true true = refl
consumer_signals-IsCoherent true false = refl
consumer_signals-IsCoherent false true = refl
consumer_signals-IsCoherent false false = refl

data_pipe_signals-IsCoherent :
    (s : DataPipeState) (producer : Bool) → IsCoherent (data_pipe_signals s producer)
unfolding data_pipe_signals
data_pipe_signals-IsCoherent s true =
    producer_signals-IsCoherent s.consumer_closed (ltb s.available s.capacity)
data_pipe_signals-IsCoherent s false =
    consumer_signals-IsCoherent s.producer_closed (ltb 0 s.available)

slot_signals-IsCoherent : (c : Core) (s : Slot) → IsCoherent (slot_signals c s)
unfolding slot_signals pipe_signals
slot_signals-IsCoherent c free = refl
slot_signals-IsCoherent c (message_pipe e) =
    pipe_signals_of-IsCoherent (at_end (pipe_at c e.state).closed (peer e.side))
      (not (is_empty (at_end (pipe_at c e.state).queues e.side)))
slot_signals-IsCoherent c (message m) = refl
slot_signals-IsCoherent c (trap t) = refl
slot_signals-IsCoherent c (data_pipe_producer e) =
    data_pipe_signals-IsCoherent (data_pipe_at c e.state) e.producer
slot_signals-IsCoherent c (data_pipe_consumer e) =
    data_pipe_signals-IsCoherent (data_pipe_at c e.state) e.producer
slot_signals-IsCoherent c (shared_buffer b) = refl
slot_signals-IsCoherent c (platform p) = refl

-- For every core and every number used as a handle, each signal that QueryLocked says is satisfied
-- it says is satisfiable too.
pub query_locked-IsCoherent : (c : Core) (h : ℕ) → IsCoherent (query_locked c h)
unfolding query_locked
query_locked-IsCoherent c h = slot_signals-IsCoherent c (lookup c h)

-- A trigger on a message pipe end for readable fires exactly when its queue has a message, for
-- writable exactly when the other end is open, for PEER_CLOSED exactly when that end is closed, and
-- for readable being unsatisfiable exactly when that end is closed and the queue is empty.
pub pipe_signals-match :
    (st : PipeState) (me : End)
    → (signals_match (pipe_signals st me) signal_readable condition_satisfied
        ≡ not (is_empty (at_end st.queues me)))
      × (signals_match (pipe_signals st me) signal_writable condition_satisfied
          ≡ not (at_end st.closed (peer me)))
      × (signals_match (pipe_signals st me) signal_peer_closed condition_satisfied
          ≡ at_end st.closed (peer me))
      × (signals_match (pipe_signals st me) signal_readable condition_unsatisfiable
          ≡ at_end st.closed (peer me) && is_empty (at_end st.queues me))
unfolding pipe_signals signals_match
pipe_signals-match st me = four (at_end st.closed (peer me)) (is_empty (at_end st.queues me))
  where
    four :
        (p e : Bool)
        → (signals_match (pipe_signals_of p (not e)) signal_readable condition_satisfied ≡ not e)
          × (signals_match (pipe_signals_of p (not e)) signal_writable condition_satisfied ≡ not p)
          × (signals_match (pipe_signals_of p (not e)) signal_peer_closed condition_satisfied ≡ p)
          × (signals_match (pipe_signals_of p (not e)) signal_readable condition_unsatisfiable
              ≡ p && e)
    four true true = (refl, refl, refl, refl)
    four true false = (refl, refl, refl, refl)
    four false true = (refl, refl, refl, refl)
    four false false = (refl, refl, refl, refl)
