-- ===== src/System/Signals.antt =====
-- Which signals a handle has: PipeSignals, DataPipeSignals, SignalsMatch and QueryLocked.
pub mod Laws
use Prim.Native.Nat.{bit_and, bit_or}
use voodoo.Prelude.{
  is_empty, ℕ, List, [], ◌∷◌, Bool, true, false, not, ◌&&◌, ltb, ◌==◌, if◌then◌else◌, get_or,
}
use voodoo.System.Types.{
  WhpHandleSignalsState, no_signals, signal_readable, signal_writable, signal_peer_closed,
  condition_unsatisfiable, End, peer, at_end, PipeState, PipeEnd, DataPipeState, DataPipeEnd, Slot,
  free, message_pipe, message, trap, data_pipe_producer, data_pipe_consumer, shared_buffer,
  platform, Core, new_pipe, new_data_pipe,
}
use voodoo.System.Table.{lookup}

-- `mask` if the test passes, to be joined by `|=`.
abbrev pub mask_if : Bool → ℕ → ℕ
mask_if b mask = if b then mask else 0

-- `peer_closed` and `have`
unfoldable pub pipe_signals_of : Bool → Bool → WhpHandleSignalsState
pipe_signals_of peer_closed have = record {
  satisfied_signals =
      bit_or (mask_if have signal_readable)
        (if peer_closed then signal_peer_closed else signal_writable);
  satisfiable_signals =
      if peer_closed
      then bit_or signal_peer_closed (mask_if have signal_readable)
      else bit_or (bit_or signal_writable signal_readable) signal_peer_closed;
}

unfoldable pub pipe_signals : PipeState → End → WhpHandleSignalsState
unfolding pipe_signals_of
pipe_signals st me =
    pipe_signals_of (at_end st.closed (peer me)) (not (is_empty (at_end st.queues me)))

-- The producer's half: is the consumer closed, and is there room.
unfoldable pub producer_signals : Bool → Bool → WhpHandleSignalsState
producer_signals consumer_closed room = record {
  satisfied_signals =
      bit_or (mask_if (not consumer_closed && room) signal_writable)
        (mask_if consumer_closed signal_peer_closed);
  satisfiable_signals =
      if consumer_closed then signal_peer_closed else bit_or signal_writable signal_peer_closed;
}

-- The consumer's half: is the producer closed, and are there bytes.
unfoldable pub consumer_signals : Bool → Bool → WhpHandleSignalsState
consumer_signals producer_closed have = record {
  satisfied_signals =
      bit_or (mask_if have signal_readable) (mask_if producer_closed signal_peer_closed);
  satisfiable_signals =
      if producer_closed
      then bit_or signal_peer_closed (mask_if have signal_readable)
      else bit_or signal_readable signal_peer_closed;
}

unfoldable pub data_pipe_signals : DataPipeState → Bool → WhpHandleSignalsState
unfolding producer_signals consumer_signals
data_pipe_signals s true = producer_signals s.consumer_closed (ltb s.available s.capacity)
data_pipe_signals s false = consumer_signals s.producer_closed (ltb 0 s.available)

unfoldable pub signals_match : WhpHandleSignalsState → ℕ → ℕ → Bool
signals_match st want condition =
    if condition == condition_unsatisfiable
    then bit_and st.satisfiable_signals want == 0
    else bit_and st.satisfied_signals want == want

-- The objects that the indices of the store name. Out of range stands a fresh object.
abbrev pub pipe_at : Core → ℕ → PipeState
pipe_at c i = get_or c.pipes i new_pipe

abbrev pub data_pipe_at : Core → ℕ → DataPipeState
data_pipe_at c i = get_or c.data_pipes i new_data_pipe

unfoldable pub slot_signals : Core → Slot → WhpHandleSignalsState
slot_signals c free = no_signals
slot_signals c (message_pipe e) = pipe_signals (pipe_at c e.state) e.side
slot_signals c (message m) = no_signals
slot_signals c (trap t) = no_signals
slot_signals c (data_pipe_producer e) = data_pipe_signals (data_pipe_at c e.state) e.producer
slot_signals c (data_pipe_consumer e) = data_pipe_signals (data_pipe_at c e.state) e.producer
slot_signals c (shared_buffer b) = no_signals
slot_signals c (platform p) = no_signals

unfoldable pub query_locked : Core → ℕ → WhpHandleSignalsState
unfolding slot_signals lookup
query_locked c h = slot_signals c (lookup c h)
