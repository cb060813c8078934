-- ===== src/System/Pipes.antt =====
-- Message pipes: WhpCreateMessagePipe, WhpWriteMessage, WhpReadMessage, WhpSetQuota, WhpQueryQuota
-- and WhpFuseMessagePipes.
pub mod Peer
pub mod Fifo
pub mod Receive
pub mod Quota
use voodoo.Prelude.{
  is_empty, ℕ, suc, ◌+◌, ◌%◌, ◌^◌, List, [], ◌∷◌, ◌++◌, Bool, true, false, not, ◌&&◌, ◌||◌, Option,
  none, some, ltb, leb, ◌==◌, if◌then◌else◌, length, set, get_or, add64,
}
use voodoo.System.Types.{
  Core, Slot, free, message, message_pipe, MessageObj, PipeState, PipeEnd, End, end0, end1, peer,
  Ends, at_end, set_end, new_pipe, WhpResult, ok, invalid_argument, failed_precondition,
  resource_exhausted, should_wait, quota_message_count, quota_message_size,
}
use voodoo.System.Table.{lookup, alloc, free_handle, put_slot}
use voodoo.System.Signals.{pipe_at}
use voodoo.System.Traps.{collect_trap_events}
use voodoo.System.Messages.{Callbacks, message_of, serialize_message}

abbrev pub pipe_of : Slot → Option PipeEnd
pipe_of (message_pipe e) = some e
pipe_of _ = none

abbrev pub put_pipe : Core → ℕ → PipeState → Core
put_pipe c i st = record c { pipes = set c.pipes i st }

-- WhpCreateMessagePipe; `present` is whether both out parameters are there.
unfoldable pub create_message_pipe : Bool → Core → WhpResult × Option (ℕ × ℕ) × Core
create_message_pipe present c =
    let i = length c.pipes in
    let c0 = record c { pipes = c.pipes ++ new_pipe ∷ [] } in
    let (h0, c1) = alloc c0 (message_pipe (record { state = i; side = end0 })) in
    let (h1, c2) = alloc c1 (message_pipe (record { state = i; side = end1 })) in
    if present then (ok, some (h0, h1), c2) else (invalid_argument, none, c)

-- QueueBytes
unfoldable pub queue_bytes : List MessageObj → ℕ
queue_bytes [] = 0
queue_bytes (m ∷ q) = add64 (length m.bytes) (queue_bytes q)

-- The state of a pipe after `inbound.push_back(msg)` at the end `side`.
abbrev pub pushed : PipeState → End → MessageObj → PipeState
pushed st side m = record st {
  queues = set_end st.queues side (at_end st.queues side ++ record m { committed = true } ∷ []);
}

-- Whether the queue at `side` has no room for the message.
unfoldable pub over_quota : PipeState → End → MessageObj → Bool
unfolding queue_bytes
over_quota st side m =
    leb (at_end st.quota_count side) (length (at_end st.queues side))
    || ltb (at_end st.quota_bytes side)
        (add64 (queue_bytes (at_end st.queues side)) (length m.bytes))

-- WhpWriteMessage with the message serialized, once both handles are found.
unfoldable pub send : PipeEnd → ℕ → MessageObj → Core → WhpResult × Core
unfolding over_quota
send e h m c =
    let st = pipe_at c e.state in
    if at_end st.closed (peer e.side) || at_end st.closed e.side
    then (failed_precondition, collect_trap_events (free_handle c h))
    else if over_quota st (peer e.side) m
    then (resource_exhausted, c)
    else (ok, collect_trap_events (free_handle (put_pipe c e.state (pushed st (peer e.side) m)) h))

unfoldable pub send_to : Option PipeEnd → Option MessageObj → ℕ → Core → WhpResult × Core
send_to none m h c = (invalid_argument, c)
send_to (some e) none h c = (invalid_argument, c)
send_to (some e) (some m) h c = send e h m c

unfoldable pub write_serialized : ℕ → ℕ → WhpResult × Core → WhpResult × Core
unfolding send_to send
write_serialized pipe h (ok, c) = send_to (pipe_of (lookup c pipe)) (message_of (lookup c h)) h c
write_serialized pipe h (r, c) = (r, c)

-- WhpWriteMessage
unfoldable pub write_message : Callbacks → ℕ → ℕ → Core → WhpResult × Core
unfolding write_serialized
write_message cb pipe h c = write_serialized pipe h (serialize_message cb h c)

-- WhpReadMessage from an end, by what its queue holds.
unfoldable pub receive : PipeEnd → List MessageObj → Core → WhpResult × Option ℕ × Core
receive e [] c = (
  if at_end (pipe_at c e.state).closed (peer e.side) then failed_precondition else should_wait,
  none,
  c,
)
receive e (m ∷ q) c =
    let st = pipe_at c e.state in
    let (h, c') =
      alloc (put_pipe c e.state (record st { queues = set_end st.queues e.side q })) (message m) in
    (ok, some h, c')

-- WhpReadMessage
unfoldable pub read_message : ℕ → Bool → Core → WhpResult × Option ℕ × Core
unfolding receive
read_message pipe present c = elim (pipe_of (lookup c pipe)) [
  | none ↦ (invalid_argument, none, c)
  | some e ↦
      if present
      then receive e (at_end (pipe_at c e.state).queues e.side) c
      else (invalid_argument, none, c)
]

-- WhpSetQuota
unfoldable pub set_quota : ℕ → ℕ → ℕ → Core → WhpResult × Core
set_quota h type limit c = elim (pipe_of (lookup c h)) [
  | none ↦ (invalid_argument, c)
  | some e ↦
      let st = pipe_at c e.state in
      if type == quota_message_count
      then (
        ok,
        put_pipe c e.state (record st { quota_count = set_end st.quota_count e.side limit }),
      )
      else if type == quota_message_size
      then (
        ok,
        put_pipe c e.state (record st { quota_bytes = set_end st.quota_bytes e.side limit }),
      )
      else (invalid_argument, c)
]

-- WhpQueryQuota: the result with `*limit` and `*usage`.
unfoldable pub query_quota : ℕ → ℕ → Bool → Core → WhpResult × Option (ℕ × ℕ)
unfolding queue_bytes
query_quota h type present c = elim (pipe_of (lookup c h)) [
  | none ↦ (invalid_argument, none)
  | some e ↦
      let st = pipe_at c e.state in
      if not present
      then (invalid_argument, none)
      else if type == quota_message_count
      then (ok, some (at_end st.quota_count e.side, length (at_end st.queues e.side)))
      else if type == quota_message_size
      then (ok, some (at_end st.quota_bytes e.side, queue_bytes (at_end st.queues e.side)))
      else (invalid_argument, none)
]

abbrev pub same_end : End → End → Bool
same_end end0 end0 = true
same_end end1 end1 = true
same_end _ _ = false

-- Whether a slot is the other end of the pipe of `e`.
abbrev pub is_peer : PipeEnd → Option PipeEnd → Bool
is_peer e none = false
is_peer e (some f) = f.state == e.state && not (same_end f.side e.side)

-- What the loop of WhpFuseMessagePipes asks of the handle `i` and its slot.
abbrev pub takes : ℕ → ℕ → PipeEnd → ℕ → Slot → Bool
takes h0 h1 e i s = not (i == 0) && (not (i == h0 || i == h1) && is_peer e (pipe_of s))

-- That loop, from `i` on: the last handle that is neither of the two given and is the other end of
-- the pipe of `e`.
unfoldable pub find_peer : ℕ → ℕ → PipeEnd → ℕ → List Slot → Option ℕ → Option ℕ
find_peer h0 h1 e i [] found = found
find_peer h0 h1 e i (s ∷ ss) found =
    find_peer h0 h1 e (suc i) ss (if takes h0 h1 e i s then some i else found)

-- The pipe that joins the far ends `p0` and `p1` of the pipes of `e0` and `e1`.
unfoldable pub fused : Core → PipeEnd → PipeEnd → PipeEnd → PipeEnd → PipeState
fused c e0 e1 p0 p1 =
    let s0 = pipe_at c e0.state in
    let s1 = pipe_at c e1.state in
    record {
      queues = record {
        first = at_end s0.queues p0.side ++ at_end s1.queues e1.side;
        second = at_end s1.queues p1.side ++ at_end s0.queues e0.side;
      };
      closed = record { first = false; second = false };
      quota_count = record {
        first = at_end s0.quota_count p0.side;
        second = at_end s1.quota_count p1.side;
      };
      quota_bytes = record {
        first = at_end s0.quota_bytes p0.side;
        second = at_end s1.quota_bytes p1.side;
      };
    }

-- The far ends, at the handles `q0` and `q1`, become the two ends of the new pipe.
unfoldable pub join : ℕ → ℕ → ℕ → ℕ → PipeState → Core → Core
join h0 h1 q0 q1 st c =
    let i = length c.pipes in
    let c1 = record c { pipes = c.pipes ++ st ∷ [] } in
    let c2 = put_slot c1 q0 (message_pipe (record { state = i; side = end0 })) in
    let c3 = put_slot c2 q1 (message_pipe (record { state = i; side = end1 })) in
    collect_trap_events (free_handle (free_handle c3 h0) h1)

-- The end that a handle found by `find_peer` has.
abbrev pub opposite : PipeEnd → PipeEnd
opposite e = record e { side = peer e.side }

unfoldable pub fuse_ends : ℕ → ℕ → Option PipeEnd → Option PipeEnd → Core → WhpResult × Core
fuse_ends h0 h1 none e1 c = (invalid_argument, c)
fuse_ends h0 h1 (some e0) none c = (invalid_argument, c)
fuse_ends h0 h1 (some e0) (some e1) c =
    if h0 == h1 || e0.state == e1.state
    then (invalid_argument, c)
    else elim (find_peer h0 h1 e0 0 c.slots none) [
      | none ↦ (failed_precondition, c)
      | some q0 ↦ elim (find_peer h0 h1 e1 0 c.slots none) [
        | none ↦ (failed_precondition, c)
        | some q1 ↦ (ok, join h0 h1 q0 q1 (fused c e0 e1 (opposite e0) (opposite e1)) c)
      ]
    ]

-- WhpFuseMessagePipes
unfoldable pub fuse_message_pipes : ℕ → ℕ → Core → WhpResult × Core
unfolding fuse_ends find_peer fused join
fuse_message_pipes h0 h1 c = fuse_ends h0 h1 (pipe_of (lookup c h0)) (pipe_of (lookup c h1)) c
