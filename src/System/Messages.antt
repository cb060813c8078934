-- ===== src/System/Messages.antt =====
-- Messages: WhpCreateMessage, WhpAppendMessageData, WhpGetMessageData, WhpSerializeMessage,
-- WhpReserveMessageCapacity, WhpSetMessageContext and WhpGetMessageContext. A null out parameter
-- is `false` for its presence; a `void** buffer` gives a view of the message's own bytes and is
-- left out.
use Prim.Native.Nat.{bit_and}
use voodoo.Prelude.{
  ℕ, ◌-◌, ◌%◌, ◌^◌, List, [], ◌++◌, Bool, true, false, not, ◌&&◌, ◌||◌, Option, none, some, ltb,
  ◌==◌, if◌then◌else◌, length, replicate, take,
}
use voodoo.System.Types.{
  Core, Slot, message, MessageObj, empty_message, WhpTrapEvent, WhpResult, ok, invalid_argument,
  failed_precondition, resource_exhausted,
}
use voodoo.System.Table.{lookup, alloc, put_slot}

-- What the program's function pointers do: a serializer gets its context and the message, a
-- destructor its context, a trap's handler the event. They run with the lock released, and may call
-- back into the core.
pub record Callbacks : Type 0 where
  pub serialize : ℕ → ℕ → ℕ → Core → Core
  pub destroy : ℕ → ℕ → Core → Core
  pub handle : ℕ → WhpTrapEvent → Core → Core

abbrev pub message_of : Slot → Option MessageObj
message_of (message m) = some m
message_of _ = none

abbrev pub call_destructor : Callbacks → Option ℕ → ℕ → Core → Core
call_destructor cb none context c = c
call_destructor cb (some f) context c = cb.destroy f context c

abbrev pub call_serializer : Callbacks → Option ℕ → ℕ → ℕ → Core → Core
call_serializer cb none context h c = c
call_serializer cb (some f) context h c = cb.serialize f context h c

abbrev pub is_none {ℓ} : {A : Type ℓ} → Option A → Bool
is_none none = true
is_none (some a) = false

-- WhpCreateMessage
unfoldable pub create_message : Bool → Core → WhpResult × Option ℕ × Core
create_message present c =
    let (h, c') = alloc c (message empty_message) in
    if present then (ok, some h, c') else (invalid_argument, none, c)

-- `flags & WHP_APPEND_MESSAGE_DATA_FLAG_COMMIT_SIZE`, of options that are not null.
abbrev pub commits : Option ℕ → Bool
commits none = false
commits (some flags) = not (bit_and flags 1 == 0)

-- The message after WhpAppendMessageData.
abbrev pub appended : MessageObj → ℕ → List ℕ → Option ℕ → MessageObj
appended m additional handles options = record m {
  bytes = m.bytes ++ replicate additional 0;
  handles = m.handles ++ handles;
  committed = m.committed || commits options;
}

-- WhpAppendMessageData: `handles` is the list of the `num_handles` that are passed, empty for a null
-- pointer. The second part is what `*buffer_size` becomes.
unfoldable pub append_message_data : ℕ → ℕ → List ℕ → Option ℕ → Core → WhpResult × Option ℕ × Core
append_message_data h additional handles options c = elim (message_of (lookup c h)) [
  | none ↦ (invalid_argument, none, c)
  | some m ↦
      let m' = appended m additional handles options in
      if m.committed && not (additional == 0)
      then (failed_precondition, none, c)
      else (ok, some (length m'.bytes % 2 ^ 32), put_slot c h (message m'))
]

-- How a caller of WhpGetMessageData passes `handles` and `num_handles`: no `num_handles`, one with
-- no array, or one with the room of its array. (An array with no count is as no count.)
pub data HandleRoom : Type 0 where
  uncounted unstored : HandleRoom
  room : ℕ → HandleRoom

-- What WhpGetMessageData gives: the result, `*num_bytes`, `*num_handles` and the handles stored.
pub record MessageData : Type 0 where
  pub result : WhpResult
  pub num_bytes : Option ℕ
  pub num_handles : Option ℕ
  pub stored : List ℕ

-- `static_cast<uint32_t>(msg->handles.size())`
abbrev pub have_handles : MessageObj → ℕ
have_handles m = length m.handles % 2 ^ 32

unfoldable pub get_from : ℕ → MessageObj → HandleRoom → Core → MessageData × Core
get_from h m uncounted c = (
  record {
    result = ok;
    num_bytes = some (length m.bytes % 2 ^ 32);
    num_handles = none;
    stored = [];
  },
  c,
)
get_from h m unstored c =
    if ltb 0 (have_handles m)
    then (
      record {
        result = resource_exhausted;
        num_bytes = some (length m.bytes % 2 ^ 32);
        num_handles = some (have_handles m);
        stored = [];
      },
      c,
    )
    else (
      record {
        result = ok;
        num_bytes = some (length m.bytes % 2 ^ 32);
        num_handles = some 0;
        stored = [];
      },
      c,
    )
get_from h m (room n) c =
    if ltb n (have_handles m)
    then (
      record {
        result = resource_exhausted;
        num_bytes = none;
        num_handles = some (have_handles m);
        stored = [];
      },
      c,
    )
    else (
      record {
        result = ok;
        num_bytes = some (length m.bytes % 2 ^ 32);
        num_handles = some (have_handles m);
        stored = take (have_handles m) m.handles;
      },
      put_slot c h (message (record m { handles = [] })),
    )

-- WhpGetMessageData, for a caller that asks for `num_bytes`.
unfoldable pub get_message_data : ℕ → HandleRoom → Core → MessageData × Core
unfolding get_from
get_message_data h r c = elim (message_of (lookup c h)) [
  | none ↦
      (record { result = invalid_argument; num_bytes = none; num_handles = none; stored = [] }, c)
  | some m ↦ get_from h m r c
]

-- The second half of WhpSerializeMessage, with the lock taken again.
unfoldable pub finish_serialize : Callbacks → ℕ → Core → WhpResult × Core
finish_serialize cb h c = elim (message_of (lookup c h)) [
  | none ↦ (invalid_argument, c)
  | some m ↦ (
    ok,
    call_destructor cb m.destructor m.context (
        put_slot c h (
          message
            (record m { committed = true; destructor = none; context = 0; serializer = none }))),
  )
]

-- WhpSerializeMessage
unfoldable pub serialize_message : Callbacks → ℕ → Core → WhpResult × Core
unfolding finish_serialize
serialize_message cb h c = elim (message_of (lookup c h)) [
  | none ↦ (invalid_argument, c)
  | some m ↦
      if m.committed && is_none m.serializer
      then (ok, c)
      else finish_serialize cb h (
          call_serializer cb m.serializer m.context h
            (put_slot c h (message (record m { serializer = none }))))
]

-- WhpReserveMessageCapacity; the second part is what `*buffer_size` becomes.
unfoldable pub reserve_message_capacity : ℕ → ℕ → Core → WhpResult × Option ℕ × Core
reserve_message_capacity h size c = elim (message_of (lookup c h)) [
  | none ↦ (invalid_argument, none, c)
  | some m ↦
      let grown = m.bytes ++ replicate (size - length m.bytes) 0 in
      if m.committed
      then (failed_precondition, some (length m.bytes % 2 ^ 32), c)
      else (ok, some (length grown % 2 ^ 32), put_slot c h (message (record m { bytes = grown })))
]

-- WhpSetMessageContext
unfoldable pub set_message_context :
    Callbacks → ℕ → ℕ → Option ℕ → Option ℕ → Core → WhpResult × Core
set_message_context cb h context serializer destructor c = elim (message_of (lookup c h)) [
  | none ↦ (invalid_argument, c)
  | some m ↦ (
    ok,
    call_destructor cb m.destructor m.context (
        put_slot c h (
          message
            (record m { context = context; serializer = serializer; destructor = destructor }))),
  )
]

-- WhpGetMessageContext
unfoldable pub get_message_context : ℕ → Bool → Core → WhpResult × Option ℕ
get_message_context h present c = elim (message_of (lookup c h)) [
  | none ↦ (invalid_argument, none)
  | some m ↦ if present then (ok, some m.context) else (invalid_argument, none)
]
