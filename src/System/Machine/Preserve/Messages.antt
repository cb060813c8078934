-- ===== src/System/Machine/Preserve/Messages.antt =====
-- The calls on messages keep the handle table sound, if the callbacks do.
use voodoo.Prelude.{
  ℕ, ◌-◌, ◌≡◌, refl, List, [], ◌++◌, true, not, ◌&&◌, Option, none, some, arith, ltb, ◌==◌, length,
  replicate, Option-cases, Bool-cases, inl, inr,
}
use voodoo.System.Types.{Core, message, MessageObj, empty_message, WhpTrapEvent}
use voodoo.System.Table.{lookup, put_slot}
use voodoo.System.Table.Sound.{IsSound, put_slot-IsSound, alloc-IsSound}
use voodoo.System.Machine.Preserve.Blocks.{message_of-eq}
use voodoo.System.Messages.{
  Callbacks, message_of, call_destructor, call_serializer, create_message, append_message_data,
  HandleRoom, uncounted, unstored, room, have_handles, get_from, get_message_data, finish_serialize,
  serialize_message, reserve_message_capacity, set_message_context, is_none,
}

-- Callbacks change the core by calls of their own, so they leave the table sound.
pub record KeepSound (cb : Callbacks) : Type 0 where
  pub serialize : (f x h : ℕ) (c : Core) → IsSound c → IsSound (cb.serialize f x h c)
  pub destroy : (f x : ℕ) (c : Core) → IsSound c → IsSound (cb.destroy f x c)
  pub handle : (f : ℕ) (e : WhpTrapEvent) (c : Core) → IsSound c → IsSound (cb.handle f e c)

pub create_message-IsSound : (c : Core) → IsSound c → IsSound (create_message true c).2
unfolding create_message
create_message-IsSound c v = alloc-IsSound c (message empty_message) v refl refl

pub put_message-IsSound :
    (c : Core) (h : ℕ) (m n : MessageObj)
    → IsSound c
    → message_of (lookup c h) ≡ some m
    → IsSound (put_slot c h (message n))
put_message-IsSound c h m n v e =
    put_slot-IsSound c h (message m) v (message_of-eq (lookup c h) m e) refl (message n) refl refl

pub append_message_data-IsSound :
    (h n : ℕ) (handles : List ℕ) (options : Option ℕ) (c : Core)
    → IsSound c
    → IsSound (append_message_data h n handles options c).2
unfolding append_message_data
append_message_data-IsSound h n handles options c v =
    elim (Option-cases (message_of (lookup c h))) [
      | inl e ↦ rw (e, append_message_data) v
      | inr (m, e) ↦ elim (Bool-cases (m.committed && not (n == 0))) [
        | inl b ↦ rw (e, append_message_data, b) v
        | inr b ↦ rw (e, append_message_data, b) (put_message-IsSound c h m _ v e)
      ]
    ]

get_from-IsSound :
    (h : ℕ) (m : MessageObj) (r : HandleRoom) (c : Core)
    → IsSound c
    → message_of (lookup c h) ≡ some m
    → IsSound (get_from h m r c).1
unfolding get_from
get_from-IsSound h m uncounted c v e = v
get_from-IsSound h m unstored c v e = elim (Bool-cases (ltb 0 (have_handles m))) [
  | inl b ↦ rw b v
  | inr b ↦ rw b v
]
get_from-IsSound h m (room n) c v e = elim (Bool-cases (ltb n (have_handles m))) [
  | inl b ↦ rw b v
  | inr b ↦ rw b (put_message-IsSound c h m (record m { handles = [] }) v e)
]

pub get_message_data-IsSound :
    (h : ℕ) (r : HandleRoom) (c : Core) → IsSound c → IsSound (get_message_data h r c).1
get_message_data-IsSound h r c v = elim (Option-cases (message_of (lookup c h))) [
  | inl e ↦ unfold get_message_data in rw (e, get_message_data) v
  | inr (m, e) ↦ unfold get_message_data in rw (e, get_message_data) (get_from-IsSound h m r c v e)
]

pub reserve_message_capacity-IsSound :
    (h n : ℕ) (c : Core) → IsSound c → IsSound (reserve_message_capacity h n c).2
unfolding reserve_message_capacity
reserve_message_capacity-IsSound h n c v = elim (Option-cases (message_of (lookup c h))) [
  | inl e ↦ rw (e, reserve_message_capacity) v
  | inr (m, e) ↦
      rw (e, reserve_message_capacity)
        (ground (
          arith,
          v,
          put_message-IsSound c h m
              (record m { bytes = m.bytes ++ replicate (n - length m.bytes) 0 }) v e,
        ))
]

module _ (cb : Callbacks) (keeps : KeepSound cb) where
  call_destructor-IsSound :
      (o : Option ℕ) (x : ℕ) (c : Core) → IsSound c → IsSound (call_destructor cb o x c)
  call_destructor-IsSound none x c v = v
  call_destructor-IsSound (some f) x c v = keeps.destroy f x c v

  call_serializer-IsSound :
      (o : Option ℕ) (x h : ℕ) (c : Core) → IsSound c → IsSound (call_serializer cb o x h c)
  call_serializer-IsSound none x h c v = v
  call_serializer-IsSound (some f) x h c v = keeps.serialize f x h c v

  finish_serialize-IsSound : (h : ℕ) (c : Core) → IsSound c → IsSound (finish_serialize cb h c).1
  unfolding finish_serialize
  finish_serialize-IsSound h c v = elim (Option-cases (message_of (lookup c h))) [
    | inl e ↦ rw (e, finish_serialize) v
    | inr (m, e) ↦
        rw (e, finish_serialize)
          (call_destructor-IsSound m.destructor m.context _ (put_message-IsSound c h m _ v e))
  ]

  pub serialize_message-IsSound :
      (h : ℕ) (c : Core) → IsSound c → IsSound (serialize_message cb h c).1
  serialize_message-IsSound h c v = elim (Option-cases (message_of (lookup c h))) [
    | inl e ↦ unfold serialize_message in rw (e, serialize_message) v
    | inr (m, e) ↦
        unfold serialize_message in
        elim (Bool-cases (m.committed && is_none m.serializer)) [
          | inl b ↦ rw (e, serialize_message, b) v
          | inr b ↦
              rw (e, serialize_message, b)
                (finish_serialize-IsSound h _ (
                  call_serializer-IsSound m.serializer m.context h _
                    (put_message-IsSound c h m _ v e)))
        ]
  ]

  pub set_message_context-IsSound :
      (h x : ℕ) (s d : Option ℕ) (c : Core)
      → IsSound c
      → IsSound (set_message_context cb h x s d c).1
  unfolding set_message_context
  set_message_context-IsSound h x s d c v = elim (Option-cases (message_of (lookup c h))) [
    | inl e ↦ rw (e, set_message_context) v
    | inr (m, e) ↦
        rw (e, set_message_context)
          (call_destructor-IsSound m.destructor m.context _ (put_message-IsSound c h m _ v e))
  ]
