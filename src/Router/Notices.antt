-- ===== src/Router/Notices.antt =====
-- Notifications of closed endpoints from NotifyPeerEndpointClosed to HandlePipeControlMessage.
use voodoo.Prelude.{
  arith, ℕ, ◌+◌, ◌≤◌, ◌<◌, ◌≡◌, refl, ap, ◌∙◌, [], ◌∷◌, ◌++◌, Bool, true, false, ◌||◌, not, none,
  some, ◌==◌, ltb, length, take, drop, is_empty, if-true, if-false, Bool-cases, inl, inr,
}
use voodoo.Prelude.Text.{Bytes}
use voodoo.Router.Wire.{
  Message, new_message, payload_num_bytes, store_u32, load_u32, read_u32, read_string, string_at,
}
use voodoo.Router.Endpoints.{invalid_interface_id, closed_message}
use voodoo.Router.Dispatch.{Notice, read_reason, read_rest, read_notice}

load_u32-store_u32 : (n : ℕ) (s : Bytes) → n < 4294967296 → load_u32 (store_u32 n ++ s) ≡ n
load_u32-store_u32 n s h = omega arith

read_u32-at :
    (m : Message) (offset n : ℕ) (s : Bytes)
    → drop offset m.payload ≡ store_u32 n ++ s
    → offset + 4 ≤ payload_num_bytes m
    → n < 4294967296
    → read_u32 m offset ≡ some (n, offset + 4)
unfolding read_u32
read_u32-at m offset n s e h k =
    if-false {b = ltb (payload_num_bytes m) (offset + 4)} none _ (ground arith)
    ∙ ap (λ x. some (x, offset + 4)) (ap load_u32 e ∙ load_u32-store_u32 n s k)

take-length : (s : Bytes) → take (length s) s ≡ s
take-length [] = refl
take-length (c ∷ s) = ap (λ t. c ∷ t) (take-length s)

read_string-at :
    (m : Message) (offset : ℕ) (s : Bytes)
    → drop offset m.payload ≡ store_u32 (length s) ++ s
    → drop (offset + 4) m.payload ≡ s
    → offset + 4 + length s ≤ payload_num_bytes m
    → length s < 4294967296
    → read_string m offset ≡ some (s, offset + 4 + length s)
unfolding read_string
read_string-at m offset s e e' h k =
    ap (string_at m) (read_u32-at m offset (length s) s e (omega arith) k)
    ∙ if-false {b = ltb (payload_num_bytes m) (offset + 4 + length s)} none _ (ground arith)
    ∙ ap (λ x. some (x, offset + 4 + length s)) (ap (take (length s)) e' ∙ take-length s)

-- The two forms of the message.
short_message : ℕ → Message
short_message id = record (new_message 0 0 invalid_interface_id) { payload = store_u32 id }

long_message : ℕ → ℕ → Bytes → Message
long_message id reason s = record (new_message 0 0 invalid_interface_id) {
  payload = store_u32 id ++ store_u32 reason ++ store_u32 (length s) ++ s;
}

short_message-read : (id : ℕ) → id < 4294967296 → read_notice (short_message id) ≡ some (id, 0, [])
unfolding read_notice short_message
short_message-read id h =
    ap (read_rest (short_message id)) (read_u32-at (short_message id) 0 id [] refl (omega arith) h)

long_message-read :
    (id reason : ℕ) (s : Bytes)
    → id < 4294967296
    → reason < 4294967296
    → length s + 12 < 4294967296
    → read_notice (long_message id reason s) ≡ some (id, reason, s)
unfolding read_notice long_message
long_message-read id reason s hi hr hs =
    let m : Message = long_message id reason s in
    ap (read_rest m)
      (read_u32-at m 0 id (store_u32 reason ++ store_u32 (length s) ++ s) refl (omega arith) hi)
    ∙ if-true {b = ltb 4 (payload_num_bytes m)} _ _ (ground arith)
    ∙ ap (read_reason m id)
        (read_u32-at m 4 reason (store_u32 (length s) ++ s) refl (omega arith) hr)
    ∙ ap (λ x. elim x [ none ↦ none | some (description, end) ↦ some (id, reason, description) ])
        (read_string-at m 8 s refl refl (omega arith) (omega arith))

abbrev says_why : ℕ → Bytes → Bool
says_why reason description = not (reason == 0) || not (is_empty description)

closed_message-long :
    (id reason : ℕ) (s : Bytes)
    → says_why reason s ≡ true
    → length s < 4294967296
    → closed_message id reason s ≡ long_message id reason s
unfolding closed_message long_message
closed_message-long id reason s h k =
    if-true _ _ h
    ∙ ap
        (λ n. record (new_message 0 0 invalid_interface_id) {
          payload = store_u32 id ++ store_u32 reason ++ store_u32 n ++ s;
        })
        (omega (arith, k))

closed_message-short :
    (id reason : ℕ) (s : Bytes)
    → says_why reason s ≡ false
    → closed_message id reason s ≡ short_message id
unfolding closed_message short_message
closed_message-short id reason s h = if-false _ _ h

says_nothing :
    (id reason : ℕ) (s : Bytes)
    → says_why reason s ≡ false
    → ◌≡◌ {A = Notice} (id, 0, []) (id, reason, s)
says_nothing id reason [] h = ap (λ n. (id, n, [])) (ground (arith, h))
says_nothing id reason (c ∷ s) h = absurd (ground (arith, h))

-- The message of a router that closes an endpoint, for a reason and with a description of which a
-- uint32_t can count the bytes and twelve more, is read by HandlePipeControlMessage as that endpoint, reason and description.
pub read_notice-closed_message :
    (id custom_reason : ℕ) (description : Bytes)
    → id < 4294967296
    → custom_reason < 4294967296
    → length description + 12 < 4294967296
    → read_notice (closed_message id custom_reason description)
      ≡ some (id, custom_reason, description)
read_notice-closed_message id reason description hi hr hd =
    elim (Bool-cases (says_why reason description)) [
      | inl e ↦
          ap read_notice (closed_message-long id reason description e (omega arith))
          ∙ long_message-read id reason description hi hr hd
      | inr e ↦
          ap read_notice (closed_message-short id reason description e)
          ∙ short_message-read id hi
          ∙ ap some (says_nothing id reason description e)
    ]
