-- ===== src/Invitation/Laws.antt =====
-- Frames from SendFrame to RecvFrame, and the handshake behind noise.
use voodoo.Prelude.{
  arith, ℕ, zero, suc, ◌+◌, ◌*◌, ◌/◌, ◌%◌, ◌<◌, ◌≤◌, ◌≡◌, refl, sym, ap, ◌∙◌, List, [], ◌∷◌, ◌++◌,
  Bool, true, false, not, ◌&&◌, ◌||◌, Option, none, some, ltb, leb, ◌==◌, if◌then◌else◌, length,
  take, if-true, if-false, All, Bool-cases, inl, inr,
}
use voodoo.Prelude.Text.{Bytes}
use voodoo.System.Types.{WhpResult, ok, data_loss, should_wait}
use voodoo.Invitation.Frames.{
  k_invite, k_accept, frame, send_frame, Arrival, datagram, Received, frame_of, recv_frame,
}
use voodoo.Invitation.Handshake.{
  is_ok, handshake, offer_loop, answer_loop, offer_round, answer_round, also_sent, send_role,
}

take-all {ℓ} : {A : Type ℓ} (n : ℕ) (xs : List A) → length xs ≤ n → take n xs ≡ xs
take-all zero [] h = refl
take-all zero (x ∷ xs) h = absurd (omega arith)
take-all (suc n) [] h = refl
take-all (suc n) (x ∷ xs) h = ap (λ ys. x ∷ ys) (take-all n xs (omega arith))

length-take_full {ℓ} : {A : Type ℓ} (n : ℕ) (xs : List A) → n ≤ length xs → length (take n xs) ≡ n
length-take_full zero xs h = refl
length-take_full (suc n) [] h = absurd (omega arith)
length-take_full (suc n) (x ∷ xs) h = ap suc (length-take_full n xs (omega arith))

-- A frame whose payload may have been cut.
abbrev cut_frame : ℕ → ℕ → Bytes → Bytes
cut_frame type len rest = b'W' ∷ b'H' ∷ b'P' ∷ b'2' ∷ type ∷ 0 ∷ len % 256 ∷ len / 256 % 256 ∷ rest

-- What RecvFrame answers where the header says `len`.
abbrev verdict : ℕ → Bytes → ℕ → Received
verdict type rest len =
    if ltb (length (cut_frame type 0 rest)) (8 + len)
    then (data_loss, none)
    else (ok, some (type, take len rest))

frame_of-cut_frame :
    (type len : ℕ) (rest : Bytes)
    → len < 65536
    → frame_of (cut_frame type len rest) ≡ verdict type rest len
frame_of-cut_frame type len rest h =
    if-false {b = ltb (length (cut_frame type len rest)) 8 || false} (should_wait, none) _
      (ground arith)
    ∙ ap (verdict type rest) read_back
  where
    read_back : len % 256 + 256 * (len / 256 % 256) ≡ len
    read_back = omega (arith, h)

-- The eight bytes of the header, and what follows them.
abbrev with_header : ℕ → ℕ
with_header n = suc (suc (suc (suc (suc (suc (suc (suc n)))))))

holds_whole : (n : ℕ) → ltb (with_header n) (8 + n) ≡ false
holds_whole n = ground arith

misses_some : (m n : ℕ) → m < n → ltb (with_header m) (8 + n) ≡ true
misses_some m n h = ground arith

is_longer : (n : ℕ) → leb n 65528 ≡ false → 65528 < n
is_longer n h = ground arith

-- A frame that SendFrame accepts, once it comes in as one datagram, is received with its type and its
-- payload if the payload has at most 65528 bytes, and is answered with data_loss if it has more.
pub recv_frame-frame :
    (type : ℕ) (payload : Bytes)
    → length payload < 65536
    → recv_frame true (datagram (frame type payload))
      ≡ (if leb (length payload) 65528 then (ok, some (type, payload)) else (data_loss, none))
unfolding recv_frame frame
recv_frame-frame type payload h =
    ap (λ n. frame_of (take 65536 (cut_frame type n payload))) whole
    ∙ frame_of-cut_frame type (length payload) (take 65528 payload) h
    ∙ elim (Bool-cases (leb (length payload) 65528)) [
      | inl short ↦
          ap (λ q. verdict type q (length payload)) (take-all 65528 payload (ground (arith, short)))
          ∙ if-false (data_loss, none) _ (holds_whole (length payload))
          ∙ ap (λ q. (ok, some (type, q))) (take-all (length payload) payload (omega arith))
          ∙ sym (if-true _ _ short)
      | inr long ↦
          if-true (data_loss, none) _
            (misses_some (length (take 65528 payload)) (length payload) (
              omega (
                arith,
                length-take_full 65528 payload (omega (arith, is_longer (length payload) long)),
                is_longer (length payload) long,
              )))
          ∙ sym (if-false _ _ long)
    ]
  where
    whole : length payload % 65536 ≡ length payload
    whole = omega (arith, h)

-- What a loop of the handshake passes over: nothing in time, what is no frame, and frames that are
-- neither an invitation nor an acceptance.
abbrev pub is_noise : WhpResult × Option (ℕ × Bytes) → Bool
is_noise (should_wait, f) = true
is_noise (ok, some (type, payload)) = not (type == k_accept) && not (type == k_invite)
is_noise _ = false

abbrev pub Noise : Arrival → Type 0
Noise a = is_noise (recv_frame true a) ≡ true

module _ (valid : Bool) (sends : Bytes → Bool) where
  offer_round-Noise :
      (r : WhpResult) (f : Option (ℕ × Bytes)) (next : WhpResult × List Bytes)
      → is_noise (r, f) ≡ true
      → offer_round valid sends (r, f) next ≡ next
  offer_round-Noise r f next h = ground (arith, h)

  also_sent-result :
      (o : Option Bytes) (x : WhpResult × List Bytes) → (also_sent valid sends o x).0 ≡ x.0
  also_sent-result none x = refl
  also_sent-result (some buf) (r, bufs) = refl

  answer_round-Noise :
      (r : WhpResult) (f : Option (ℕ × Bytes)) (next : WhpResult × List Bytes)
      → is_noise (r, f) ≡ true
      → answer_round valid sends (r, f) next ≡ next
  answer_round-Noise r f next h = ground (arith, h)

  resent-result :
      (b : Bool) (o : Option Bytes) (x : WhpResult × List Bytes)
      → (if b then also_sent valid sends o x else x).0 ≡ x.0
  resent-result true o x = also_sent-result o x
  resent-result false o x = refl

module _ (sends : Bytes → Bool) (whole : (buf : Bytes) → sends buf ≡ true) where
  send_role-ok : (type role : ℕ) → (send_role true sends type role).0 ≡ ok
  unfolding send_frame
  send_role-ok type role = if-true _ _ (whole (frame type (role ∷ [])))

  offer_loop-Noise :
      (n i : ℕ) (noise : List Arrival) (a : Arrival) (rest : List Arrival) (payload : Bytes)
      → All Noise noise
      → length noise < n
      → recv_frame true a ≡ (ok, some (k_accept, payload))
      → (offer_loop true sends n i (noise ++ a ∷ rest)).0 ≡ ok
  unfolding offer_loop
  offer_loop-Noise zero i noise a rest payload h k e = absurd (omega arith)
  offer_loop-Noise (suc n) i [] a rest payload h k e =
      resent-result true sends (ltb 0 i && i % 8 == 0) (send_role true sends k_invite 1).1
        (offer_round true sends (recv_frame true a) (offer_loop true sends n (suc i) rest))
      ∙ ap (λ r. (offer_round true sends r (offer_loop true sends n (suc i) rest)).0) e
  offer_loop-Noise (suc n) i (x ∷ noise) a rest payload h k e =
      resent-result true sends (ltb 0 i && i % 8 == 0) (send_role true sends k_invite 1).1 (
        offer_round true sends (recv_frame true x)
          (offer_loop true sends n (suc i) (noise ++ a ∷ rest)))
      ∙ ap (λ o. o.0)
          (offer_round-Noise true sends (recv_frame true x).0 (recv_frame true x).1
            (offer_loop true sends n (suc i) (noise ++ a ∷ rest)) h.0)
      ∙ offer_loop-Noise n (suc i) noise a rest payload h.1 (omega arith) e

  answer_loop-Noise :
      (n : ℕ) (noise : List Arrival) (a : Arrival) (rest : List Arrival) (payload : Bytes)
      → All Noise noise
      → length noise < n
      → recv_frame true a ≡ (ok, some (k_invite, payload))
      → (answer_loop true sends n (noise ++ a ∷ rest)).0 ≡ ok
  unfolding answer_loop
  answer_loop-Noise zero noise a rest payload h k e = absurd (omega arith)
  answer_loop-Noise (suc n) [] a rest payload h k e =
      ap (λ r. (answer_round true sends r (answer_loop true sends n rest)).0) e
      ∙ also_sent-result true sends (send_role true sends k_accept 0).1
          ((send_role true sends k_accept 0).0, [])
      ∙ send_role-ok k_accept 0
  answer_loop-Noise (suc n) (x ∷ noise) a rest payload h k e =
      ap (λ o. o.0)
        (answer_round-Noise true sends (recv_frame true x).0 (recv_frame true x).1
          (answer_loop true sends n (noise ++ a ∷ rest)) h.0)
      ∙ answer_loop-Noise n noise a rest payload h.1 (omega arith) e

-- Over a path that sends whole buffers, behind fewer than 80 arrivals that are noise, the handshake
-- of the offerer succeeds on the acceptance that comes next, and that of the other side on the
-- invitation that comes next, each with a payload of at most 65528 bytes.
pub handshake-Noise :
    (sends : Bytes → Bool)
    → ((buf : Bytes) → sends buf ≡ true)
    → (noise rest : List Arrival) (payload : Bytes) → All Noise noise
    → length noise < 80
    → length payload ≤ 65528
    → ((handshake true sends true (noise ++ datagram (frame k_accept payload) ∷ rest)).0 ≡ ok)
      × ((handshake true sends false (noise ++ datagram (frame k_invite payload) ∷ rest)).0 ≡ ok)
unfolding handshake
handshake-Noise sends whole noise rest payload h k l = (
  ap (λ (o : WhpResult × List Bytes). o.0)
        (if-true _ _ (ap is_ok (send_role-ok sends whole k_invite 1)))
      ∙ also_sent-result true sends (send_role true sends k_invite 1).1
          (offer_loop true sends 80 0 arrivals)
      ∙ offer_loop-Noise sends whole 80 0 noise (datagram (frame k_accept payload)) rest payload h k
          (comes k_accept),
  answer_loop-Noise sends whole 80 noise (datagram (frame k_invite payload)) rest payload h k
      (comes k_invite),
)
  where
    arrivals : List Arrival
    arrivals = noise ++ datagram (frame k_accept payload) ∷ rest

    comes :
        (type : ℕ) → recv_frame true (datagram (frame type payload)) ≡ (ok, some (type, payload))
    comes type =
        recv_frame-frame type payload (omega arith)
        ∙ if-true {b = leb (length payload) 65528} _ _ (ground (arith, l))
