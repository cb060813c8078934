-- ===== src/Invitation/Handshake.antt =====
-- Handshake. The arrivals are those that the calls of RecvFrame come to, in order, and none after
-- their end; a result comes with the buffers handed to Send.
use voodoo.Prelude.{
  ℕ, zero, suc, ◌%◌, List, [], ◌∷◌, Bool, true, false, ◌&&◌, Option, none, some, ◌==◌, ltb,
  if◌then◌else◌,
}
use voodoo.Prelude.Text.{Bytes}
use voodoo.System.Types.{WhpResult, ok, unknown, deadline_exceeded, should_wait}
use voodoo.Invitation.Frames.{
  k_invite, k_accept, send_frame, Arrival, timed_out, Received, recv_frame,
}

abbrev pub head_arrival : List Arrival → Arrival
head_arrival [] = timed_out
head_arrival (a ∷ arrivals) = a

abbrev pub rest_arrivals : List Arrival → List Arrival
rest_arrivals [] = []
rest_arrivals (a ∷ arrivals) = arrivals

-- Whether a result is WHP_RESULT_OK.
abbrev pub is_ok : WhpResult → Bool
is_ok ok = true
is_ok _ = false

module _ (valid : Bool) (sends : Bytes → Bool) where
  abbrev pub Outcome : Type 0
  Outcome = WhpResult × List Bytes

  -- The outcome of a call of SendFrame put in front of what follows.
  abbrev pub also_sent : Option Bytes → Outcome → Outcome
  also_sent none o = o
  also_sent (some buf) (r, bufs) = (r, buf ∷ bufs)

  -- SendFrame with the role arrivals the payload.
  abbrev pub send_role : ℕ → ℕ → WhpResult × Option Bytes
  send_role type role = send_frame valid sends type (role ∷ [])

  -- What the offerer's loop makes of a frame, with what the loop would go on to.
  abbrev pub offer_round : Received → Outcome → Outcome
  offer_round (should_wait, f) next = next
  offer_round (ok, some (type, payload)) next =
      if type == k_accept
      then (ok, [])
      else if type == k_invite
      then also_sent (send_role k_accept 1).1 (ok, [])
      else next
  offer_round (r, f) next = (r, [])

  -- `n` more rounds of the offerer's loop, from round `i`.
  unfoldable pub offer_loop : ℕ → ℕ → List Arrival → Outcome
  unfolding send_frame recv_frame
  offer_loop zero i arrivals = (deadline_exceeded, [])
  offer_loop (suc n) i arrivals =
      let next = offer_loop n (suc i) (rest_arrivals arrivals) in
      let round = offer_round (recv_frame valid (head_arrival arrivals)) next in
      if ltb 0 i && i % 8 == 0 then also_sent (send_role k_invite 1).1 round else round

  -- What the other side's loop makes of a frame.
  abbrev pub answer_round : Received → Outcome → Outcome
  answer_round (should_wait, f) next = next
  answer_round (ok, some (type, payload)) next =
      if type == k_invite
      then also_sent (send_role k_accept 0).1 ((send_role k_accept 0).0, [])
      else next
  answer_round (r, f) next = (r, [])

  unfoldable pub answer_loop : ℕ → List Arrival → Outcome
  unfolding send_frame recv_frame
  answer_loop zero arrivals = (deadline_exceeded, [])
  answer_loop (suc n) arrivals =
      let next = answer_loop n (rest_arrivals arrivals) in
      answer_round (recv_frame valid (head_arrival arrivals)) next

  -- Handshake
  unfoldable pub handshake : Bool → List Arrival → Outcome
  unfolding offer_loop answer_loop
  handshake true arrivals =
      if is_ok (send_role k_invite 1).0
      then also_sent (send_role k_invite 1).1 (offer_loop 80 0 arrivals)
      else also_sent (send_role k_invite 1).1 (unknown, [])
  handshake false arrivals = answer_loop 80 arrivals
