-- ===== src/Invitation/Frames.antt =====
-- SendFrame and RecvFrame.
use voodoo.Prelude.{
  ℕ, ◌+◌, ◌*◌, ◌/◌, ◌%◌, [], ◌∷◌, ◌++◌, Bool, true, false, not, ◌||◌, Option, none, some, ltb,
  if◌then◌else◌, length, take, drop,
}
use voodoo.Prelude.Text.{Bytes, codes, same_text}
use voodoo.System.Types.{WhpResult, ok, unknown, invalid_argument, data_loss, should_wait}

abbrev pub magic : Bytes
magic = codes "WHP2"

-- enum FrameType
abbrev pub k_invite : ℕ
k_invite = 1

abbrev pub k_accept : ℕ
k_accept = 2

-- WriteU16LE and ReadU16LE.
abbrev pub write_u16_le : ℕ → Bytes
write_u16_le v = v % 256 ∷ v / 256 % 256 ∷ []

abbrev pub read_u16_le : Bytes → ℕ
read_u16_le (a ∷ b ∷ s) = a + 256 * b
read_u16_le _ = 0

-- The buffer that SendFrame fills.
unfoldable pub frame : ℕ → Bytes → Bytes
frame type payload = magic ++ type ∷ 0 ∷ write_u16_le (length payload % 65536) ++ payload

-- SendFrame, with what `path_.is_valid()` says and whether `path_.Send` sends a whole buffer: the
-- result, and the buffer handed to Send.
unfoldable pub send_frame : Bool → (Bytes → Bool) → ℕ → Bytes → WhpResult × Option Bytes
unfolding frame
send_frame valid sends type payload =
    if not valid || ltb 65535 (length payload)
    then (invalid_argument, none)
    else ((if sends (frame type payload) then ok else unknown), some (frame type payload))

-- What Poll and `path_.Recv` come to: no socket ready in time, a failed Poll, a Recv that would block
-- or fails otherwise, or a datagram, of which Recv gives as much as its buffer holds.
pub data Arrival : Type 0 where
  timed_out poll_failed would_block recv_failed : Arrival
  datagram : Bytes → Arrival

-- A result with, where it is ok, the type and the payload.
abbrev pub Received : Type 0
Received = WhpResult × Option (ℕ × Bytes)

abbrev pub frame_of : Bytes → Received
frame_of buf =
    let len = read_u16_le (drop 6 buf) in
    if ltb (length buf) 8 || not (same_text (take 4 buf) magic)
    then (should_wait, none)
    else if ltb (length buf) (8 + len)
    then (data_loss, none)
    else (ok, some (read_first (drop 4 buf), take len (drop 8 buf)))
  where
    read_first : Bytes → ℕ
    read_first [] = 0
    read_first (c ∷ s) = c

-- RecvFrame
unfoldable pub recv_frame : Bool → Arrival → Received
recv_frame false a = (invalid_argument, none)
recv_frame true timed_out = (should_wait, none)
recv_frame true poll_failed = (unknown, none)
recv_frame true would_block = (should_wait, none)
recv_frame true recv_failed = (unknown, none)
recv_frame true (datagram d) = frame_of (take 65536 d)
