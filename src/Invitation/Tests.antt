-- ===== src/Invitation/Tests.antt =====
-- The theorems about invitations at a concrete input.
use voodoo.Prelude.{arith, ◌≡◌, refl, List, [], ◌∷◌, ◌++◌, true, false, some}
use voodoo.Prelude.Text.{codes}
use voodoo.System.Types.{ok}
use voodoo.Invitation.Frames.{k_invite, k_accept, frame, Arrival, timed_out, datagram, recv_frame}
use voodoo.Invitation.Handshake.{handshake}
use voodoo.Invitation.Laws.{recv_frame-frame, handshake-Noise}

recv_frame-frame_example :
    recv_frame true (datagram (frame 3 (codes "hi"))) ≡ (ok, some (3, codes "hi"))
recv_frame-frame_example = recv_frame-frame 3 (codes "hi") (omega arith)

-- A punch that comes late, and silence.
abbrev noise : List Arrival
noise = datagram (codes "WHP1") ∷ timed_out ∷ []

handshake-Noise_example :
    ((handshake true (λ buf. true) true (noise ++ datagram (frame k_accept (0 ∷ [])) ∷ [])).0 ≡ ok)
    × ((handshake true (λ buf. true) false (noise ++ datagram (frame k_invite (0 ∷ [])) ∷ [])).0
        ≡ ok)
unfolding recv_frame
handshake-Noise_example =
    handshake-Noise (λ buf. true) (λ buf. refl) noise [] (0 ∷ []) (refl, (refl, tt)) (omega arith)
      (omega arith)
