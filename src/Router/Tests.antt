-- ===== src/Router/Tests.antt =====
-- Each theorem about the router at a concrete input.
use voodoo.Prelude.{arith, ◌+◌, ◌≡◌, ◌↔◌, refl, List, [], ◌∷◌, true, false, some}
use voodoo.Prelude.Text.{codes}
use voodoo.Router.Wire.{new_message}
use voodoo.Router.Types.{Router, Clients, new_router}
use voodoo.Router.Endpoints.{mint_interface_id, closed_message}
use voodoo.Router.Dispatch.{
  read_notice, Call, call_accept, call_attach, call_local, call_close, run,
}
use voodoo.Router.Quiet.{Quiet}
use voodoo.Router.Order.{Balanced}
use voodoo.Router.Runs.{arrived, run-Balanced_new}
use voodoo.Router.Notices.{read_notice-closed_message}
use voodoo.Router.Ids.{mint_interface_id_iff}

abbrev quiet_clients : Clients
quiet_clients = record { accepts = λ c m. true; takes = λ c m r. r; runs = λ h r. r }

quiet_clients-Quiet : Quiet quiet_clients
quiet_clients-Quiet = record {
  accepts_all = λ c m. refl;
  takes_only = λ c m r. refl;
  runs_only = λ h r. refl;
}

-- Two messages come before the client and one after it, with one for another endpoint between.
abbrev calls : List Call
calls =
    call_local 7
    ∷ call_accept (new_message 1 0 7)
    ∷ call_accept (new_message 2 0 8)
    ∷ call_accept (new_message 3 0 7)
    ∷ call_attach 7 (some 5)
    ∷ call_accept (new_message 4 0 7)
    ∷ call_close 7
    ∷ []

arrived-calls : arrived 7 calls ≡ new_message 1 0 7 ∷ new_message 3 0 7 ∷ new_message 4 0 7 ∷ []
arrived-calls = refl

run-Balanced_new_example : Balanced 7 (arrived 7 calls) (run quiet_clients calls (new_router false))
run-Balanced_new_example =
    run-Balanced_new quiet_clients quiet_clients-Quiet 7 refl refl false calls

read_notice-closed_message_example :
    read_notice (closed_message 2147483649 9 (codes "bye")) ≡ some (2147483649, 9, codes "bye")
read_notice-closed_message_example =
    read_notice-closed_message 2147483649 9 (codes "bye") (omega arith) (omega arith) (omega arith)

-- A router that has minted 2 ^ 31 ids.
abbrev late_router : Router
late_router = record (new_router false) { next_id_value = 2147483649 }

mint_interface_id_iff_example :
    ((mint_interface_id late_router).0 ≡ (mint_interface_id (new_router true)).0)
    ↔ (2147483649 ≡ 1 + 2147483648)
mint_interface_id_iff_example =
    mint_interface_id_iff late_router (new_router true) refl refl (omega arith)
