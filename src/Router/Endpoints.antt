-- ===== src/Router/Endpoints.antt =====
-- The operations of MultiplexRouter on its endpoints.
use voodoo.Prelude.{
  ℕ, suc, ◌+◌, ◌-◌, ◌%◌, ◌^◌, List, [], ◌∷◌, Bool, false, ◌&&◌, ◌||◌, not, Option, none, some, ◌==◌,
  ltb, if◌then◌else◌, is_empty, remove_if,
}
use voodoo.Prelude.Text.{Bytes}
use voodoo.Router.Wire.{Message, new_message, write_u32, write_string}
use voodoo.Router.Types.{Endpoint, new_endpoint, sent, Router, log}

abbrev pub invalid_interface_id : ℕ
invalid_interface_id = 4294967295

abbrev pub primary_interface_id : ℕ
primary_interface_id = 0

-- `endpoints_.find(id)`
unfoldable pub find : ℕ → List (ℕ × Endpoint) → Option Endpoint
find id [] = none
find id ((k, ep) ∷ eps) = let rest = find id eps in if k == id then some ep else rest

-- A write through the reference to the endpoint of `id`, which is made if it is not there.
unfoldable pub put : ℕ → Endpoint → List (ℕ × Endpoint) → List (ℕ × Endpoint)
put id ep [] = (id, ep) ∷ []
put id ep ((k, e) ∷ eps) =
    let rest = put id ep eps in if k == id then (id, ep) ∷ eps else (k, e) ∷ rest

unfoldable pub erase : ℕ → List (ℕ × Endpoint) → List (ℕ × Endpoint)
erase id eps = remove_if (λ e. e.0 == id) eps

abbrev pub or_new : Option Endpoint → Endpoint
or_new none = new_endpoint
or_new (some ep) = ep

-- FindOrCreateEndpoint, and a change of the endpoint.
unfoldable pub change_endpoint : ℕ → (Endpoint → Endpoint) → Router → Router
unfolding find put
change_endpoint id f r = record r {
  endpoints = put id (f (or_new (find id r.endpoints))) r.endpoints;
}

-- A change of the endpoint if it is there.
unfoldable pub change_found : ℕ → (Endpoint → Endpoint) → Router → Router
unfolding find put
change_found id f r = elim (find id r.endpoints) [
  | none ↦ r
  | some ep ↦ record r { endpoints = put id (f ep) r.endpoints }
]

abbrev pub no_client : Endpoint → Endpoint
no_client ep = record ep { client = none }

abbrev pub one_ref_more : Endpoint → Endpoint
one_ref_more ep = record ep { refs = suc ep.refs }

-- `if (refs > 0) refs--`
abbrev pub one_ref_less : Endpoint → Endpoint
one_ref_less ep = record ep { refs = ep.refs - 1 }

abbrev pub as_it_is : Endpoint → Endpoint
as_it_is ep = ep

-- MintInterfaceId
unfoldable pub mint_interface_id : Router → ℕ × Router
mint_interface_id r =
    let id = r.next_id_value in
    (
      if r.namespace_bit && ltb id 2147483648 then id + 2147483648 else id,
      record r { next_id_value = (r.next_id_value + 1) % 2 ^ 32 },
    )

abbrev pub is_unused : Endpoint → Bool
is_unused ep = elim ep.client [
  | some c ↦ false
  | none ↦ ep.refs == 0 && is_empty ep.queued_messages
]

-- MaybeEraseEndpoint
unfoldable pub maybe_erase_endpoint : ℕ → Router → Router
unfolding find erase
maybe_erase_endpoint id r = elim (find id r.endpoints) [
  | none ↦ r
  | some ep ↦ if is_unused ep then record r { endpoints = erase id r.endpoints } else r
]

-- RetainEndpoint
unfoldable pub retain_endpoint : ℕ → Router → Router
unfolding change_endpoint
retain_endpoint id r = change_endpoint id one_ref_more r

-- DropEndpointHandle: without the endpoint both parts do nothing.
unfoldable pub drop_endpoint_handle : ℕ → Router → Router
unfolding change_found maybe_erase_endpoint
drop_endpoint_handle id r = maybe_erase_endpoint id (change_found id one_ref_less r)

-- DetachEndpointClient
unfoldable pub detach_endpoint_client : ℕ → Router → Router
unfolding change_found maybe_erase_endpoint
detach_endpoint_client id r = maybe_erase_endpoint id (change_found id no_client r)

-- CreatePairPendingAssociation and CreateLocalEndpointHandle, with the handle's RetainEndpoint.
unfoldable pub create_local_endpoint_handle : ℕ → Router → Router
unfolding change_endpoint retain_endpoint
create_local_endpoint_handle id r = retain_endpoint id (change_endpoint id as_it_is r)

unfoldable pub create_pair_pending_association : Router → ℕ × Router
unfolding create_local_endpoint_handle mint_interface_id
create_pair_pending_association r =
    let (id, r') = mint_interface_id r in (id, create_local_endpoint_handle id r')

-- NotifyPeerEndpointClosed
unfoldable pub closed_message : ℕ → ℕ → Bytes → Message
unfolding write_u32 write_string
closed_message id custom_reason description =
    let message = write_u32 (new_message 0 0 invalid_interface_id) id in
    if not (custom_reason == 0) || not (is_empty description)
    then write_string (write_u32 message custom_reason) description
    else message

abbrev pub notify_peer_endpoint_closed : ℕ → ℕ → Bytes → Router → Router
notify_peer_endpoint_closed id custom_reason description r =
    log (sent (closed_message id custom_reason description)) r

-- CloseEndpoint
unfoldable pub close_endpoint : ℕ → Router → Router
unfolding closed_message change_found drop_endpoint_handle
close_endpoint id r =
    drop_endpoint_handle id (change_found id no_client (notify_peer_endpoint_closed id 0 [] r))
