-- ===== src/Router/Dispatch.antt =====
-- What arrives at a MultiplexRouter: Accept, HandlePipeControlMessage, OnPipeError, and the calls that
-- say who takes it.
use voodoo.Prelude.{
  ℕ, ◌/◌, ◌%◌, List, [], ◌∷◌, ◌++◌, Bool, true, false, Option, none, some, ◌==◌, ltb, if◌then◌else◌,
}
use voodoo.Prelude.Text.{Bytes}
use voodoo.Router.Wire.{Message, new_message, payload_num_bytes, read_u32, read_string}
use voodoo.Router.Types.{
  Endpoint, Event, primary, delivered, sent, ran, ran_with_reason, raised, Router, Clients, log,
}
use voodoo.Router.Endpoints.{
  invalid_interface_id, primary_interface_id, find, or_new, as_it_is, change_endpoint, change_found,
  retain_endpoint, drop_endpoint_handle, detach_endpoint_client, create_local_endpoint_handle,
  create_pair_pending_association, notify_peer_endpoint_closed, close_endpoint,
}

abbrev pub attach_primary_client : Option ℕ → Router → Router
attach_primary_client client r = record r { primary_client = client }

abbrev pub set_client : Option ℕ → Endpoint → Endpoint
set_client client ep = record ep { client = client }

abbrev pub queue_message : Message → Endpoint → Endpoint
queue_message m ep = record ep { queued_messages = ep.queued_messages ++ m ∷ [] }

abbrev pub set_handler : Option ℕ → Endpoint → Endpoint
set_handler handler ep = record ep { peer_closed_handler = handler }

abbrev pub set_reason_handler : Option ℕ → Endpoint → Endpoint
set_reason_handler handler ep = record ep { peer_closed_with_reason_handler = handler }

abbrev pub set_peer_closed_handler : ℕ → ℕ → Router → Router
set_peer_closed_handler id handler r = change_endpoint id (set_handler (some handler)) r

abbrev pub set_peer_closed_with_reason_handler : ℕ → ℕ → Router → Router
set_peer_closed_with_reason_handler id handler r =
    change_endpoint id (set_reason_handler (some handler)) r

abbrev pub is_response : Message → Bool
is_response m = m.flags / 2 % 2 == 1

-- What a notification holds: the closed id, the reason and the description.
abbrev pub Notice : Type 0
Notice = ℕ × ℕ × Bytes

-- What follows the id, if the payload goes on.
abbrev pub read_reason : Message → ℕ → Option (ℕ × ℕ) → Option Notice
read_reason m id none = none
read_reason m id (some (reason, offset)) = elim (read_string m offset) [
  | none ↦ none
  | some (description, end) ↦ some (id, reason, description)
]

abbrev pub read_rest : Message → Option (ℕ × ℕ) → Option Notice
read_rest m none = none
read_rest m (some (id, offset)) =
    if ltb offset (payload_num_bytes m)
    then read_reason m id (read_u32 m offset)
    else some (id, 0, [])

-- The readings of HandlePipeControlMessage.
unfoldable pub read_notice : Message → Option Notice
unfolding read_u32 read_string
read_notice m = read_rest m (read_u32 m 0)

abbrev pub client_at : Option Endpoint → Option ℕ
client_at none = none
client_at (some ep) = ep.client

abbrev pub clear_queue : Endpoint → Endpoint
clear_queue ep = record ep { queued_messages = [] }

-- What is called on a router, by its owner or by the connector.
pub data Call : Type 0 where
  call_accept : Message → Call
  call_attach : (id : ℕ) (client : Option ℕ) → Call
  call_detach call_close call_retain call_drop call_local : (id : ℕ) → Call
  call_pair : Call
  call_primary : (client : Option ℕ) → Call
  call_on_closed call_on_closed_with_reason : (id handler : ℕ) → Call
  call_notify : (id reason : ℕ) (description : Bytes) → Call
  call_on_error call_on_error_with_reason : (handler : ℕ) → Call
  call_pipe_error : Call

module _ (clients : Clients) where
  -- `std::move(handler).Run(...)`, whose event is given.
  abbrev pub run_handler : ℕ → Event → Router → Router
  run_handler handler event r = clients.runs handler (log event r)

  -- The handlers of an endpoint whose peer has closed; the one that runs is used up.
  abbrev pub run_closed : ℕ → ℕ → Bytes → Option Endpoint → Router → Router
  run_closed id reason description none r = r
  run_closed id reason description (some ep) r = elim ep.peer_closed_with_reason_handler [
    | some h ↦
        run_handler h (ran_with_reason h reason description)
          (change_found id (set_reason_handler none) r)
    | none ↦ elim ep.peer_closed_handler [
      | some h ↦ run_handler h (ran h) (change_found id (set_handler none) r)
      | none ↦ r
    ]
  ]

  abbrev pub handle_notice : Option Notice → Router → Bool × Router
  handle_notice none r = (false, r)
  handle_notice (some (id, reason, description)) r =
      let noted =
        if id == primary_interface_id
        then record r { disconnect_custom_reason = reason; disconnect_description = description }
        else r in
      (true, run_closed id reason description (find id r.endpoints) noted)

  -- HandlePipeControlMessage
  unfoldable pub handle_pipe_control_message : Message → Router → Bool × Router
  unfolding read_notice find change_found
  handle_pipe_control_message m r =
      if m.name == 1
      then (if is_response m then (true, record r { flush_done = true }) else (
        true,
        log (sent (record (new_message 1 2 invalid_interface_id) { request_id = m.request_id })) r,
      ))
      else handle_notice (read_notice m) r

  -- OnPipeError
  unfoldable pub on_pipe_error : Router → Router
  on_pipe_error r = elim r.connection_error_with_reason_handler [
    | some h ↦
        run_handler h (ran_with_reason h r.disconnect_custom_reason r.disconnect_description)
          (record r { connection_error_with_reason_handler = none })
    | none ↦ elim r.connection_error_handler [
      | some h ↦ run_handler h (ran h) (record r { connection_error_handler = none })
      | none ↦ r
    ]
  ]

  -- A client's Accept.
  abbrev pub give : Event → ℕ → Message → Router → Bool × Router
  give event client m r = (clients.accepts client m, clients.takes client m (log event r))

  abbrev pub primary_at : Option ℕ → Message → Router → Bool × Router
  primary_at (some c) m r = give (primary c m) c m r
  primary_at none m r = (true, r)

  abbrev pub accept_primary : Message → Router → Bool × Router
  accept_primary m r = primary_at r.primary_client m r

  -- The end of Accept, with the client of the endpoint.
  abbrev pub accept_at : ℕ → Message → Option ℕ → Router → Bool × Router
  accept_at id m (some c) r = give (delivered id c m) c m r
  accept_at id m none r = (true, change_endpoint id (queue_message m) r)

  -- Accept
  unfoldable pub accept : Message → Router → Bool × Router
  unfolding handle_pipe_control_message find change_endpoint
  accept m r =
      let id = m.interface_id in
      if id == invalid_interface_id
      then handle_pipe_control_message m r
      else if id == primary_interface_id
      then accept_primary m r
      else accept_at id m (or_new (find id r.endpoints)).client (change_endpoint id as_it_is r)

  -- The loop over the messages that had waited; an endpoint that is gone has no client.
  unfoldable pub deliver_all : ℕ → List Message → Router → Router
  unfolding find
  deliver_all id [] r = r
  deliver_all id (m ∷ ms) r = elim (client_at (find id r.endpoints)) [
    | none ↦ log raised r
    | some c ↦
        let taken = clients.takes c m (log (delivered id c m) r) in
        let rest = deliver_all id ms taken in if clients.accepts c m then rest else log raised taken
  ]

  -- AttachEndpointClient
  unfoldable pub attach_endpoint_client : ℕ → Option ℕ → Router → Router
  unfolding deliver_all change_endpoint find
  attach_endpoint_client id client r =
      let attached = change_endpoint id (set_client client) r in
      let queued = (or_new (find id r.endpoints)).queued_messages in
      elim client [
        | none ↦ attached
        | some c ↦ elim queued [
          | [] ↦ attached
          | m ∷ ms ↦ deliver_all id (m ∷ ms) (change_endpoint id clear_queue attached)
        ]
      ]

  unfoldable pub step : Call → Router → Router
  unfolding accept attach_endpoint_client detach_endpoint_client close_endpoint retain_endpoint
      drop_endpoint_handle create_local_endpoint_handle create_pair_pending_association
      on_pipe_error
  step (call_accept m) r = (accept m r).1
  step (call_attach id client) r = attach_endpoint_client id client r
  step (call_detach id) r = detach_endpoint_client id r
  step (call_close id) r = close_endpoint id r
  step (call_retain id) r = retain_endpoint id r
  step (call_drop id) r = drop_endpoint_handle id r
  step (call_local id) r = create_local_endpoint_handle id r
  step call_pair r = (create_pair_pending_association r).1
  step (call_primary client) r = attach_primary_client client r
  step (call_on_closed id h) r = set_peer_closed_handler id h r
  step (call_on_closed_with_reason id h) r = set_peer_closed_with_reason_handler id h r
  step (call_notify id reason description) r = notify_peer_endpoint_closed id reason description r
  step (call_on_error h) r = record r { connection_error_handler = some h }
  step (call_on_error_with_reason h) r = record r { connection_error_with_reason_handler = some h }
  step call_pipe_error r = on_pipe_error r

  abbrev pub run : List Call → Router → Router
  run [] r = r
  run (c ∷ cs) r = run cs (step c r)
