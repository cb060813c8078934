-- ===== src/Router/Types.antt =====
-- The state of a MultiplexRouter. A client or a handler is a number; what it does is a parameter.
use voodoo.Prelude.{ℕ, List, [], ◌∷◌, ◌++◌, Bool, false, Option, none}
use voodoo.Prelude.Text.{Bytes}
use voodoo.Router.Wire.{Message}

-- The struct Endpoint. `refs`, an int, is only counted down where it is above 0.
pub record Endpoint : Type 0 where
  pub client : Option ℕ
  pub queued_messages : List Message
  pub peer_closed_handler : Option ℕ
  pub peer_closed_with_reason_handler : Option ℕ
  pub refs : ℕ

abbrev pub new_endpoint : Endpoint
new_endpoint = record {
  client = none;
  queued_messages = [];
  peer_closed_handler = none;
  peer_closed_with_reason_handler = none;
  refs = 0;
}

-- What the router does to others, in order: a message handed to the primary client or to the client
-- of an endpoint, a message handed to the connector, a handler run, and Connector::RaiseError.
pub data Event : Type 0 where
  primary : (client : ℕ) (message : Message) → Event
  delivered : (id client : ℕ) (message : Message) → Event
  sent : Message → Event
  ran : (handler : ℕ) → Event
  ran_with_reason : (handler reason : ℕ) (description : Bytes) → Event
  raised : Event

pub record Router : Type 0 where
  pub namespace_bit : Bool
  pub next_id_value : ℕ
  pub endpoints : List (ℕ × Endpoint)
  pub primary_client : Option ℕ
  pub connection_error_handler : Option ℕ
  pub connection_error_with_reason_handler : Option ℕ
  pub disconnect_custom_reason : ℕ
  pub disconnect_description : Bytes
  pub flush_done : Bool
  pub events : List Event

abbrev pub new_router : Bool → Router
new_router set_namespace_bit = record {
  namespace_bit = set_namespace_bit;
  next_id_value = 1;
  endpoints = [];
  primary_client = none;
  connection_error_handler = none;
  connection_error_with_reason_handler = none;
  disconnect_custom_reason = 0;
  disconnect_description = [];
  flush_done = false;
  events = [];
}

-- The clients and the handlers: whether a client's Accept says true, and what a client or a handler
-- does to the router while it runs.
pub record Clients : Type 0 where
  pub accepts : ℕ → Message → Bool
  pub takes : ℕ → Message → Router → Router
  pub runs : ℕ → Router → Router

abbrev pub log : Event → Router → Router
log e r = record r { events = r.events ++ e ∷ [] }
