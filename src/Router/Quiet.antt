-- ===== src/Router/Quiet.antt =====
-- The calls that neither bring a message to an endpoint nor give it a client.
use voodoo.Prelude.{
  ℕ, ◌≡◌, refl, sym, ap, subst, ◌∙◌, inl, inr, [], ◌∷◌, ◌++◌, Bool, true, false, Option, none, some,
  ◌==◌, if◌then◌else◌, append-nil,
}
use voodoo.Prelude.Text.{Bytes}
use voodoo.Router.Wire.{Message, new_message}
use voodoo.Router.Types.{Endpoint, Event, sent, ran, ran_with_reason, Router, Clients, log}
use voodoo.Router.Endpoints.{
  find, no_client, one_ref_more, one_ref_less, as_it_is, change_found, retain_endpoint,
  drop_endpoint_handle, detach_endpoint_client, create_local_endpoint_handle,
  create_pair_pending_association, mint_interface_id, close_endpoint, closed_message,
  invalid_interface_id, primary_interface_id,
}
use voodoo.Router.Dispatch.{
  set_handler, set_reason_handler, is_response, Notice, read_notice, run_handler, run_closed,
  handle_notice, handle_pipe_control_message, on_pipe_error,
}
use voodoo.Router.Delivery.{
  delivered_to, delivered_to-append, Same, Same-refl, Same-trans, Same-if, change_endpoint-Same,
  change_found-Same, maybe_erase_endpoint-Same,
}

-- Clients that take every message, and clients and handlers that do not call the router.
pub record Quiet (clients : Clients) : Type 0 where
  pub accepts_all : (c : ℕ) (m : Message) → clients.accepts c m ≡ true
  pub takes_only : (c : ℕ) (m : Message) (r : Router) → clients.takes c m r ≡ r
  pub runs_only : (h : ℕ) (r : Router) → clients.runs h r ≡ r

module _ (clients : Clients) (quiet : Quiet clients) (id : ℕ) where
  pub log-Same : (e : Event) (r : Router) → delivered_to id (e ∷ []) ≡ [] → Same id r (log e r)
  log-Same e r h = record {
    same_delivered =
        delivered_to-append id r.events (e ∷ [])
        ∙ ap (λ ms. delivered_to id r.events ++ ms) h
        ∙ append-nil _;
    same_queue = refl;
    same_client = inl refl;
  }

  pub drop_endpoint_handle-Same : (k : ℕ) (r : Router) → Same id r (drop_endpoint_handle k r)
  unfolding drop_endpoint_handle
  drop_endpoint_handle-Same k r =
      Same-trans id (change_found-Same id k one_ref_less r (λ ep. refl, λ ep. inl refl))
        (maybe_erase_endpoint-Same id k _)

  pub detach_endpoint_client-Same : (k : ℕ) (r : Router) → Same id r (detach_endpoint_client k r)
  unfolding detach_endpoint_client
  detach_endpoint_client-Same k r =
      Same-trans id (change_found-Same id k no_client r (λ ep. refl, λ ep. inr refl))
        (maybe_erase_endpoint-Same id k _)

  pub close_endpoint-Same : (k : ℕ) (r : Router) → Same id r (close_endpoint k r)
  unfolding close_endpoint
  close_endpoint-Same k r = Same-trans id (log-Same (sent (closed_message k 0 [])) r refl) (
      Same-trans id (change_found-Same id k no_client _ (λ ep. refl, λ ep. inr refl))
        (drop_endpoint_handle-Same k _))

  pub retain_endpoint-Same : (k : ℕ) (r : Router) → Same id r (retain_endpoint k r)
  unfolding retain_endpoint
  retain_endpoint-Same k r = change_endpoint-Same id k one_ref_more r (λ ep. refl, λ ep. inl refl)

  pub create_local_endpoint_handle-Same :
      (k : ℕ) (r : Router) → Same id r (create_local_endpoint_handle k r)
  unfolding create_local_endpoint_handle
  create_local_endpoint_handle-Same k r =
      Same-trans id (change_endpoint-Same id k as_it_is r (λ ep. refl, λ ep. inl refl))
        (retain_endpoint-Same k _)

  pub create_pair_pending_association-Same :
      (r : Router) → Same id r (create_pair_pending_association r).1
  unfolding create_pair_pending_association mint_interface_id
  create_pair_pending_association-Same r =
      Same-trans id (record { same_delivered = refl; same_queue = refl; same_client = inl refl })
        (create_local_endpoint_handle-Same (mint_interface_id r).0 (mint_interface_id r).1)

  pub run_handler-Same :
      (h : ℕ) (e : Event) (r : Router)
      → delivered_to id (e ∷ []) ≡ []
      → Same id r (run_handler clients h e r)
  run_handler-Same h e r k = subst (Same id r) (sym (quiet.runs_only h (log e r))) (log-Same e r k)

  pub run_closed-Same :
      (k reason : ℕ) (s : Bytes) (o : Option Endpoint) (r : Router)
      → Same id r (run_closed clients k reason s o r)
  run_closed-Same k reason s none r = Same-refl id r
  run_closed-Same k reason s (some ep) r =
      go ep.peer_closed_with_reason_handler ep.peer_closed_handler
    where
      go :
          (a b : Option ℕ)
          → Same id r (elim a [
            | some h ↦
                run_handler clients h
                  (ran_with_reason h reason s)
                  (change_found k (set_reason_handler none) r)
            | none ↦ elim b [
              | some h ↦ run_handler clients h (ran h) (change_found k (set_handler none) r)
              | none ↦ r
            ]
          ])
      go (some h) b =
          Same-trans id
            (change_found-Same id k (set_reason_handler none) r (λ ep. refl, λ ep. inl refl))
            (run_handler-Same h (ran_with_reason h reason s) _ refl)
      go none (some h) =
          Same-trans id (change_found-Same id k (set_handler none) r (λ ep. refl, λ ep. inl refl))
            (run_handler-Same h (ran h) _ refl)
      go none none = Same-refl id r

  pub handle_notice-Same :
      (n : Option Notice) (r : Router) → Same id r (handle_notice clients n r).1
  handle_notice-Same none r = Same-refl id r
  handle_notice-Same (some (k, reason, s)) r =
      Same-trans id
        (Same-if id (k == primary_interface_id) r _ _
          (λ e. record { same_delivered = refl; same_queue = refl; same_client = inl refl })
          (λ e. Same-refl id r))
        (run_closed-Same k reason s (find k r.endpoints) _)

  pub pair-Same :
      (b : Bool) (x y : Bool × Router) (r : Router)
      → Same id r x.1
      → Same id r y.1
      → Same id r (if b then x else y).1
  pair-Same true x y r h k = h
  pair-Same false x y r h k = k

  pub handle_pipe_control_message-Same :
      (m : Message) (r : Router) → Same id r (handle_pipe_control_message clients m r).1
  unfolding handle_pipe_control_message
  handle_pipe_control_message-Same m r =
      pair-Same (m.name == 1) _ _ r
        (pair-Same (is_response m) _ _ r
          (record { same_delivered = refl; same_queue = refl; same_client = inl refl })
          (log-Same
            (sent (record (new_message 1 2 invalid_interface_id) { request_id = m.request_id })) r
            refl))
        (handle_notice-Same (read_notice m) r)

  pub on_pipe_error-Same : (r : Router) → Same id r (on_pipe_error clients r)
  unfolding on_pipe_error
  on_pipe_error-Same r = go r.connection_error_with_reason_handler r.connection_error_handler
    where
      go :
          (a b : Option ℕ)
          → Same id r (elim a [
            | some h ↦
                run_handler clients h
                  (ran_with_reason h r.disconnect_custom_reason r.disconnect_description)
                  (record r { connection_error_with_reason_handler = none })
            | none ↦ elim b [
              | some h ↦
                  run_handler clients h (ran h) (record r { connection_error_handler = none })
              | none ↦ r
            ]
          ])
      go (some h) b =
          Same-trans id {b = record r { connection_error_with_reason_handler = none }}
            (record { same_delivered = refl; same_queue = refl; same_client = inl refl })
            (run_handler-Same h _ _ refl)
      go none (some h) =
          Same-trans id {b = record r { connection_error_handler = none }}
            (record { same_delivered = refl; same_queue = refl; same_client = inl refl })
            (run_handler-Same h _ _ refl)
      go none none = Same-refl id r
