-- ===== src/Router/Runs.antt =====
-- The messages of an endpoint over whole runs of calls on a router.
use voodoo.Prelude.{
  ℕ, ◌≡◌, refl, sym, ap, subst, ◌∙◌, inl, inr, List, [], ◌∷◌, ◌++◌, Bool, false, Option, none, some,
  ◌==◌, ==_eq, if◌then◌else◌, append-nil, append_assoc, if-true, if-false, Bool-cases,
}
use voodoo.Router.Wire.{Message}
use voodoo.Router.Types.{primary, sent, Router, Clients, new_router}
use voodoo.Router.Endpoints.{
  find, or_new, as_it_is, change_endpoint, closed_message, invalid_interface_id,
  primary_interface_id,
}
use voodoo.Router.Dispatch.{
  set_handler, set_reason_handler, client_at, primary_at, accept_primary, accept_at, accept,
  attach_endpoint_client, Call, call_accept, call_attach, call_detach, call_close, call_retain,
  call_drop, call_local, call_pair, call_primary, call_on_closed, call_on_closed_with_reason,
  call_notify, call_on_error, call_on_error_with_reason, call_pipe_error, step, run,
}
use voodoo.Router.Delivery.{
  queue_at, delivered_to, Same, Same-refl, Same-trans, change_endpoint-Same,
}
use voodoo.Router.Quiet.{
  Quiet, log-Same, pair-Same, drop_endpoint_handle-Same, detach_endpoint_client-Same,
  close_endpoint-Same, retain_endpoint-Same, create_local_endpoint_handle-Same,
  create_pair_pending_association-Same, handle_pipe_control_message-Same, on_pipe_error-Same,
}
use voodoo.Router.Order.{
  Balanced, Same-Balanced, accept_own, accept_other, attach_own, attach_other, find-change_endpoint,
}

-- The messages that come in for an endpoint.
abbrev pub arrived_in : ℕ → Call → List Message
arrived_in id (call_accept m) = if m.interface_id == id then m ∷ [] else []
arrived_in id _ = []

abbrev pub arrived : ℕ → List Call → List Message
arrived id [] = []
arrived id (c ∷ cs) = arrived_in id c ++ arrived id cs

module _ (clients : Clients) (quiet : Quiet clients) (id : ℕ)
    (associated : ((id == invalid_interface_id) ≡ false)
      × ((id == primary_interface_id) ≡ false)) where
  accept_primary-Same : (m : Message) (r : Router) → Same id r (accept_primary clients m r).1
  accept_primary-Same m r = go r.primary_client
    where
      go : (o : Option ℕ) → Same id r (primary_at clients o m r).1
      go none = Same-refl id r
      go (some c) =
          subst (Same id r) (sym (quiet.takes_only c m _))
            (log-Same clients quiet id (primary c m) r refl)

  accept-Same :
      (m : Message) (r : Router) → (m.interface_id == id) ≡ false → Same id r (accept clients m r).1
  unfolding accept
  accept-Same m r h =
      pair-Same clients quiet id (m.interface_id == invalid_interface_id) _ _ r
        (handle_pipe_control_message-Same clients quiet id m r)
        (pair-Same clients quiet id (m.interface_id == primary_interface_id) _ _ r
          (accept_primary-Same m r)
          (Same-trans id
            (change_endpoint-Same id m.interface_id as_it_is r (λ ep. refl, λ ep. inl refl))
            (accept_other id clients quiet m.interface_id m _ _ h)))

  accept-own :
      (m : Message) (r : Router)
      → m.interface_id ≡ id
      → accept clients m r
        ≡ accept_at clients id m
            (or_new (find id r.endpoints)).client
            (change_endpoint id as_it_is r)
  unfolding accept
  accept-own m r e =
      if-false _ _ (ap (λ i. i == invalid_interface_id) e ∙ associated.0)
      ∙ if-false _ _ (ap (λ i. i == primary_interface_id) e ∙ associated.1)
      ∙ ap
          (λ i.
            accept_at clients i m (or_new (find i r.endpoints)).client
              (change_endpoint i as_it_is r))
          e

  accept-Balanced :
      (ms : List Message) (m : Message) (r : Router)
      → Balanced id ms r
      → Balanced id (ms ++ arrived_in id (call_accept m)) (accept clients m r).1
  accept-Balanced ms m r b = elim (Bool-cases (m.interface_id == id)) [
    | inl own ↦
        subst (λ x. Balanced id (ms ++ x) (accept clients m r).1) (sym (if-true _ _ own))
          (subst (λ x. Balanced id (ms ++ m ∷ []) x.1)
            (sym (accept-own m r (==_eq m.interface_id id own)))
            (accept_own id clients quiet ms m (change_endpoint id as_it_is r)
              (Same-Balanced id ms r _
                (change_endpoint-Same id id as_it_is r (λ ep. refl, λ ep. inl refl)) b)
              (or_new (find id r.endpoints)).client
              (ap client_at (find-change_endpoint id as_it_is r))))
    | inr other ↦
        subst (λ x. Balanced id (ms ++ x) (accept clients m r).1) (sym (if-false _ _ other))
          (subst (λ x. Balanced id x (accept clients m r).1) (sym (append-nil ms))
            (Same-Balanced id ms r _ (accept-Same m r other) b))
  ]

  attach-Balanced :
      (ms : List Message) (k : ℕ) (client : Option ℕ) (r : Router)
      → Balanced id ms r
      → Balanced id ms (attach_endpoint_client clients k client r)
  attach-Balanced ms k client r b = elim (Bool-cases (k == id)) [
    | inl own ↦
        subst (λ i. Balanced id ms (attach_endpoint_client clients i client r))
          (sym (==_eq k id own)) (attach_own id clients quiet ms client r b)
    | inr other ↦ Same-Balanced id ms r _ (attach_other id clients quiet k client r other) b
  ]

  plain-Balanced :
      (ms : List Message) (r r' : Router)
      → Same id r r'
      → Balanced id ms r
      → Balanced id (ms ++ []) r'
  plain-Balanced ms r r' s b =
      subst (λ x. Balanced id x r') (sym (append-nil ms)) (Same-Balanced id ms r r' s b)

  Same-fields : {r r' : Router} → r'.events ≡ r.events → r'.endpoints ≡ r.endpoints → Same id r r'
  Same-fields h k = record {
    same_delivered = ap (delivered_to id) h;
    same_queue = ap (λ eps. queue_at (find id eps)) k;
    same_client = inl (ap (λ eps. client_at (find id eps)) k);
  }

  step-Balanced :
      (call : Call) (ms : List Message) (r : Router)
      → Balanced id ms r
      → Balanced id (ms ++ arrived_in id call) (step clients call r)
  unfolding step
  step-Balanced (call_accept m) ms r b = accept-Balanced ms m r b
  step-Balanced (call_attach k client) ms r b =
      subst (λ x. Balanced id x (attach_endpoint_client clients k client r)) (sym (append-nil ms))
        (attach-Balanced ms k client r b)
  step-Balanced (call_detach k) ms r b =
      plain-Balanced ms r _ (detach_endpoint_client-Same clients quiet id k r) b
  step-Balanced (call_close k) ms r b =
      plain-Balanced ms r _ (close_endpoint-Same clients quiet id k r) b
  step-Balanced (call_retain k) ms r b =
      plain-Balanced ms r _ (retain_endpoint-Same clients quiet id k r) b
  step-Balanced (call_drop k) ms r b =
      plain-Balanced ms r _ (drop_endpoint_handle-Same clients quiet id k r) b
  step-Balanced (call_local k) ms r b =
      plain-Balanced ms r _ (create_local_endpoint_handle-Same clients quiet id k r) b
  step-Balanced call_pair ms r b =
      plain-Balanced ms r _ (create_pair_pending_association-Same clients quiet id r) b
  step-Balanced (call_primary client) ms r b = plain-Balanced ms r _ (Same-fields refl refl) b
  step-Balanced (call_on_closed k h) ms r b =
      plain-Balanced ms r _
        (change_endpoint-Same id k (set_handler (some h)) r (λ ep. refl, λ ep. inl refl)) b
  step-Balanced (call_on_closed_with_reason k h) ms r b =
      plain-Balanced ms r _
        (change_endpoint-Same id k (set_reason_handler (some h)) r (λ ep. refl, λ ep. inl refl)) b
  step-Balanced (call_notify k reason s) ms r b =
      plain-Balanced ms r _ (log-Same clients quiet id (sent (closed_message k reason s)) r refl) b
  step-Balanced (call_on_error h) ms r b = plain-Balanced ms r _ (Same-fields refl refl) b
  step-Balanced (call_on_error_with_reason h) ms r b =
      plain-Balanced ms r _ (Same-fields refl refl) b
  step-Balanced call_pipe_error ms r b =
      plain-Balanced ms r _ (on_pipe_error-Same clients quiet id r) b

  run-Balanced :
      (calls : List Call) (ms : List Message) (r : Router)
      → Balanced id ms r
      → Balanced id (ms ++ arrived id calls) (run clients calls r)
  run-Balanced [] ms r b = subst (λ x. Balanced id x r) (sym (append-nil ms)) b
  run-Balanced (c ∷ cs) ms r b =
      subst (λ x. Balanced id x (run clients cs (step clients c r)))
        (append_assoc ms (arrived_in id c) (arrived id cs))
        (run-Balanced cs (ms ++ arrived_in id c) (step clients c r) (step-Balanced c ms r b))

-- Where the clients take every message and no client or handler calls the router, after any calls on a
-- new router, the messages that have come in for an associated endpoint are, in their order, those
-- delivered to it and behind them those that wait there; and none waits while the endpoint has a
-- client.
pub run-Balanced_new :
    (clients : Clients)
    → Quiet clients
    → (id : ℕ) → (id == invalid_interface_id) ≡ false
    → (id == primary_interface_id) ≡ false
    → (namespace_bit : Bool) (calls : List Call)
    → Balanced id (arrived id calls) (run clients calls (new_router namespace_bit))
unfolding find
run-Balanced_new clients quiet id h k bit calls =
    run-Balanced clients quiet id (h, k) calls [] (new_router bit)
      (record { balanced = refl; drained = λ c e. refl })
