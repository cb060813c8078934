-- ===== src/Router/Order.antt =====
-- What Accept and AttachEndpointClient do to the messages of an endpoint.
use voodoo.Prelude.{
  ℕ, ◌≡◌, refl, sym, ap, ap₂, subst, ◌∙◌, inl, inr, List, [], ◌∷◌, ◌++◌, false, Option, none, some,
  ◌==◌, ==_refl, append-nil, append_assoc, if-true, if-false, Option-cases,
}
use voodoo.Router.Wire.{Message}
use voodoo.Router.Types.{Endpoint, delivered, raised, Router, Clients, log}
use voodoo.Router.Endpoints.{find, or_new, change_endpoint}
use voodoo.Router.Dispatch.{
  set_client, queue_message, client_at, clear_queue, accept_at, deliver_all, attach_endpoint_client,
}
use voodoo.Router.Delivery.{
  find-put, queue_at, delivered_to, delivered_to-append, queue_of, client_of, Same, Same-refl,
  Same-trans, change_endpoint-Same, or_new-queue, or_new-client,
}
use voodoo.Router.Quiet.{Quiet, log-Same}

none-some : (c : ℕ) → none ≡ some c → ⊥
none-some c h = cc

module _ (id : ℕ) where
  -- Of the messages that have arrived for the endpoint, in order: the first have been delivered, and
  -- the others wait; none waits where there is a client.
  pub record Balanced (arrived : List Message) (r : Router) : Type 0 where
    pub balanced : delivered_to id r.events ++ queue_of id r ≡ arrived
    pub drained : (c : ℕ) → client_of id r ≡ some c → queue_of id r ≡ []

  pub Same-Balanced :
      (arrived : List Message) (r r' : Router)
      → Same id r r'
      → Balanced arrived r
      → Balanced arrived r'
  Same-Balanced arrived r r' s b = record {
    balanced = ap₂ (λ x y. x ++ y) s.same_delivered s.same_queue ∙ b.balanced;
    drained = λ c h. s.same_queue ∙ elim s.same_client [
      | inl e ↦ b.drained c (sym e ∙ h)
      | inr e ↦ absurd (none-some c (sym e ∙ h))
    ];
  }

  -- Another endpoint, whatever is done to it.
  change_other-Same :
      (k : ℕ) (f : Endpoint → Endpoint) (r : Router)
      → (k == id) ≡ false
      → Same id r (change_endpoint k f r)
  unfolding change_endpoint
  change_other-Same k f r h =
      let there = find-put id k (f (or_new (find k r.endpoints))) r.endpoints ∙ if-false _ _ h in
      record {
        same_delivered = refl;
        same_queue = ap queue_at there;
        same_client = inl (ap client_at there);
      }

  pub find-change_endpoint :
      (f : Endpoint → Endpoint) (r : Router)
      → find id (change_endpoint id f r).endpoints ≡ some (f (or_new (find id r.endpoints)))
  unfolding change_endpoint
  find-change_endpoint f r =
      find-put id id (f (or_new (find id r.endpoints))) r.endpoints ∙ if-true _ _ (==_refl id)

  delivered_to-other :
      (k c : ℕ) (m : Message) → (k == id) ≡ false → delivered_to id (delivered k c m ∷ []) ≡ []
  delivered_to-other k c m h = if-false _ _ h

  delivered_to-log :
      (c : ℕ) (m : Message) (r : Router)
      → delivered_to id (log (delivered id c m) r).events ≡ delivered_to id r.events ++ m ∷ []
  delivered_to-log c m r =
      delivered_to-append id r.events (delivered id c m ∷ [])
      ∙ ap (λ ms. delivered_to id r.events ++ ms) (if-true _ _ (==_refl id))

  module _ (clients : Clients) (quiet : Quiet clients) where
    deliver_all-none :
        (k : ℕ) (m : Message) (ms : List Message) (r : Router)
        → client_of k r ≡ none
        → deliver_all clients k (m ∷ ms) r ≡ log raised r
    unfolding deliver_all
    deliver_all-none k m ms r h = rw (h, deliver_all) refl

    deliver_all-some :
        (k c : ℕ) (m : Message) (ms : List Message) (r : Router)
        → client_of k r ≡ some c
        → deliver_all clients k (m ∷ ms) r ≡ deliver_all clients k ms (log (delivered k c m) r)
    unfolding deliver_all
    deliver_all-some k c m ms r h =
        rw (h, deliver_all)
          (if-true _ _ (quiet.accepts_all c m)
            ∙ ap (deliver_all clients k ms) (quiet.takes_only c m _))

    deliver_all-Same :
        (k : ℕ) (ms : List Message) (r : Router)
        → (k == id) ≡ false
        → Same id r (deliver_all clients k ms r)
    unfolding deliver_all
    deliver_all-Same k [] r h = Same-refl id r
    deliver_all-Same k (m ∷ ms) r h = elim (Option-cases (client_of k r)) [
      | inl e ↦
          subst (Same id r) (sym (deliver_all-none k m ms r e))
            (log-Same clients quiet id raised r refl)
      | inr (c, e) ↦ subst (Same id r) (sym (deliver_all-some k c m ms r e)) (
          Same-trans id (log-Same clients quiet id (delivered k c m) r (delivered_to-other k c m h))
            (deliver_all-Same k ms (log (delivered k c m) r) h))
    ]

    deliver_all-own :
        (c : ℕ) (ms : List Message) (r : Router)
        → client_of id r ≡ some c
        → (delivered_to id (deliver_all clients id ms r).events ≡ delivered_to id r.events ++ ms)
          × ((deliver_all clients id ms r).endpoints ≡ r.endpoints)
    unfolding deliver_all
    deliver_all-own c [] r h = (sym (append-nil _), refl)
    deliver_all-own c (m ∷ ms) r h =
        let (rest_delivered, rest_endpoints) = deliver_all-own c ms (log (delivered id c m) r) h in
        let step_eq = deliver_all-some id c m ms r h in
        (
          ap (λ x. delivered_to id x.events) step_eq
              ∙ rest_delivered
              ∙ ap (λ x. x ++ ms) (delivered_to-log c m r)
              ∙ append_assoc (delivered_to id r.events) (m ∷ []) ms,
          ap (λ x. x.endpoints) step_eq ∙ rest_endpoints,
        )

    -- Accept, at the endpoint itself and at another.
    pub accept_own :
        (arrived : List Message) (m : Message) (r : Router)
        → Balanced arrived r
        → (o : Option ℕ) → client_of id r ≡ o
        → Balanced (arrived ++ m ∷ []) (accept_at clients id m o r).1
    unfolding change_endpoint
    accept_own arrived m r b (some c) e =
        let empty = b.drained c e in
        subst (Balanced (arrived ++ m ∷ [])) (sym (quiet.takes_only c m _)) (record {
          balanced =
              ap₂ (λ x y. x ++ y) (delivered_to-log c m r) empty
              ∙ append-nil _
              ∙ ap (λ x. x ++ m ∷ [])
                  (sym (append-nil _)
                    ∙ ap (λ x. delivered_to id r.events ++ x) (sym empty)
                    ∙ b.balanced);
          drained = b.drained;
        })
    accept_own arrived m r b none e =
        let new = find-change_endpoint (queue_message m) r in
        record {
          balanced =
              ap (λ x. delivered_to id r.events ++ x)
                (ap queue_at new ∙ ap (λ x. x ++ m ∷ []) (or_new-queue id (find id r.endpoints)))
              ∙ sym (append_assoc (delivered_to id r.events) (queue_of id r) (m ∷ []))
              ∙ ap (λ x. x ++ m ∷ []) b.balanced;
          drained = λ c h. absurd (
              none-some c (
                sym e ∙ sym (or_new-client id (find id r.endpoints)) ∙ sym (ap client_at new) ∙ h));
        }

    pub accept_other :
        (k : ℕ) (m : Message) (o : Option ℕ) (r : Router)
        → (k == id) ≡ false
        → Same id r (accept_at clients k m o r).1
    accept_other k m (some c) r h =
        subst (Same id r) (sym (quiet.takes_only c m _))
          (log-Same clients quiet id (delivered k c m) r (delivered_to-other k c m h))
    accept_other k m none r h = change_other-Same k (queue_message m) r h

    -- AttachEndpointClient, likewise.
    pub attach_own :
        (arrived : List Message) (client : Option ℕ) (r : Router)
        → Balanced arrived r
        → Balanced arrived (attach_endpoint_client clients id client r)
    unfolding attach_endpoint_client change_endpoint
    attach_own arrived none r b =
        Same-Balanced arrived r _
          (change_endpoint-Same id id (set_client none) r (λ ep. refl, λ ep. inr refl)) b
    attach_own arrived (some c) r b = go (or_new (find id r.endpoints)).queued_messages refl
      where
        attached : Router
        attached = change_endpoint id (set_client (some c)) r

        cleared : Router
        cleared = change_endpoint id clear_queue attached

        go :
            (q : List Message)
            → (or_new (find id r.endpoints)).queued_messages ≡ q
            → Balanced arrived
                (elim q [ [] ↦ attached | m ∷ ms ↦ deliver_all clients id (m ∷ ms) cleared ])
        go [] e =
            let new = find-change_endpoint (set_client (some c)) r in
            record {
              balanced =
                  ap (λ x. delivered_to id r.events ++ x)
                    (ap queue_at new ∙ or_new-queue id (find id r.endpoints))
                  ∙ b.balanced;
              drained = λ c' h. ap queue_at new ∙ e;
            }
        go (m ∷ ms) e =
            let new = find-change_endpoint clear_queue attached in
            let (all_delivered, same_endpoints) = deliver_all-own c (m ∷ ms) cleared (
              ap client_at new
              ∙ or_new-client id (find id attached.endpoints)
              ∙ ap client_at (find-change_endpoint (set_client (some c)) r)) in
            let empty = ap (λ eps. queue_at (find id eps)) same_endpoints ∙ ap queue_at new in
            record {
              balanced =
                  ap₂ (λ x y. x ++ y) all_delivered empty
                  ∙ append-nil _
                  ∙ ap (λ x. delivered_to id r.events ++ x)
                      (sym e ∙ or_new-queue id (find id r.endpoints))
                  ∙ b.balanced;
              drained = λ c' h. empty;
            }

    pub attach_other :
        (k : ℕ) (client : Option ℕ) (r : Router)
        → (k == id) ≡ false
        → Same id r (attach_endpoint_client clients k client r)
    unfolding attach_endpoint_client
    attach_other k none r h = change_other-Same k (set_client none) r h
    attach_other k (some c) r h = go (or_new (find k r.endpoints)).queued_messages
      where
        attached : Router
        attached = change_endpoint k (set_client (some c)) r

        go :
            (q : List Message)
            → Same id r (elim q [
              | [] ↦ attached
              | m ∷ ms ↦ deliver_all clients k (m ∷ ms) (change_endpoint k clear_queue attached)
            ])
        go [] = change_other-Same k (set_client (some c)) r h
        go (m ∷ ms) = Same-trans id (change_other-Same k (set_client (some c)) r h) (
            Same-trans id (change_other-Same k clear_queue attached h)
              (deliver_all-Same k (m ∷ ms) (change_endpoint k clear_queue attached) h))
