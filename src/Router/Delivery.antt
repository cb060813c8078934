-- ===== src/Router/Delivery.antt =====
-- What a change of one endpoint does to what has been delivered to another, and to what waits.
use voodoo.Prelude.{
  arith, ℕ, ◌≡◌, refl, sym, ap, ◌∙◌, ◌⊎◌, inl, inr, List, [], ◌∷◌, ◌++◌, Bool, true, false, ◌&&◌,
  is_empty, Option, none, some, ◌==◌, ==_eq, if◌then◌else◌, if-true, if-false, Bool-cases,
}
use voodoo.Router.Wire.{Message}
use voodoo.Router.Types.{
  Endpoint, Event, primary, delivered, sent, ran, ran_with_reason, raised, Router,
}
use voodoo.Router.Endpoints.{
  find, put, erase, or_new, change_endpoint, change_found, maybe_erase_endpoint, is_unused,
}
use voodoo.Router.Dispatch.{client_at}

pub find-put :
    (id k : ℕ) (ep : Endpoint) (eps : List (ℕ × Endpoint))
    → find id (put k ep eps) ≡ (if k == id then some ep else find id eps)
unfolding find put
find-put id k ep [] = refl
find-put id k ep ((j, e) ∷ eps) = ground (arith, find-put id k ep eps)

find-erase :
    (id k : ℕ) (eps : List (ℕ × Endpoint))
    → find id (erase k eps) ≡ (if k == id then none else find id eps)
unfolding find erase
find-erase id k [] = ground arith
find-erase id k ((j, e) ∷ eps) = ground (arith, find-erase id k eps)

abbrev pub queue_at : Option Endpoint → List Message
queue_at none = []
queue_at (some ep) = ep.queued_messages

-- The messages handed to the client of an endpoint.
abbrev pub delivered_to : ℕ → List Event → List Message
delivered_to id [] = []
delivered_to id (delivered k c m ∷ es) =
    let rest = delivered_to id es in if k == id then m ∷ rest else rest
delivered_to id (primary c m ∷ es) = delivered_to id es
delivered_to id (sent m ∷ es) = delivered_to id es
delivered_to id (ran h ∷ es) = delivered_to id es
delivered_to id (ran_with_reason h n s ∷ es) = delivered_to id es
delivered_to id (raised ∷ es) = delivered_to id es

pub delivered_to-append :
    (id : ℕ) (es fs : List Event)
    → delivered_to id (es ++ fs) ≡ delivered_to id es ++ delivered_to id fs
delivered_to-append id [] fs = refl
delivered_to-append id (delivered k c m ∷ es) fs = ground (arith, delivered_to-append id es fs)
delivered_to-append id (primary c m ∷ es) fs = delivered_to-append id es fs
delivered_to-append id (sent m ∷ es) fs = delivered_to-append id es fs
delivered_to-append id (ran h ∷ es) fs = delivered_to-append id es fs
delivered_to-append id (ran_with_reason h n s ∷ es) fs = delivered_to-append id es fs
delivered_to-append id (raised ∷ es) fs = delivered_to-append id es fs

abbrev pub queue_of : ℕ → Router → List Message
queue_of id r = queue_at (find id r.endpoints)

abbrev pub client_of : ℕ → Router → Option ℕ
client_of id r = client_at (find id r.endpoints)

unused-queue : (ep : Endpoint) → is_unused ep ≡ true → ep.queued_messages ≡ []
unused-queue ep h = go ep.client ep.queued_messages h
  where
    go :
        (c : Option ℕ) (q : List Message)
        → elim c [ some x ↦ false | none ↦ ep.refs == 0 && is_empty q ] ≡ true
        → q ≡ []
    go c [] e = refl
    go (some x) (m ∷ ms) e = cc
    go none (m ∷ ms) e = absurd (ground (arith, e))

module _ (id : ℕ) where
  -- A change that delivers nothing to the endpoint, keeps its queue, and at most takes its client.
  pub record Same (r r' : Router) : Type 0 where
    pub same_delivered : delivered_to id r'.events ≡ delivered_to id r.events
    pub same_queue : queue_of id r' ≡ queue_of id r
    pub same_client : (client_of id r' ≡ client_of id r) ⊎ (client_of id r' ≡ none)

  pub Same-refl : (r : Router) → Same r r
  Same-refl r = record { same_delivered = refl; same_queue = refl; same_client = inl refl }

  pub Same-trans : {a b c : Router} → Same a b → Same b c → Same a c
  Same-trans h k = record {
    same_delivered = k.same_delivered ∙ h.same_delivered;
    same_queue = k.same_queue ∙ h.same_queue;
    same_client = elim k.same_client [
      | inl e ↦ elim h.same_client [ inl e' ↦ inl (e ∙ e') | inr e' ↦ inr (e ∙ e') ]
      | inr e ↦ inr e
    ];
  }

  pub Same-if :
      (b : Bool) (r x y : Router)
      → (b ≡ true → Same r x)
      → (b ≡ false → Same r y)
      → Same r (if b then x else y)
  Same-if true r x y f g = f refl
  Same-if false r x y f g = g refl

  abbrev pub Mild : (Endpoint → Endpoint) → Type 0
  Mild f =
      ((ep : Endpoint) → (f ep).queued_messages ≡ ep.queued_messages)
      × ((ep : Endpoint) → ((f ep).client ≡ ep.client) ⊎ ((f ep).client ≡ none))

  pub or_new-queue : (o : Option Endpoint) → (or_new o).queued_messages ≡ queue_at o
  or_new-queue none = refl
  or_new-queue (some ep) = refl

  pub or_new-client : (o : Option Endpoint) → (or_new o).client ≡ client_at o
  or_new-client none = refl
  or_new-client (some ep) = refl

  -- A mild change of the endpoint of `k`.
  pub put-Same :
      (k : ℕ) (f : Endpoint → Endpoint) (r : Router) (o : Option Endpoint)
      → Mild f
      → find k r.endpoints ≡ o
      → Same r (record r { endpoints = put k (f (or_new o)) r.endpoints })
  put-Same k f r o h e = elim (Bool-cases (k == id)) [
    | inl same ↦
        here (find-put id k (f (or_new o)) r.endpoints ∙ if-true _ _ same)
          (ap (λ i. find i r.endpoints) (sym (==_eq k id same)) ∙ e)
    | inr other ↦
        let there = find-put id k (f (or_new o)) r.endpoints ∙ if-false _ _ other in
        record {
          same_delivered = refl;
          same_queue = ap queue_at there;
          same_client = inl (ap client_at there);
        }
  ]
    where
      here :
          find id (put k (f (or_new o)) r.endpoints) ≡ some (f (or_new o))
          → find id r.endpoints ≡ o
          → Same r (record r { endpoints = put k (f (or_new o)) r.endpoints })
      here new old = record {
        same_delivered = refl;
        same_queue = ap queue_at new ∙ h.0 (or_new o) ∙ or_new-queue o ∙ sym (ap queue_at old);
        same_client = elim (h.1 (or_new o)) [
          | inl keeps ↦ inl (ap client_at new ∙ keeps ∙ or_new-client o ∙ sym (ap client_at old))
          | inr drops ↦ inr (ap client_at new ∙ drops)
        ];
      }

  pub change_endpoint-Same :
      (k : ℕ) (f : Endpoint → Endpoint) (r : Router) → Mild f → Same r (change_endpoint k f r)
  unfolding change_endpoint
  change_endpoint-Same k f r h = put-Same k f r (find k r.endpoints) h refl

  pub change_found-Same :
      (k : ℕ) (f : Endpoint → Endpoint) (r : Router) → Mild f → Same r (change_found k f r)
  unfolding change_found
  change_found-Same k f r h = go (find k r.endpoints) refl
    where
      go :
          (o : Option Endpoint)
          → find k r.endpoints ≡ o
          → Same r
              (elim o [ none ↦ r | some ep ↦ record r { endpoints = put k (f ep) r.endpoints } ])
      go none e = Same-refl r
      go (some ep) e = put-Same k f r (some ep) h e

  -- Only an endpoint without a client and without messages is erased.
  pub maybe_erase_endpoint-Same : (k : ℕ) (r : Router) → Same r (maybe_erase_endpoint k r)
  unfolding maybe_erase_endpoint
  maybe_erase_endpoint-Same k r = go (find k r.endpoints) refl
    where
      erased :
          (ep : Endpoint)
          → find k r.endpoints ≡ some ep
          → is_unused ep ≡ true
          → Same r (record r { endpoints = erase k r.endpoints })
      erased ep e u = elim (Bool-cases (k == id)) [
        | inl same ↦
            let new = find-erase id k r.endpoints ∙ if-true _ _ same in
            let old = ap (λ i. find i r.endpoints) (sym (==_eq k id same)) ∙ e in
            record {
              same_delivered = refl;
              same_queue = ap queue_at new ∙ sym (unused-queue ep u) ∙ sym (ap queue_at old);
              same_client = inr (ap client_at new);
            }
        | inr other ↦
            let there = find-erase id k r.endpoints ∙ if-false _ _ other in
            record {
              same_delivered = refl;
              same_queue = ap queue_at there;
              same_client = inl (ap client_at there);
            }
      ]

      go :
          (o : Option Endpoint)
          → find k r.endpoints ≡ o
          → Same r (elim o [
            | none ↦ r
            | some ep ↦ if is_unused ep then record r { endpoints = erase k r.endpoints } else r
          ])
      go none e = Same-refl r
      go (some ep) e = Same-if (is_unused ep) r _ _ (erased ep e) (λ u. Same-refl r)
