-- ===== src/Webhooks/Dispatch.antt =====
-- An event reaches every active webhook of its organization that subscribes to it, and no other.
use developer_platform_backe.Webhooks.FanOut.{
  webhook_key, fan_out-IsFannedOut, IsQueued, IsPending, delivery_webhook,
}
use developer_platform_backe.Webhooks.Wanting.{Wants, asks_iff}
use developer_platform_backe.Prelude.{
  All-select_Any, ◌⊎◌, IsDistinct, All-of_map, All-weaken, All-map, select-All, IsDistinct-map,
  select-IsDistinct, map-IsDistinct,
}
use developer_platform_backe.Orm.Laws.{get-save_self}
use mathlib.Core.Path.{subst}
use developer_platform_backe.Webhooks.{
  webhook_entity, event_entity, delivery_entity, WebhookEvent, WebhookEnv, WebhookState, Webhook,
  fan_out, WebhookDelivery, is_listening, subscribed, dispatch_event,
}
use developer_platform_backe.Prelude.{
  ℕ, String, ◌≡◌, refl, sym, true, none, some, List, [], ◌∷◌, ◌++◌, map, arith, length, select, All,
  Any,
}
use developer_platform_backe.Prelude.Action.{Result, ok}
use developer_platform_backe.Orm.{Orm}

All-both :
    (P Q R : WebhookDelivery → Type 0) (ds : List WebhookDelivery)
    → All P ds
    → All Q ds
    → All R ds
    → All (λ d. P d × Q d × R d) ds
All-both P Q R [] p q r = tt
All-both P Q R (d ∷ ds) (p, ps) (q, qs) (r, rs) = ((p, q, r), All-both P Q R ds ps qs rs)

module _ (env : WebhookEnv) {orm : Orm} where
  -- The row of the event.
  abbrev pub new_event :
      ℕ → String → env.Payload → ℕ → WebhookState orm env.Payload → WebhookEvent env.Payload
  new_event org type payload now s = record {
    id = orm.fresh s.events;
    organization_id = org;
    type = type;
    payload = payload;
    created_at = now;
  }

  dispatched :
      (org : ℕ) (type : String) (payload : env.Payload) (now : ℕ) (s : WebhookState orm env.Payload)
      (deliveries : List WebhookDelivery)
      → let event : WebhookEvent env.Payload = new_event org type payload now s in
        let t : WebhookState orm env.Payload = record s { events = orm.save event s.events } in
        let matching : List Webhook =
          select (subscribed type) (orm.find (is_listening org) s.webhooks) in
        (fan_out env event matching t).0 ≡ ok deliveries
        → dispatch_event env org type payload now s
          ≡ (ok (event.id, length deliveries), (fan_out env event matching t).1)
  unfolding dispatch_event
  dispatched org type payload now s deliveries h = ground (arith, h)

  -- The key is that of a stored webhook that wants the event.
  abbrev pub IsWanted : (org : ℕ) → (type : String) → WebhookState orm env.Payload → ℕ → Type 0
  IsWanted org type s id =
      (w : Webhook) × (w.id ≡ id) × (orm.get id s.webhooks ≡ some w) × Wants org type w

  pub record IsDispatched (org : ℕ) (type : String) (payload : env.Payload) (now : ℕ)
      (s s' : WebhookState orm env.Payload) (result : Result (ℕ × ℕ)) : Type 0 where
    pub event : WebhookEvent env.Payload
    pub saved : orm.get event.id s'.events ≡ some event
    pub was_new : orm.get event.id s.events ≡ none
    pub about : (event.organization_id ≡ org) × (event.type ≡ type) × (event.payload ≡ payload)
    pub reached :
        (w : Webhook) → orm.get w.id s.webhooks ≡ some w → Wants org type w → IsQueued event s' w
    pub kept :
        (k : ℕ) (d : WebhookDelivery)
        → orm.get k s.deliveries ≡ some d
        → orm.get k s'.deliveries ≡ some d
    pub deliveries : List WebhookDelivery
    pub only :
        All
          (λ d.
            (orm.get d.id s'.deliveries ≡ some d)
            × IsPending event d.webhook_id d
            × IsWanted org type s d.webhook_id)
          deliveries
    pub once : IsDistinct delivery_webhook deliveries
    pub no_more :
        (k : ℕ) (d : WebhookDelivery)
        → orm.get k s'.deliveries ≡ some d
        → (orm.get k s.deliveries ≡ some d) ⊎ Any (λ x. x ≡ d) deliveries
    pub queue : s'.queue ≡ s.queue ++ map (λ d. d.id) deliveries
    pub counts : result ≡ ok (event.id, length deliveries)

  -- The webhooks that the two filters leave are wanted ones, each once.
  matching-AreWanted :
      (org : ℕ) (type : String) (s : WebhookState orm env.Payload)
      → let found : List Webhook = orm.find (is_listening org) s.webhooks in
        All (λ w. IsWanted org type s (webhook_key w)) (select (subscribed type) found)
        × IsDistinct webhook_key (select (subscribed type) found)
  matching-AreWanted org type s =
      let found : List Webhook = orm.find (is_listening org) s.webhooks in
      (
        All-weaken
            (λ (w : Webhook) h.
              (w, refl, h.0.1, (ground (arith, h), ground (arith, h), (asks_iff type w).0 h.1)))
            (select (subscribed type) found)
            (select-All (subscribed type)
              (λ w. (is_listening org w ≡ true) × (orm.get w.id s.webhooks ≡ some w)) found
              (orm.find_sound (is_listening org) s.webhooks)),
        select-IsDistinct (subscribed type) webhook_key found
            (orm.find_once (is_listening org) s.webhooks),
      )

  -- Dispatching an event stores it, and exactly the active webhooks of the organization that subscribe
  -- to its type, or to every type, get a delivery of it: each of them gets one, which is waiting and in
  -- the queue, and no other delivery is made. Deliveries and queue entries that were there stay; and
  -- the answer is the key of the event with the number of entries added to the queue.
  pub dispatch_event-IsDispatched :
      (org : ℕ) (type : String) (payload : env.Payload) (now : ℕ) (s : WebhookState orm env.Payload)
      → IsDispatched org type payload now s
          (dispatch_event env org type payload now s).1
          (dispatch_event env org type payload now s).0
  dispatch_event-IsDispatched org type payload now s =
      let event : WebhookEvent env.Payload = new_event org type payload now s in
      let t : WebhookState orm env.Payload = record s { events = orm.save event s.events } in
      let all : List Webhook = orm.find (is_listening org) s.webhooks in
      let matching : List Webhook = select (subscribed type) all in
      let out = fan_out-IsFannedOut env event matching t in
      let (wanted, apart) = matching-AreWanted org type s in
      rw (dispatched org type payload now s out.deliveries out.done) (record {
        event = event;
        saved = rw out.tables.1 (get-save_self orm event s.events);
        was_new = orm.get-fresh s.events;
        about = (refl, refl, refl);
        reached = λ w stored wants.
            All-select_Any (IsQueued event _) (subscribed type) w all out.each
              (orm.find_complete (is_listening org) s.webhooks w.id w stored
                (ground (arith, wants.0, wants.1)))
              ((asks_iff type w).1 wants.2);
        kept = out.kept;
        deliveries = out.deliveries;
        only =
            All-both _ (λ d. IsPending event d.webhook_id d) (λ d. IsWanted org type s d.webhook_id)
              out.deliveries out.stored out.waiting
              (All-of_map delivery_webhook (IsWanted org type s) out.deliveries (
                subst (All (IsWanted org type s)) (sym out.one_each) (
                  All-map webhook_key (λ w. IsWanted org type s (webhook_key w))
                    (IsWanted org type s) (λ w h. h) matching wanted)));
        once =
            IsDistinct-map delivery_webhook (λ k. k) out.deliveries
              (subst (IsDistinct (λ k. k)) (sym out.one_each)
                (map-IsDistinct webhook_key (λ k. k) matching apart));
        no_more = out.no_more;
        queue = out.queue;
        counts = refl;
      })
