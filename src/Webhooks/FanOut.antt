-- ===== src/Webhooks/FanOut.antt =====
-- The loop of `dispatchEvent`: a delivery for each webhook.
use developer_platform_backe.Webhooks.Entities.{pending}
use developer_platform_backe.Prelude.{
  Any-append_left, Any-append_last, ◌⊎◌, inl, inr, Bool-cases, ◌==◌,
}
use developer_platform_backe.Orm.Laws.{get-save_self}
use mathlib.Core.List.{append-nil, append_assoc}
use developer_platform_backe.Webhooks.{
  webhook_entity, event_entity, delivery_entity, WebhookEvent, WebhookEnv, WebhookState, Webhook,
  fan_out, new_delivery, WebhookDelivery, create_delivery_and_enqueue,
}
use developer_platform_backe.Prelude.{
  ℕ, ◌≡◌, refl, sym, ◌∙◌, some, List, [], ◌∷◌, ◌++◌, map, arith, All, Any,
}
use developer_platform_backe.Prelude.Action.{Result, ok}
use developer_platform_backe.Orm.{Orm}

-- A waiting delivery of the event to the webhook with the key.
abbrev pub IsPending : {Payload : Type 0} → WebhookEvent Payload → ℕ → WebhookDelivery → Type 0
IsPending event webhook_id d =
    (d.webhook_id ≡ webhook_id)
    × (d.event_id ≡ event.id)
    × (d.organization_id ≡ event.organization_id)
    × (d.status ≡ pending)
    × (d.attempts ≡ 0)

-- One delivery for the webhook, waiting and in the queue.
pub record IsQueued {orm : Orm} {Payload : Type 0} (event : WebhookEvent Payload)
    (s : WebhookState orm Payload) (w : Webhook) : Type 0 where
  pub id : ℕ
  pub row : WebhookDelivery
  pub stored : orm.get id s.deliveries ≡ some row
  pub waiting : IsPending event w.id row
  pub queued : Any (λ k. k ≡ id) s.queue

abbrev pub delivery_webhook : WebhookDelivery → ℕ
delivery_webhook d = d.webhook_id

abbrev pub webhook_key : Webhook → ℕ
webhook_key w = w.id

module _ (env : WebhookEnv) {orm : Orm} where
  pub record IsFannedOut (event : WebhookEvent env.Payload) (webhooks : List Webhook)
      (s s' : WebhookState orm env.Payload) (run : Result (List WebhookDelivery)) : Type 0 where
    pub deliveries : List WebhookDelivery
    pub done : run ≡ ok deliveries
    pub one_each : map delivery_webhook deliveries ≡ map webhook_key webhooks
    pub stored : All (λ d. orm.get d.id s'.deliveries ≡ some d) deliveries
    pub waiting : All (λ d. IsPending event d.webhook_id d) deliveries
    pub no_more :
        (k : ℕ) (d : WebhookDelivery)
        → orm.get k s'.deliveries ≡ some d
        → (orm.get k s.deliveries ≡ some d) ⊎ Any (λ x. x ≡ d) deliveries
    pub each : All (IsQueued event s') webhooks
    pub kept :
        (k : ℕ) (d : WebhookDelivery)
        → orm.get k s.deliveries ≡ some d
        → orm.get k s'.deliveries ≡ some d
    pub queue : s'.queue ≡ s.queue ++ map (λ d. d.id) deliveries
    pub tables : (s'.webhooks ≡ s.webhooks) × (s'.events ≡ s.events)

  -- The state after the first round of the loop.
  abbrev one_more :
      WebhookEvent env.Payload
      → Webhook
      → WebhookState orm env.Payload
      → WebhookState orm env.Payload
  one_more event w s = record s {
    deliveries = orm.save (new_delivery (orm.fresh s.deliveries) w.id event) s.deliveries;
    queue = s.queue ++ (orm.fresh s.deliveries ∷ []);
  }

  fan_out-cons :
      (event : WebhookEvent env.Payload) (w : Webhook) (rest : List Webhook)
      (s : WebhookState orm env.Payload) (deliveries : List WebhookDelivery)
      → (fan_out env event rest (one_more event w s)).0 ≡ ok deliveries
      → fan_out env event (w ∷ rest) s ≡ (
        ok (new_delivery (orm.fresh s.deliveries) w.id event ∷ deliveries),
        (fan_out env event rest (one_more event w s)).1,
      )
  unfolding fan_out create_delivery_and_enqueue
  fan_out-cons event w rest s deliveries h = ground (arith, h)

  pub fan_out-IsFannedOut :
      (event : WebhookEvent env.Payload) (webhooks : List Webhook)
      (s : WebhookState orm env.Payload)
      → IsFannedOut event webhooks s
          (fan_out env event webhooks s).1
          (fan_out env event webhooks s).0
  unfolding fan_out create_delivery_and_enqueue
  fan_out-IsFannedOut event [] s = record {
    deliveries = [];
    done = refl;
    one_each = refl;
    stored = tt;
    waiting = tt;
    no_more = λ k d h. inl h;
    each = tt;
    kept = λ k d h. h;
    queue = sym (append-nil s.queue);
    tables = (refl, refl);
  }
  fan_out-IsFannedOut event (w ∷ rest) s =
      let id : ℕ = orm.fresh s.deliveries in
      let d : WebhookDelivery = new_delivery id w.id event in
      let t : WebhookState orm env.Payload = one_more event w s in
      let more = fan_out-IsFannedOut event rest t in
      rw (fan_out-cons event w rest s more.deliveries more.done) (record {
        deliveries = d ∷ more.deliveries;
        done = refl;
        one_each = rw more.one_each refl;
        stored = (more.kept id d (get-save_self orm d s.deliveries), more.stored);
        waiting = ((refl, refl, refl, refl, refl), more.waiting);
        no_more = λ k x h. elim (more.no_more k x h) [
          | inl there ↦ elim (Bool-cases (k == id)) [
            | inl here ↦ inr (inl (ground (arith, there, orm.get-save k d s.deliveries)))
            | inr other ↦ inl (ground (arith, there, orm.get-save k d s.deliveries))
          ]
          | inr later ↦ inr (inr later)
        ];
        each = (
          record {
            id = id;
            row = d;
            waiting = (refl, refl, refl, refl, refl);
            stored = more.kept id d (get-save_self orm d s.deliveries);
            queued =
                rw more.queue
                  (Any-append_left (λ k. k ≡ id) t.queue _ (Any-append_last s.queue id));
          },
          more.each,
        );
        kept = λ k x h.
            more.kept k x
              (ground (arith, orm.get-save k d s.deliveries, orm.get-fresh s.deliveries));
        queue = more.queue ∙ append_assoc s.queue (id ∷ []) (map (λ x. x.id) more.deliveries);
        tables = more.tables;
      })
