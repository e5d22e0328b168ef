-- ===== src/Webhooks/Delivery.antt =====
-- What one run of the worker records.
use developer_platform_backe.Webhooks.{DeliveryStatus, success}
use developer_platform_backe.Orm.Laws.{find_one-eq-some}
use developer_platform_backe.Webhooks.Worker.{
  Answer, WorkerEnv, response, process, settle, is_ok, broken, attempt, request_of, Post,
}
use developer_platform_backe.Prelude.{
  ℕ, ◌+◌, ◌≡◌, refl, sym, ◌∙◌, ◌≢◌, inl, inr, Bool, true, false, ◌&&◌, Option, none, some, arith,
  ◌==◌, if◌then◌else◌, Bool-cases, is_some,
}
use developer_platform_backe.Prelude.Action.{Result, ok, err}
use developer_platform_backe.Orm.{Orm}
use developer_platform_backe.Webhooks.{
  webhook_entity, event_entity, delivery_entity, DeliveryStatus, WebhookDelivery, WebhookState,
  Webhook, WebhookEvent,
}

abbrev pub is_success : DeliveryStatus → Bool
is_success success = true
is_success _ = false

-- A response with a status from 200 to 299.
abbrev pub accepted : Answer → Bool
accepted (response status body) = is_ok status
accepted (broken message) = false

abbrev pub is_broken : Answer → Bool
is_broken (response status body) = false
is_broken (broken message) = true

abbrev pub succeeds : {A : Type 0} → Result A → Bool
succeeds (ok a) = true
succeeds (err e) = false

-- An attempt of which nothing is written: no response, though an earlier attempt had one.
abbrev pub is_lost : WebhookDelivery → Answer → Bool
is_lost d a = is_some d.response_status && is_broken a

-- Of the same event to the same webhook
abbrev pub IsSameDelivery : WebhookDelivery → WebhookDelivery → Type 0
IsSameDelivery a b =
    (a.id ≡ b.id)
    × (a.webhook_id ≡ b.webhook_id)
    × (a.event_id ≡ b.event_id)
    × (a.organization_id ≡ b.organization_id)

module _ (worker : WorkerEnv) {orm : Orm} where
  -- The delivery, its webhook and its event as the worker looks them up.
  pub record IsDue (id : ℕ) (d : WebhookDelivery) (w : Webhook)
      (e : WebhookEvent worker.env.Payload) (s : WebhookState orm worker.env.Payload) : Type 0 where
    pub delivery : orm.get id s.deliveries ≡ some d
    pub open_yet : is_success d.status ≡ false
    pub webhook : orm.get d.webhook_id s.webhooks ≡ some w
    pub event : orm.get d.event_id s.events ≡ some e

  -- A lookup by key.
  pub find_delivery :
      (id : ℕ) (d : WebhookDelivery) (s : WebhookState orm worker.env.Payload)
      → orm.get id s.deliveries ≡ some d
      → orm.find_one (λ x. x.id == id) s.deliveries ≡ some d
  find_delivery id d s h =
      find_one-eq-some orm (λ x. x.id == id) s.deliveries id d h
        (ground (arith, orm.get_key id s.deliveries d h)) (λ x t _. ground arith)

  find_webhook :
      (id : ℕ) (w : Webhook) (s : WebhookState orm worker.env.Payload)
      → orm.get id s.webhooks ≡ some w
      → orm.find_one (λ x. x.id == id) s.webhooks ≡ some w
  find_webhook id w s h =
      find_one-eq-some orm (λ x. x.id == id) s.webhooks id w h
        (ground (arith, orm.get_key id s.webhooks w h)) (λ x t _. ground arith)

  find_event :
      (id : ℕ) (e : WebhookEvent worker.env.Payload) (s : WebhookState orm worker.env.Payload)
      → orm.get id s.events ≡ some e
      → orm.find_one (λ x. x.id == id) s.events ≡ some e
  find_event id e s h =
      find_one-eq-some orm (λ x. x.id == id) s.events id e h
        (ground (arith, orm.get_key id s.events e h)) (λ x t _. ground arith)

  pub process-due :
      (now id : ℕ) (d : WebhookDelivery) (w : Webhook) (e : WebhookEvent worker.env.Payload)
      (s : WebhookState orm worker.env.Payload)
      → IsDue id d w e s
      → process worker now id s ≡ attempt worker now w e d s
  unfolding process
  process-due now id d w e s due = ground (
    arith,
    find_delivery id d s due.delivery,
    find_webhook d.webhook_id w s due.webhook,
    find_event d.event_id e s due.event,
    due.open_yet,
  )

  pub process-done :
      (now id : ℕ) (d : WebhookDelivery) (s : WebhookState orm worker.env.Payload)
      → orm.get id s.deliveries ≡ some d
      → is_success d.status ≡ true
      → process worker now id s ≡ (ok none, s)
  unfolding process
  process-done now id d s stored done = ground (arith, find_delivery id d s stored)

  -- What a run leaves, by the answer that it got.
  pub record IsRecorded (id : ℕ) (d : WebhookDelivery) (a : Answer)
      (s : WebhookState orm worker.env.Payload)
      (run : Result (Option ℕ) × WebhookState orm worker.env.Payload) : Type 0 where
    pub row : WebhookDelivery
    pub stored : orm.get id run.1.deliveries ≡ some row
    pub delivered : is_success row.status ≡ accepted a
    pub returned : succeeds run.0 ≡ accepted a
    pub counted : row.attempts ≡ d.attempts + (if is_lost d a then 0 else 1)
    pub keys : IsSameDelivery row d
    pub others : (k : ℕ) → k ≢ id → orm.get k run.1.deliveries ≡ orm.get k s.deliveries
    pub webhooks : run.1.webhooks ≡ s.webhooks
    pub events : run.1.events ≡ s.events
    pub queue : run.1.queue ≡ s.queue
    pub emitted : run.1.emitted ≡ s.emitted

  -- A run that saves one row over the delivery.
  saved-IsRecorded :
      (id : ℕ) (d row : WebhookDelivery) (a : Answer) (r : Result (Option ℕ))
      (s : WebhookState orm worker.env.Payload)
      → row.id ≡ id
      → is_success row.status ≡ accepted a
      → succeeds r ≡ accepted a
      → row.attempts ≡ d.attempts + (if is_lost d a then 0 else 1)
      → IsSameDelivery row d
      → IsRecorded id d a s (r, record s { deliveries = orm.save row s.deliveries })
  saved-IsRecorded id d row a r s same fine back counted keys = record {
    row = row;
    stored = ground (arith, orm.get-save id row s.deliveries);
    delivered = fine;
    returned = back;
    counted = counted;
    keys = keys;
    others = λ k ne. ground (arith, orm.get-save k row s.deliveries);
    webhooks = refl;
    events = refl;
    queue = refl;
    emitted = refl;
  }

  settle-IsRecorded :
      (now id : ℕ) (d : WebhookDelivery) (a : Answer) (s : WebhookState orm worker.env.Payload)
      → orm.get id s.deliveries ≡ some d
      → is_success d.status ≡ false
      → IsRecorded id d a s (settle worker now (record d { attempts = d.attempts + 1 }) a s)
  unfolding settle
  settle-IsRecorded now id d (response status body) s stored open_yet =
      let key : d.id ≡ id = orm.get_key id s.deliveries d stored in
      let counted : d.attempts + 1
          ≡ d.attempts + (if is_lost d (response status body) then 0 else 1) =
        ground arith in
      elim (Bool-cases (is_ok status)) [
        | inl fine ↦ rw fine (
            saved-IsRecorded id d _ (response status body) _ s key (sym fine) (sym fine) counted
              (refl, refl, refl, refl))
        | inr refused ↦ rw refused (
            saved-IsRecorded id d _ (response status body) _ s key (sym refused) (sym refused)
              counted (refl, refl, refl, refl))
      ]
  settle-IsRecorded now id d (broken message) s stored open_yet =
      let key : d.id ≡ id = orm.get_key id s.deliveries d stored in
      elim (Bool-cases (is_some d.response_status)) [
        | inl earlier ↦ rw earlier (record {
          row = d;
          stored = stored;
          delivered = open_yet;
          returned = refl;
          counted = ground arith;
          keys = (refl, refl, refl, refl);
          others = λ k ne. refl;
          webhooks = refl;
          events = refl;
          queue = refl;
          emitted = refl;
        })
        | inr never ↦ rw never (
            saved-IsRecorded id d _ (broken message) _ s key refl refl (ground arith)
              (refl, refl, refl, refl))
      ]

  pub process-IsRecorded :
      (now id : ℕ) (d : WebhookDelivery) (w : Webhook) (e : WebhookEvent worker.env.Payload)
      (s : WebhookState orm worker.env.Payload)
      → IsDue id d w e s
      → IsRecorded id d (worker.fetch (request_of worker w e d)) s (process worker now id s)
  unfolding attempt
  process-IsRecorded now id d w e s due = rw (process-due now id d w e s due) (
      settle-IsRecorded now id d (worker.fetch (request_of worker w e d)) s due.delivery
        due.open_yet)

-- Once a receiver has accepted a delivery, no later run, whatever the receiver would answer, sends or
-- writes anything.
pub process_again :
    (worker : WorkerEnv) {orm : Orm} (now later id : ℕ) (d : WebhookDelivery) (w : Webhook)
    (e : WebhookEvent worker.env.Payload) (s : WebhookState orm worker.env.Payload)
    (fetch : Post → Answer)
    → IsDue worker id d w e s
    → accepted (worker.fetch (request_of worker w e d)) ≡ true
    → let s' = (process worker now id s).1 in
      process (record worker { fetch = fetch }) later id s' ≡ (ok none, s')
process_again worker now later id d w e s fetch due fine =
    let run = process-IsRecorded worker now id d w e s due in
    process-done (record worker { fetch = fetch }) later id run.row (process worker now id s).1
      run.stored (run.delivered ∙ fine)
