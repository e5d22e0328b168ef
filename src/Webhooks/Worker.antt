-- ===== src/Webhooks/Worker.antt =====
-- webhooks/webhooks.processor.ts: the worker that delivers over HTTP, and what it does when the queue
-- reports a failed job.
use Prim.Native.String.{◌++◌ as text_append}
use developer_platform_backe.Prelude.{
  ℕ, ◌+◌, String, Bool, ◌&&◌, Option, none, some, [], ◌∷◌, ◌++◌, ltb, leb, ◌==◌, if◌then◌else◌,
  is_some, or_default,
}
use developer_platform_backe.Prelude.Action.{
  failure, Action, pure, throw, gets, ◌>>=◌, ◌>>◌, modify,
}
use developer_platform_backe.Orm.{Orm}
use developer_platform_backe.Webhooks.{
  Webhook, webhook_entity, WebhookEvent, event_entity, WebhookDelivery, delivery_entity, WebhookEnv,
  dead, WebhookState, first, success, failed,
}

-- The request that `fetch` sends.
pub record Post : Type 0 where
  pub url : String
  pub body : String
  pub webhook_id : ℕ
  pub event_type : String
  pub delivery_id : ℕ
  pub signature : String

-- What comes of it: a response, with '' for a body that cannot be read, or an error, with its message.
pub data Answer : Type 0 where
  response : (status : ℕ) → (body : String) → Answer
  broken : (message : String) → Answer

-- `res.ok`
abbrev pub is_ok : ℕ → Bool
is_ok status = leb 200 status && ltb status 300

-- `String(status)` is left to the caller of the model.
pub record WorkerEnv : Type 1 where
  pub env : WebhookEnv
  pub show_number : ℕ → String
  pub fetch : Post → Answer

-- `sign`
unfoldable pub sign : WebhookEnv → (secret body : String) → String
sign env secret body = text_append "sha256=" (env.hmac_hex secret body)

abbrev pub not_there : WebhookDelivery → WebhookDelivery
not_there d = record d { status = dead; last_error = some "webhook or event no longer exists" }

module _ (worker : WorkerEnv) where
  abbrev pub http_error : ℕ → String
  http_error status = text_append "HTTP " (worker.show_number status)

  unfoldable pub request_of : Webhook → WebhookEvent worker.env.Payload → WebhookDelivery → Post
  unfolding sign
  request_of webhook event delivery =
      let body = worker.env.stringify event.id event.type event.created_at event.payload in
      record {
        url = webhook.url;
        body = body;
        webhook_id = webhook.id;
        event_type = event.type;
        delivery_id = delivery.id;
        signature = sign worker.env webhook.secret body;
      }

  module _ {orm : Orm} where
    abbrev pub save_delivery :
        WebhookDelivery → Action (WebhookState orm worker.env.Payload) (Unit {0})
    save_delivery d = modify (λ s. record s { deliveries = orm.save d s.deliveries })

    -- The `try` and the `catch`, for a delivery whose attempt is counted. A failure after a response
    -- has set `responseStatus`; a broken request leaves the one of an earlier attempt.
    unfoldable pub settle :
        (now : ℕ)
        → WebhookDelivery
        → Answer
        → Action (WebhookState orm worker.env.Payload) (Option ℕ)
    unfolding first
    settle now d (response status body) =
        let answered = record d {
          response_status = some status;
          response_body = some (first 2000 body);
        } in
        if is_ok status
        then (do
          save_delivery
              (record answered { status = success; delivered_at = some now; last_error = none })
          pure (some status))
        else (do
          save_delivery (record answered { status = failed; last_error = some (http_error status) })
          throw (failure (http_error status)))
    settle now d (broken message) =
        if is_some d.response_status then throw (failure message) else (do
          save_delivery (record d { status = failed; last_error = some message })
          throw (failure message))

    -- `delivery.attempts += 1` and the request
    unfoldable pub attempt :
        (now : ℕ)
        → Webhook
        → WebhookEvent worker.env.Payload
        → WebhookDelivery
        → Action (WebhookState orm worker.env.Payload) (Option ℕ)
    unfolding request_of settle
    attempt now webhook event d =
        settle now (record d { attempts = d.attempts + 1 })
          (worker.fetch (request_of webhook event d))

    -- `process`; `none` is the bare `return`
    unfoldable pub process :
        (now delivery_id : ℕ) → Action (WebhookState orm worker.env.Payload) (Option ℕ)
    process now delivery_id = do
      found ← gets (λ s. orm.find_one (λ d. d.id == delivery_id) s.deliveries)
      elim found [
        | none ↦ pure none
        | some delivery ↦ elim delivery.status [
          | success ↦ pure none
          | _ ↦ do
            webhook ← gets (λ s. orm.find_one (λ w. w.id == delivery.webhook_id) s.webhooks)
            event ← gets (λ s. orm.find_one (λ e. e.id == delivery.event_id) s.events)
            elim webhook [
              | none ↦ save_delivery (not_there delivery) >> pure none
              | some w ↦ elim event [
                | none ↦ save_delivery (not_there delivery) >> pure none
                | some e ↦ attempt now w e delivery
              ]
            ]
        ]
      ]

    -- `onFailed`; the `update` changes the row if there is one
    unfoldable pub on_failed :
        (delivery_id attempts_made : ℕ)
        → (max_attempts : Option ℕ) → (message : String)
        → Action (WebhookState orm worker.env.Payload) (Unit {0})
    on_failed delivery_id attempts_made max_attempts message =
        if leb (or_default max_attempts 1) attempts_made
        then (do
          row ← gets (λ s. orm.find_one (λ d. d.id == delivery_id) s.deliveries)
          elim row [ none ↦ pure tt | some d ↦ save_delivery (record d { status = dead }) ]
          delivery ← gets (λ s. orm.find_one (λ d. d.id == delivery_id) s.deliveries)
          elim delivery [
            | none ↦ pure tt
            | some d ↦ modify (λ s. record s {
              emitted =
                  s.emitted
                  ++ (record {
                    organization_id = d.organization_id;
                    webhook_id = d.webhook_id;
                    delivery_id = d.id;
                    error = message;
                  }
                      ∷ []);
            })
          ])
        else pure tt
