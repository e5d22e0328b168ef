-- ===== src/Webhooks/Entities.antt =====
-- webhooks/entities, the request body of `create`, and what the service takes from outside.
use developer_platform_backe.Prelude.{ℕ, String, Bool, Option, List}
use developer_platform_backe.Orm.{Orm, Entity}

-- webhooks/enums/delivery-status.enum.ts
pub data DeliveryStatus : Type 0 where
  pending success failed dead : DeliveryStatus

-- webhooks/entities/webhook.entity.ts
pub record Webhook : Type 0 where
  pub id : ℕ
  pub organization_id : ℕ
  pub url : String
  pub secret : String
  pub events : List String
  pub is_active : Bool
  pub description : Option String

instance abbrev pub webhook_entity : Entity Webhook
webhook_entity = record { id_of = λ w. w.id }

-- webhooks/entities/webhook-event.entity.ts, with the time of its creation
pub record WebhookEvent (Payload : Type 0) : Type 0 where
  pub id : ℕ
  pub organization_id : ℕ
  pub type : String
  pub payload : Payload
  pub created_at : ℕ

instance abbrev pub event_entity : {Payload : Type 0} → Entity (WebhookEvent Payload)
event_entity = record { id_of = λ e. e.id }

-- webhooks/entities/webhook-delivery.entity.ts
pub record WebhookDelivery : Type 0 where
  pub id : ℕ
  pub webhook_id : ℕ
  pub event_id : ℕ
  pub organization_id : ℕ
  pub status : DeliveryStatus
  pub attempts : ℕ
  pub response_status : Option ℕ
  pub response_body : Option String
  pub last_error : Option String
  pub delivered_at : Option ℕ

instance abbrev pub delivery_entity : Entity WebhookDelivery
delivery_entity = record { id_of = λ d. d.id }

-- The code outside the repository: JSON objects, their text, and the HMAC.
pub record WebhookEnv : Type 1 where
  pub Payload : Type 0
  -- the object `{ message: 'This is a test event', webhookId }`
  pub test_payload : ℕ → Payload
  -- `JSON.stringify({ id, type, createdAt, data })`
  pub stringify : (id : ℕ) (type : String) (created_at : ℕ) → Payload → String
  -- `createHmac('sha256', secret).update(body).digest('hex')`
  pub hmac_hex : (secret body : String) → String

-- The payload of `WEBHOOK_FAILED_EVENT`.
pub record WebhookFailed : Type 0 where
  pub organization_id : ℕ
  pub webhook_id : ℕ
  pub delivery_id : ℕ
  pub error : String

-- The tables, the deliveries handed to the queue, and the events emitted, both with the oldest first.
pub record WebhookState (orm : Orm) (Payload : Type 0) : Type 0 where
  pub webhooks : orm.Table Webhook
  pub events : orm.Table (WebhookEvent Payload)
  pub deliveries : orm.Table WebhookDelivery
  pub queue : List ℕ
  pub emitted : List WebhookFailed

pub record CreateWebhookDto : Type 0 where
  pub url : String
  pub events : List String
  pub description : Option String

-- The view of `toResponse`.
pub record WebhookView : Type 0 where
  pub id : ℕ
  pub url : String
  pub events : List String
  pub is_active : Bool
  pub description : Option String
  pub secret_hint : String
