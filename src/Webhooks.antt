-- ===== src/Webhooks.antt =====
-- webhooks/webhooks.service.ts: the endpoints that an organization registers, and the deliveries that
-- an event makes for them. The worker is in Webhooks/Worker.
mod Entities
pub mod Worker
pub mod Delivery
pub mod Job
pub mod Ending
pub mod Wanting
pub mod FanOut
pub mod Dispatch
pub mod DeadLetter
mod Tests
pub use Entities.*
use Prim.Native.String.{◌++◌ as text_append}
use developer_platform_backe.Prelude.{
  ℕ, zero, suc, String, Bool, true, not, ◌&&◌, ◌||◌, none, List, [], ◌∷◌, ◌++◌, ◌==◌, length,
  select, any,
}
use developer_platform_backe.Prelude.Action.{
  not_found, Action, pure, gets, or_throw, ◌>>=◌, ◌>>◌, modify,
}
use developer_platform_backe.Orm.{Orm}
use text.Mathlib.Text.{◌==◌ as str_eq}
use Prim.Native.String
use developer_platform_backe.ApiKeys.{last_four}

-- `text.slice(0, n)`
unfoldable pub first : ℕ → String → String
first zero s = ""
first (suc n) String.[] = ""
first (suc n) (String.◌∷◌ c s) = String.◌∷◌ c (first n s)

-- `toResponse`
unfoldable pub to_response : Webhook → WebhookView
unfolding first last_four
to_response w = record {
  id = w.id;
  url = w.url;
  events = w.events;
  is_active = w.is_active;
  description = w.description;
  secret_hint = text_append (first 10 w.secret) (text_append "…" (last_four w.secret));
}

-- `w.events.includes('*') || w.events.includes(type)`
abbrev pub subscribed : String → Webhook → Bool
subscribed type w = any (λ e. str_eq e "*") w.events || any (λ e. str_eq e type) w.events

-- `where: { organizationId: orgId, isActive: true }`
abbrev pub is_listening : ℕ → Webhook → Bool
is_listening org_id w = w.organization_id == org_id && w.is_active

-- `where: { id, organizationId: orgId }`
abbrev pub is_webhook : ℕ → ℕ → Webhook → Bool
is_webhook org_id id w = w.id == id && w.organization_id == org_id

-- The row of a new delivery.
abbrev pub new_delivery : {Payload : Type 0} → ℕ → ℕ → WebhookEvent Payload → WebhookDelivery
new_delivery id webhook_id event = record {
  id = id;
  webhook_id = webhook_id;
  event_id = event.id;
  organization_id = event.organization_id;
  status = pending;
  attempts = 0;
  response_status = none;
  response_body = none;
  last_error = none;
  delivered_at = none;
}

module _ {orm : Orm} (env : WebhookEnv) where
  -- `create`, with the full secret
  unfoldable pub create :
      ℕ
      → CreateWebhookDto
      → (random : String) → Action (WebhookState orm env.Payload) (WebhookView × String)
  unfolding to_response
  create org_id dto random = do
    id ← gets (λ s. orm.fresh s.webhooks)
    let secret = text_append "whsec_" random
    let webhook : Webhook = record {
      id = id;
      organization_id = org_id;
      url = dto.url;
      secret = secret;
      events = dto.events;
      is_active = true;
      description = dto.description;
    }
    modify (λ s. record s { webhooks = orm.save webhook s.webhooks })
    pure (to_response webhook, secret)

  -- `getOrThrow`
  unfoldable pub get_or_throw : ℕ → ℕ → Action (WebhookState orm env.Payload) Webhook
  get_or_throw org_id id = do
    webhook ← gets (λ s. orm.find_one (is_webhook org_id id) s.webhooks)
    or_throw webhook (not_found "Webhook not found")

  -- `findOne`
  unfoldable pub find_one : ℕ → ℕ → Action (WebhookState orm env.Payload) (WebhookView × String)
  unfolding get_or_throw to_response
  find_one org_id id = do
    webhook ← get_or_throw org_id id
    pure (to_response webhook, webhook.secret)

  -- `remove`, with the key that it returns
  unfoldable pub remove : ℕ → ℕ → Action (WebhookState orm env.Payload) ℕ
  unfolding get_or_throw
  remove org_id id = do
    webhook ← get_or_throw org_id id
    modify (λ s. record s { webhooks = orm.remove webhook s.webhooks })
    pure id

  -- `createDeliveryAndEnqueue`
  unfoldable pub create_delivery_and_enqueue :
      ℕ → WebhookEvent env.Payload → Action (WebhookState orm env.Payload) WebhookDelivery
  create_delivery_and_enqueue webhook_id event = do
    id ← gets (λ s. orm.fresh s.deliveries)
    let delivery = new_delivery id webhook_id event
    modify (λ s. record s { deliveries = orm.save delivery s.deliveries })
    modify (λ s. record s { queue = s.queue ++ (delivery.id ∷ []) })
    pure delivery

  -- The loop of `dispatchEvent`
  unfoldable pub fan_out :
      WebhookEvent env.Payload
      → List Webhook
      → Action (WebhookState orm env.Payload) (List WebhookDelivery)
  fan_out event [] = pure []
  fan_out event (webhook ∷ rest) = do
    delivery ← create_delivery_and_enqueue webhook.id event
    deliveries ← fan_out event rest
    pure (delivery ∷ deliveries)

  -- The row of a new event, saved
  unfoldable pub save_event :
      ℕ
      → String
      → env.Payload
      → (now : ℕ) → Action (WebhookState orm env.Payload) (WebhookEvent env.Payload)
  save_event org_id type payload now = do
    id ← gets (λ s. orm.fresh s.events)
    let event : WebhookEvent env.Payload = record {
      id = id;
      organization_id = org_id;
      type = type;
      payload = payload;
      created_at = now;
    }
    modify (λ s. record s { events = orm.save event s.events })
    pure event

  -- `dispatchEvent`, with the key of the event and the number of deliveries
  unfoldable pub dispatch_event :
      ℕ → String → env.Payload → (now : ℕ) → Action (WebhookState orm env.Payload) (ℕ × ℕ)
  unfolding save_event
  dispatch_event org_id type payload now = do
    event ← save_event org_id type payload now
    webhooks ← gets (λ s. orm.find (is_listening org_id) s.webhooks)
    let matching = select (subscribed type) webhooks
    deliveries ← fan_out event matching
    pure (event.id, length deliveries)

  -- `testWebhook`, with the keys of the event and of the delivery
  unfoldable pub test_webhook : ℕ → ℕ → (now : ℕ) → Action (WebhookState orm env.Payload) (ℕ × ℕ)
  unfolding get_or_throw save_event
  test_webhook org_id webhook_id now = do
    webhook ← get_or_throw org_id webhook_id
    event ← save_event org_id "webhook.test" (env.test_payload webhook.id) now
    delivery ← create_delivery_and_enqueue webhook.id event
    pure (event.id, delivery.id)
