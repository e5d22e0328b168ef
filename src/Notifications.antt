-- ===== src/Notifications.antt =====
-- notifications/: one row for each channel of a notification, the queue of its jobs, the worker with its
-- dispatcher, and the listener that turns the events of the webhooks and of the rate limiter into
-- notifications.
pub mod FanOut
pub mod Worker
pub mod Delivery
mod Tests
use developer_platform_backe.RateLimit.{Exceeded}
use developer_platform_backe.Webhooks.{WebhookFailed}
use developer_platform_backe.Prelude.{
  ℕ, String, Bool, true, false, Option, none, some, List, [], ◌∷◌, ◌++◌, ◌==◌, if◌then◌else◌,
  length,
}
use developer_platform_backe.Prelude.Action.{
  failure, Action, pure, throw, gets, ◌>>=◌, ◌>>◌, modify,
}
use developer_platform_backe.Orm.{Orm, Entity}
use Prim.Native.String.{◌++◌ as text_append}

-- notifications/enums
pub data ChannelType : Type 0 where
  email slack webhook : ChannelType

pub data NotificationStatus : Type 0 where
  pending sent failed : NotificationStatus

-- `{ ...payload }` of the two events
pub data Metadata : Type 0 where
  of_webhook : WebhookFailed → Metadata
  of_limit : Exceeded → Metadata

-- notifications/entities/notification.entity.ts
pub record Notification : Type 0 where
  pub id : ℕ
  pub organization_id : Option ℕ
  pub user_id : Option ℕ
  pub type : String
  pub channel : ChannelType
  pub title : String
  pub message : String
  pub status : NotificationStatus
  pub metadata : Option Metadata
  pub sent_at : Option ℕ
  pub last_error : Option String

instance abbrev pub notification_entity : Entity Notification
notification_entity = record { id_of = λ n. n.id }

pub record NotifyInput : Type 0 where
  pub organization_id : Option ℕ
  pub user_id : Option ℕ
  pub type : String
  pub title : String
  pub message : String
  pub channels : List ChannelType
  pub metadata : Option Metadata

-- The row of a channel, as `notify` makes it.
unfoldable pub new_notification : NotifyInput → ℕ → ChannelType → Notification
new_notification input id channel = record {
  id = id;
  organization_id = input.organization_id;
  user_id = input.user_id;
  type = input.type;
  channel = channel;
  title = input.title;
  message = input.message;
  status = pending;
  metadata = input.metadata;
  sent_at = none;
  last_error = none;
}

abbrev pub channel_text : ChannelType → String
channel_text email = "email"
channel_text slack = "slack"
channel_text webhook = "webhook"

-- notifications/senders: `send` gives the message of the error that it throws, if any.
pub record Sender : Type 0 where
  pub channel : ChannelType
  pub send : Notification → Option String

abbrev pub same_channel : ChannelType → ChannelType → Bool
same_channel email email = true
same_channel slack slack = true
same_channel webhook webhook = true
same_channel _ _ = false

-- EmailSender, SlackSender and WebhookSender only log.
abbrev pub registered : List Sender
registered =
    record { channel = email; send = λ n. none }
    ∷ record { channel = slack; send = λ n. none }
    ∷ record { channel = webhook; send = λ n. none }
    ∷ []

-- `senders.get(channel)` of the map that the constructor fills: the last one set counts.
abbrev pub sender_for : ChannelType → List Sender → Option Sender
sender_for channel [] = none
sender_for channel (s ∷ ss) = elim (sender_for channel ss) [
  | some later ↦ some later
  | none ↦ if same_channel s.channel channel then some s else none
]

-- `NotificationDispatcher.dispatch`: the message of the error, if one is thrown.
unfoldable pub dispatch : List Sender → Notification → Option String
dispatch senders n = elim (sender_for n.channel senders) [
  | none ↦ some (text_append "No sender registered for channel " (channel_text n.channel))
  | some sender ↦ sender.send n
]

-- The messages of the listener; `show` writes a key or a number into a template literal.
abbrev pub webhook_text : (show : ℕ → String) → WebhookFailed → String
webhook_text show p = text_append "Delivery " (
    text_append (show p.delivery_id) (
      text_append " to webhook " (
        text_append (show p.webhook_id)
          (text_append " failed after retries (" (text_append p.error ").")))))

abbrev pub limit_text : (show : ℕ → String) → ℕ → String
limit_text show limit =
    text_append "Your organization hit its limit of " (text_append (show limit) " requests/minute.")

pub record NotifyState (orm : Orm) : Type 0 where
  pub notifications : orm.Table Notification
  -- the jobs, the oldest first
  pub queue : List ℕ

module _ {orm : Orm} where
  abbrev pub save_notification : Notification → Action (NotifyState orm) (Unit {0})
  save_notification n = modify (λ s. record s { notifications = orm.save n s.notifications })

  -- The loop of `notify`, with the keys of the rows
  unfoldable pub notify_channels :
      NotifyInput → List ChannelType → Action (NotifyState orm) (List ℕ)
  unfolding new_notification
  notify_channels input [] = pure []
  notify_channels input (channel ∷ channels) = do
    id ← gets (λ s. orm.fresh s.notifications)
    save_notification (new_notification input id channel)
    modify (λ s. record s { queue = s.queue ++ (id ∷ []) })
    ids ← notify_channels input channels
    pure (id ∷ ids)

  -- `notify`, with the number and the keys of the rows
  unfoldable pub notify : NotifyInput → Action (NotifyState orm) (ℕ × List ℕ)
  unfolding notify_channels
  notify input = do ids ← notify_channels input input.channels; pure (length ids, ids)

  -- `onWebhookFailed`
  unfoldable pub on_webhook_failed :
      (show : ℕ → String) → WebhookFailed → Action (NotifyState orm) (ℕ × List ℕ)
  on_webhook_failed show payload = notify (record {
    organization_id = some payload.organization_id;
    user_id = none;
    type = "webhook.failed";
    title = "Webhook delivery failed";
    message = webhook_text show payload;
    channels = email ∷ slack ∷ [];
    metadata = some (of_webhook payload);
  })

  -- `onRateLimitExceeded`
  unfoldable pub on_rate_limit_exceeded :
      (show : ℕ → String) → Exceeded → Action (NotifyState orm) (ℕ × List ℕ)
  on_rate_limit_exceeded show payload = notify (record {
    organization_id = some payload.organization_id;
    user_id = none;
    type = "ratelimit.exceeded";
    title = "API rate limit reached";
    message = limit_text show payload.limit;
    channels = email ∷ [];
    metadata = some (of_limit payload);
  })

  -- `NotificationsProcessor.process`
  unfoldable pub process : List Sender → (now id : ℕ) → Action (NotifyState orm) (Unit {0})
  unfolding dispatch
  process senders now id = do
    found ← gets (λ s. orm.find_one (λ n. n.id == id) s.notifications)
    elim found [
      | none ↦ pure tt
      | some n ↦ elim n.status [
        | sent ↦ pure tt
        | _ ↦ elim (dispatch senders n) [
          | none ↦
              save_notification (record n { status = sent; sent_at = some now; last_error = none })
          | some message ↦ do
            save_notification (record n { status = failed; last_error = some message })
            throw (failure message)
        ]
      ]
    ]
