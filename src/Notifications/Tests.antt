-- ===== src/Notifications/Tests.antt =====
-- Notifications on a concrete table, and the theorem at an input.
use developer_platform_backe.Notifications.Delivery.{
  notify-IsFannedOut, AreStored, IsWaiting, IsSent,
}
use developer_platform_backe.Notifications.FanOut.{Keeps}
use developer_platform_backe.Notifications.Worker.{work}
use developer_platform_backe.Webhooks.{WebhookFailed}
use developer_platform_backe.Orm.ListTable.{list_tables}
use developer_platform_backe.Notifications.{
  email, webhook, notify, on_webhook_failed, NotifyState, notify_channels, NotifyInput,
  new_notification,
}
use developer_platform_backe.Prelude.{ℕ, ◌≡◌, refl, none, some, List, [], ◌∷◌, ◌++◌}
use developer_platform_backe.Prelude.Action.{ok}
use developer_platform_backe.Orm.{list_orm}

abbrev start : NotifyState list_orm
start = record { notifications = []; queue = [] }

abbrev failure_of : WebhookFailed
failure_of = record { organization_id = 7; webhook_id = 1; delivery_id = 9; error = "HTTP 500" }

-- A dead delivery is told by e-mail and on Slack.
listener_runs :
    ((on_webhook_failed (λ n. "#") failure_of start).0 ≡ ok (2, 1 ∷ 2 ∷ []))
    × ((on_webhook_failed (λ n. "#") failure_of start).1.queue ≡ 1 ∷ 2 ∷ [])
unfolding on_webhook_failed notify notify_channels new_notification list_tables
listener_runs = (refl, refl)

abbrev test_input : NotifyInput
test_input = record {
  organization_id = some 7;
  user_id = none;
  type = "test";
  title = "Hello";
  message = "World";
  channels = webhook ∷ email ∷ [];
  metadata = none;
}

notify-IsFannedOut_example :
    (ids : List ℕ) × (t : NotifyState list_orm) × (notify test_input start ≡ (ok (2, ids), t))
    × AreStored (IsWaiting test_input) (webhook ∷ email ∷ []) ids t
    × Keeps start t
    × (t.queue ≡ [] ++ ids)
    × ((now : ℕ) → AreStored (IsSent test_input now) (webhook ∷ email ∷ []) ids (work now ids t))
notify-IsFannedOut_example = notify-IsFannedOut test_input start
