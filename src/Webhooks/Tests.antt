-- ===== src/Webhooks/Tests.antt =====
-- Webhooks on concrete tables, and the theorems at inputs that meet their hypotheses.
use developer_platform_backe.Webhooks.Ending.{IsEnded, job-IsEnded}
use developer_platform_backe.Webhooks.Job.{Run}
use developer_platform_backe.Webhooks.Dispatch.{IsDispatched, dispatch_event-IsDispatched}
use developer_platform_backe.Webhooks.Delivery.{IsDue}
use developer_platform_backe.Webhooks.Worker.{WorkerEnv, response, Post, Answer}
use developer_platform_backe.Webhooks.{
  WebhookEnv, Webhook, WebhookEvent, WebhookDelivery, WebhookState, dispatch_event, new_delivery,
  fan_out, create_delivery_and_enqueue,
}
use developer_platform_backe.Prelude.{
  ℕ, String, ◌≡◌, refl, Bool, true, false, none, List, [], ◌∷◌, if◌then◌else◌, ltb,
}
use developer_platform_backe.Prelude.Action.{ok, HttpError}
use Prim.Native.String.{◌++◌ as text_append}
use developer_platform_backe.Orm.{list_orm}
use developer_platform_backe.Orm.ListTable.{list_tables}

abbrev plain_env : WebhookEnv
plain_env = record {
  Payload = String;
  test_payload = λ id. "test";
  stringify = λ id type created payload. payload;
  hmac_hex = λ secret body. text_append secret body;
}

abbrev ok_worker : WorkerEnv
ok_worker = record {
  env = plain_env;
  show_number = λ n. "n";
  fetch = λ post. response 200 "thanks";
}

abbrev hook : ℕ → List String → Bool → Webhook
hook id events active = record {
  id = id;
  organization_id = 7;
  url = "https://acme";
  secret = "whsec_0123456789";
  events = events;
  is_active = active;
  description = none;
}

abbrev event : WebhookEvent String
event = record {
  id = 5;
  organization_id = 7;
  type = "apikey.created";
  payload = "{}";
  created_at = 1;
}

abbrev delivery : WebhookDelivery
delivery = new_delivery 9 1 event

abbrev start : WebhookState list_orm String
start = record {
  webhooks = hook 1 ("*" ∷ []) true ∷ hook 2 ("apikey.created" ∷ []) false ∷ [];
  events = event ∷ [];
  deliveries = delivery ∷ [];
  queue = 9 ∷ [];
  emitted = [];
}

-- The inactive webhook gets nothing.
two_hooks : (dispatch_event plain_env 7 "apikey.created" "{}" 2 start).0 ≡ ok (6, 1)
unfolding dispatch_event fan_out create_delivery_and_enqueue list_tables
two_hooks = refl

start-IsDue : IsDue ok_worker {orm = list_orm} 9 delivery (hook 1 ("*" ∷ []) true) event start
unfolding list_tables
start-IsDue = record { delivery = refl; open_yet = refl; webhook = refl; event = refl }

dispatch_event-IsDispatched_example :
    IsDispatched plain_env 7 "apikey.created" "{}" 2 start
      (dispatch_event plain_env 7 "apikey.created" "{}" 2 start).1
      (dispatch_event plain_env 7 "apikey.created" "{}" 2 start).0
dispatch_event-IsDispatched_example =
    dispatch_event-IsDispatched plain_env 7 "apikey.created" "{}" 2 start

-- A receiver that refuses twice and then accepts.
abbrev third_time : ℕ → Post → Answer
third_time n post = if ltb n 2 then response 500 "" else response 200 "thanks"

abbrev no_message : HttpError → String
no_message e = "failed"

job-IsEnded_example :
    (t : WebhookState list_orm String) × Run ok_worker no_message (λ n. n) third_time 9 0 start t
    × IsEnded ok_worker no_message
        (λ n. n)
        third_time
        9
        (hook 1 ("*" ∷ []) true)
        event
        0
        delivery
        start
        t
job-IsEnded_example =
    job-IsEnded ok_worker no_message (λ n. n) third_time 9 (hook 1 ("*" ∷ []) true) event delivery
      start start-IsDue
