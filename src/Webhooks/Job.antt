-- ===== src/Webhooks/Job.antt =====
-- A job of the webhooks queue from its first attempt to its end. BullMQ runs `process`; when it throws,
-- BullMQ counts the attempt, reports the failure to `onFailed`, and runs the job again while attempts
-- are left (`DELIVERY_JOB_OPTS` of webhooks/webhooks.service.ts).
use developer_platform_backe.Webhooks.Entities.{WebhookState}
use developer_platform_backe.Webhooks.Worker.{WorkerEnv, Post, Answer, process, on_failed}
use developer_platform_backe.Prelude.{ℕ, ◌+◌, ◌≤◌, ◌<◌, String, ◌≡◌, Option, some}
use developer_platform_backe.Prelude.Action.{Result, ok, err, HttpError}
use developer_platform_backe.Orm.{Orm}

-- `attempts` of the options of every job
abbrev pub max_attempts : ℕ
max_attempts = 3

-- The worker at its attempt `n`, counted from 0: the receiver may answer each time differently.
abbrev pub at_attempt : WorkerEnv → (ℕ → Post → Answer) → ℕ → WorkerEnv
at_attempt worker answers n = record worker { fetch = answers n }

module _ (worker : WorkerEnv) {orm : Orm} (message : HttpError → String) (clock : ℕ → ℕ)
    (answers : ℕ → Post → Answer) (id : ℕ) where
  abbrev pub run_attempt :
      ℕ
      → WebhookState orm worker.env.Payload
      → Result (Option ℕ) × WebhookState orm worker.env.Payload
  run_attempt n s = process (at_attempt worker answers n) (clock n) id s

  abbrev pub report :
      ℕ → HttpError → WebhookState orm worker.env.Payload → WebhookState orm worker.env.Payload
  report n e s = (on_failed worker id (n + 1) (some max_attempts) (message e) s).1

  -- `Run n s t`: with `n` attempts made, the job starts in `s` and ends in `t`.
  pub data Run : ℕ → (s t : WebhookState orm worker.env.Payload) → Type 0 where
    completed :
        (n : ℕ) (s t : WebhookState orm worker.env.Payload) (r : Option ℕ)
        → run_attempt n s ≡ (ok r, t)
        → Run n s t
    given_up :
        (n : ℕ) (s t : WebhookState orm worker.env.Payload) (e : HttpError)
        → run_attempt n s ≡ (err e, t)
        → max_attempts ≤ n + 1
        → Run n s (report n e t)
    retried :
        (n : ℕ) (s t u : WebhookState orm worker.env.Payload) (e : HttpError)
        → run_attempt n s ≡ (err e, t)
        → n + 1 < max_attempts
        → Run (n + 1) (report n e t) u
        → Run n s u
