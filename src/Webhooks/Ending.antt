-- ===== src/Webhooks/Ending.antt =====
-- Every job of a due delivery ends, and how.
use mathlib.Core.Path.{subst}
use mathlib.Core.List.{append-nil}
use developer_platform_backe.Webhooks.DeadLetter.{notice_of, is_exhausted, on_failed-IsReported}
use developer_platform_backe.Webhooks.Job.{
  max_attempts, Run, at_attempt, run_attempt, report, completed, given_up, retried,
}
use developer_platform_backe.Webhooks.Delivery.{
  IsSameDelivery, is_success, IsDue, accepted, IsRecorded, process-IsRecorded,
}
use developer_platform_backe.Webhooks.Entities.{
  Webhook, WebhookEvent, WebhookDelivery, WebhookState, delivery_entity,
}
use developer_platform_backe.Webhooks.Worker.{WorkerEnv, Post, Answer, request_of}
use developer_platform_backe.Webhooks.{dead}
use developer_platform_backe.Prelude.{
  ℕ, zero, suc, ◌+◌, ◌≤◌, ◌<◌, String, ◌≡◌, refl, sym, ap, ◌∙◌, ◌≢◌, ◌⊎◌, inl, inr, true, false,
  Option, some, [], ◌∷◌, ◌++◌, arith, ◌==◌, Bool-cases,
}
use developer_platform_backe.Prelude.Action.{ok, err, HttpError, Run-cases}
use developer_platform_backe.Orm.{Orm}

module _ (worker : WorkerEnv) (answers : ℕ → Post → Answer) (w : Webhook)
    (e : WebhookEvent worker.env.Payload) where
  -- What the receiver answers at the attempt `n` to the request for `d`.
  abbrev pub answer_at : WebhookDelivery → ℕ → Answer
  answer_at d n = answers n (request_of worker w e d)

  -- The request depends on the keys of the delivery alone.
  answer_at_keys :
      (a b : WebhookDelivery) (n : ℕ) → IsSameDelivery a b → answer_at a n ≡ answer_at b n
  unfolding request_of
  answer_at_keys a b n same = rw same.0 refl

module _ (worker : WorkerEnv) {orm : Orm} (message : HttpError → String) (clock : ℕ → ℕ)
    (answers : ℕ → Post → Answer) (id : ℕ) (w : Webhook) (e : WebhookEvent worker.env.Payload) where
  -- The delivery arrived at one of the attempts from `n` on, or all of them were refused, and then it
  -- is dead and its organization was told once.
  pub record IsEnded (n : ℕ) (d : WebhookDelivery) (s t : WebhookState orm worker.env.Payload)
      : Type 0 where
    pub row : WebhookDelivery
    pub stored : orm.get id t.deliveries ≡ some row
    pub keys : IsSameDelivery row d
    pub outcome :
        ((is_success row.status ≡ true)
          × (t.emitted ≡ s.emitted)
          × ((k : ℕ) × (n ≤ k)
              × (k < max_attempts)
              × (accepted (answer_at worker answers w e d k) ≡ true)))
        ⊎ ((row.status ≡ dead)
            × ((text : String) × (t.emitted ≡ s.emitted ++ (notice_of row text ∷ [])))
            × ((k : ℕ)
                → n ≤ k
                → k < max_attempts
                → accepted (answer_at worker answers w e d k) ≡ false))
    pub others : (k : ℕ) → k ≢ id → orm.get k t.deliveries ≡ orm.get k s.deliveries

  -- One attempt for a due delivery
  attempt-IsRecorded :
      (n : ℕ) (d : WebhookDelivery) (s : WebhookState orm worker.env.Payload)
      → IsDue worker id d w e s
      → IsRecorded
          (at_attempt worker answers n)
          id
          d
          (answer_at worker answers w e d n)
          s
          (run_attempt worker message clock answers id n s)
  unfolding request_of
  attempt-IsRecorded n d s due =
      process-IsRecorded (at_attempt worker answers n) (clock n) id d w e s (record {
        delivery = due.delivery;
        open_yet = due.open_yet;
        webhook = due.webhook;
        event = due.event;
      })

  now-IsEnded :
      (n : ℕ) (d : WebhookDelivery) (s t : WebhookState orm worker.env.Payload) (r : Option ℕ)
      → n < max_attempts
      → IsRecorded (at_attempt worker answers n) id d (answer_at worker answers w e d n) s (ok r, t)
      → IsEnded n d s t
  now-IsEnded n d s t r left rec = record {
    row = rec.row;
    stored = rec.stored;
    keys = rec.keys;
    outcome =
        inl
          (rec.delivered ∙ sym rec.returned, rec.emitted, (n, omega arith, left, sym rec.returned));
    others = rec.others;
  }

  -- The last attempt failed: the report of it ends the job.
  dead-IsEnded :
      (n : ℕ) (d : WebhookDelivery) (s t : WebhookState orm worker.env.Payload) (x : HttpError)
      → n + 1 ≡ max_attempts
      → IsRecorded
          (at_attempt worker answers n)
          id
          d
          (answer_at worker answers w e d n)
          s
          (err x, t)
      → IsEnded n d s (report worker message clock answers id n x t)
  dead-IsEnded n d s t x last rec =
      let over : is_exhausted (n + 1) (some max_attempts) ≡ true = ground arith in
      let told =
        on_failed-IsReported worker id (n + 1) (some max_attempts) (message x) rec.row t
          rec.stored in
      record {
        row = record (rec.row) { status = dead };
        stored = told.row ∙ rw over refl;
        keys = rec.keys;
        outcome = inr (
          refl,
          (message x, told.emitted ∙ rw (over, rec.emitted) refl),
          λ k from below.
              let same : n ≡ k = omega arith in
              subst (λ j. accepted (answer_at worker answers w e d j) ≡ false) same
                (sym rec.returned),
        );
        others = λ k other. told.others k other ∙ rec.others k other;
      }

  -- What the rest of the job comes to is what the whole comes to, after an attempt that failed.
  later-IsEnded :
      (n : ℕ) (d : WebhookDelivery) (s t v : WebhookState orm worker.env.Payload) (x : HttpError)
      → n + 1 < max_attempts
      → (rec : IsRecorded
          (at_attempt worker answers n)
          id
          d
          (answer_at worker answers w e d n)
          s
          (err x, t))
      → IsEnded (n + 1) rec.row (report worker message clock answers id n x t) v
      → IsEnded n d s v
  later-IsEnded n d s t v x left rec rest =
      let waits : is_exhausted (n + 1) (some max_attempts) ≡ false = ground arith in
      let told =
        on_failed-IsReported worker id (n + 1) (some max_attempts) (message x) rec.row t
          rec.stored in
      let quiet : (report worker message clock answers id n x t).emitted ≡ s.emitted =
        told.emitted ∙ rw waits (append-nil t.emitted) ∙ rec.emitted in
      let alike : (k : ℕ)
          → answer_at worker answers w e rec.row k ≡ answer_at worker answers w e d k =
        λ k. answer_at_keys worker answers w e rec.row d k rec.keys in
      record {
        row = rest.row;
        stored = rest.stored;
        keys = (
          rest.keys.0 ∙ rec.keys.0,
          rest.keys.1 ∙ rec.keys.1,
          rest.keys.2 ∙ rec.keys.2,
          rest.keys.3 ∙ rec.keys.3,
        );
        outcome = elim rest.outcome [
          | inl (fine, same, (k, from, below, yes_at)) ↦
              inl (fine, same ∙ quiet, (k, omega arith, below, rw (← alike k) yes_at))
          | inr (buried, (text, sent), never) ↦ inr (
            buried,
            (text, sent ∙ ap (λ l. l ++ (notice_of rest.row text ∷ [])) quiet),
            λ k from below. elim (Bool-cases (k == n)) [
              | inl same ↦
                  subst (λ j. accepted (answer_at worker answers w e d j) ≡ false) (ground arith)
                    (sym rec.returned)
              | inr other ↦ rw (← alike k) (never k (ground arith) below)
            ],
          )
        ];
        others = λ k other. rest.others k other ∙ told.others k other ∙ rec.others k other;
      }

  -- A delivery whose attempt failed is due again.
  report-IsDue :
      (n : ℕ) (d : WebhookDelivery) (s t : WebhookState orm worker.env.Payload) (x : HttpError)
      → n + 1 < max_attempts
      → IsDue worker id d w e s
      → (rec : IsRecorded
          (at_attempt worker answers n)
          id
          d
          (answer_at worker answers w e d n)
          s
          (err x, t))
      → IsDue worker id rec.row w e (report worker message clock answers id n x t)
  report-IsDue n d s t x left due rec =
      let waits : is_exhausted (n + 1) (some max_attempts) ≡ false = ground arith in
      let told =
        on_failed-IsReported worker id (n + 1) (some max_attempts) (message x) rec.row t
          rec.stored in
      record {
        delivery = told.row ∙ rw waits refl;
        open_yet = rec.delivered ∙ sym rec.returned;
        webhook = rw (told.webhooks, rec.webhooks, rec.keys.1) due.webhook;
        event = rw (told.events, rec.events, rec.keys.2) due.event;
      }

  -- The job from the attempt `n` on, with `left` attempts after it.
  job_from :
      (left n : ℕ) (d : WebhookDelivery) (s : WebhookState orm worker.env.Payload)
      → n + 1 + left ≡ max_attempts
      → IsDue worker id d w e s
      → (t : WebhookState orm worker.env.Payload) × Run worker message clock answers id n s t
        × IsEnded n d s t
  job_from zero n d s count due =
      elim (Run-cases (run_attempt worker message clock answers id n s)) [
        | inl (r, t, ran) ↦
            let rec =
              subst
                (IsRecorded (at_attempt worker answers n) id d (answer_at worker answers w e d n) s)
                ran (attempt-IsRecorded n d s due) in
            (t, completed n s t r ran, now-IsEnded n d s t r (omega arith) rec)
        | inr (x, t, threw) ↦
            let rec =
              subst
                (IsRecorded (at_attempt worker answers n) id d (answer_at worker answers w e d n) s)
                threw (attempt-IsRecorded n d s due) in
            (
              report worker message clock answers id n x t,
              given_up n s t x threw (omega arith),
              dead-IsEnded n d s t x (omega arith) rec,
            )
      ]
  job_from (suc left) n d s count due =
      elim (Run-cases (run_attempt worker message clock answers id n s)) [
        | inl (r, t, ran) ↦
            let rec =
              subst
                (IsRecorded (at_attempt worker answers n) id d (answer_at worker answers w e d n) s)
                ran (attempt-IsRecorded n d s due) in
            (t, completed n s t r ran, now-IsEnded n d s t r (omega arith) rec)
        | inr (x, t, threw) ↦
            let rec =
              subst
                (IsRecorded (at_attempt worker answers n) id d (answer_at worker answers w e d n) s)
                threw (attempt-IsRecorded n d s due) in
            let (v, run, rest) =
              job_from left (n + 1) rec.row (report worker message clock answers id n x t)
                (omega arith) (report-IsDue n d s t x (omega arith) due rec) in
            (
              v,
              retried n s t v x threw (omega arith) run,
              later-IsEnded n d s t v x (omega arith) rec rest,
            )
      ]

  -- The job of a delivery that is due, whatever the receiver answers at each attempt and with no other
  -- operation between its attempts, comes to an end after at most three of them: the delivery is then marked as delivered, and some attempt was
  -- accepted, or every attempt was refused and the delivery is dead, and its organization was told so
  -- once. No other delivery changes.
  pub job-IsEnded :
      (d : WebhookDelivery) (s : WebhookState orm worker.env.Payload)
      → IsDue worker id d w e s
      → (t : WebhookState orm worker.env.Payload) × Run worker message clock answers id 0 s t
        × IsEnded 0 d s t
  job-IsEnded d s due = job_from 2 0 d s refl due
