-- ===== src/Webhooks/DeadLetter.antt =====
-- What the report of a failed job leaves.
use developer_platform_backe.Webhooks.Delivery.{find_delivery}
use developer_platform_backe.Webhooks.Worker.{WorkerEnv, on_failed}
use developer_platform_backe.Webhooks.Entities.{WebhookDelivery, WebhookFailed, WebhookState}
use mathlib.Core.List.{append-nil}
use developer_platform_backe.Prelude.{
  ℕ, String, ◌≡◌, refl, sym, ◌≢◌, inl, inr, Bool, true, false, Option, some, [], ◌∷◌, ◌++◌, arith,
  leb, if◌then◌else◌, Bool-cases, or_default,
}
use developer_platform_backe.Prelude.Action.{ok}
use developer_platform_backe.Orm.{Orm}
use developer_platform_backe.Webhooks.{delivery_entity, dead}

-- Whether no attempt is left, by the options of the job.
abbrev pub is_exhausted : (attempts_made : ℕ) → Option ℕ → Bool
is_exhausted attempts_made max_attempts = leb (or_default max_attempts 1) attempts_made

abbrev pub notice_of : WebhookDelivery → String → WebhookFailed
notice_of d message = record {
  organization_id = d.organization_id;
  webhook_id = d.webhook_id;
  delivery_id = d.id;
  error = message;
}

module _ (worker : WorkerEnv) {orm : Orm} where
  pub record IsReported (id : ℕ) (d : WebhookDelivery) (exhausted : Bool) (message : String)
      (s s' : WebhookState orm worker.env.Payload) : Type 0 where
    pub row : orm.get id s'.deliveries ≡ some (if exhausted then record d { status = dead } else d)
    pub others : (k : ℕ) → k ≢ id → orm.get k s'.deliveries ≡ orm.get k s.deliveries
    pub emitted : s'.emitted ≡ s.emitted ++ (if exhausted then notice_of d message ∷ [] else [])
    pub queue : s'.queue ≡ s.queue
    pub webhooks : s'.webhooks ≡ s.webhooks
    pub events : s'.events ≡ s.events

  -- The state in which an exhausted job leaves the delivery.
  abbrev buried :
      WebhookDelivery
      → String
      → WebhookState orm worker.env.Payload
      → WebhookState orm worker.env.Payload
  buried d message s = record s {
    deliveries = orm.save (record d { status = dead }) s.deliveries;
    emitted = s.emitted ++ (notice_of d message ∷ []);
  }

  on_failed-exhausted :
      (id made : ℕ) (max : Option ℕ) (message : String) (d : WebhookDelivery)
      (s : WebhookState orm worker.env.Payload)
      → orm.get id s.deliveries ≡ some d
      → is_exhausted made max ≡ true
      → on_failed worker id made max message s ≡ (ok tt, buried d message s)
  unfolding on_failed
  on_failed-exhausted id made max message d s stored over =
      let t : WebhookState orm worker.env.Payload = record s {
        deliveries = orm.save (record d { status = dead }) s.deliveries;
      } in
      ground (
        arith,
        over,
        find_delivery worker id d s stored,
        find_delivery worker id (record d { status = dead }) t
            (ground (
              arith,
              orm.get-save id (record d { status = dead }) s.deliveries,
              orm.get_key id s.deliveries d stored,
            )),
      )

  on_failed-waiting :
      (id made : ℕ) (max : Option ℕ) (message : String) (s : WebhookState orm worker.env.Payload)
      → is_exhausted made max ≡ false
      → on_failed worker id made max message s ≡ (ok tt, s)
  unfolding on_failed
  on_failed-waiting id made max message s left = ground (arith, left)

  -- A report of a failed job with no attempt left marks its delivery as dead and emits one notice of it
  -- to its organization; a report with attempts left changes nothing; and no other delivery changes.
  pub on_failed-IsReported :
      (id made : ℕ) (max : Option ℕ) (message : String) (d : WebhookDelivery)
      (s : WebhookState orm worker.env.Payload)
      → orm.get id s.deliveries ≡ some d
      → IsReported id d (is_exhausted made max) message s (on_failed worker id made max message s).1
  on_failed-IsReported id made max message d s stored =
      let key : d.id ≡ id = orm.get_key id s.deliveries d stored in
      elim (Bool-cases (is_exhausted made max)) [
        | inl over ↦ rw (on_failed-exhausted id made max message d s stored over) (record {
          row = rw over (ground (arith, orm.get-save id (record d { status = dead }) s.deliveries));
          others = λ k ne. ground (arith, orm.get-save k (record d { status = dead }) s.deliveries);
          emitted = rw over refl;
          queue = refl;
          webhooks = refl;
          events = refl;
        })
        | inr left ↦ rw (on_failed-waiting id made max message s left) (record {
          row = rw left stored;
          others = λ k ne. refl;
          emitted = rw left (sym (append-nil s.emitted));
          queue = refl;
          webhooks = refl;
          events = refl;
        })
      ]
