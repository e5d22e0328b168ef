-- ===== src/Notifications/Worker.antt =====
-- The worker: a waiting row is sent by its job, and a sent row stays so.
use developer_platform_backe.Orm.Laws.{find_one-eq-some}
use developer_platform_backe.Notifications.{
  pending, sent, process, Notification, ChannelType, NotifyState, notification_entity, registered,
  dispatch, Sender, sender_for, email, slack, webhook, NotificationStatus,
}
use developer_platform_backe.Prelude.{
  ℕ, ◌≡◌, refl, ◌⊎◌, inl, inr, Bool, true, false, none, some, List, [], ◌∷◌, arith, ◌==◌,
  Bool-cases, Option-cases,
}
use developer_platform_backe.Orm.{Orm}

-- The row after it was sent.
abbrev pub delivered : (now : ℕ) → Notification → Notification
delivered now n = record n { status = sent; sent_at = some now; last_error = none }

abbrev pub is_sent : NotificationStatus → Bool
is_sent sent = true
is_sent _ = false

-- Every channel has a sender, which does not fail.
registered_send :
    (c : ChannelType) (n : Notification)
    → (sender : Sender) × (sender_for c registered ≡ some sender) × (sender.send n ≡ none)
registered_send email n = (_, refl, refl)
registered_send slack n = (_, refl, refl)
registered_send webhook n = (_, refl, refl)

dispatch-registered : (n : Notification) → dispatch registered n ≡ none
unfolding dispatch
dispatch-registered n =
    let (sender, found, sends) = registered_send n.channel n in ground (arith, found, sends)

module _ {orm : Orm} where
  -- The worker over a list of jobs, at the time `now`.
  abbrev pub work : (now : ℕ) → List ℕ → NotifyState orm → NotifyState orm
  work now [] s = s
  work now (id ∷ ids) s = work now ids (process registered now id s).1

  -- The row `n` is waiting under `id`, or it was sent.
  abbrev pub IsOnItsWay : (now id : ℕ) → Notification → NotifyState orm → Type 0
  IsOnItsWay now id n s =
      (orm.get id s.notifications ≡ some n) ⊎ (orm.get id s.notifications ≡ some (delivered now n))

  find_notification :
      (id : ℕ) (n : Notification) (s : NotifyState orm)
      → orm.get id s.notifications ≡ some n
      → orm.find_one (λ x. x.id == id) s.notifications ≡ some n
  find_notification id n s h =
      find_one-eq-some orm (λ x. x.id == id) s.notifications id n h
        (ground (arith, orm.get_key id s.notifications n h)) (λ x t _. ground arith)

  -- A job leaves the state, or sends a row that was not sent.
  pub process-cases :
      (now k : ℕ) (s : NotifyState orm)
      → ((process registered now k s).1 ≡ s)
        ⊎ ((m : Notification) × (orm.get k s.notifications ≡ some m)
            × (is_sent m.status ≡ false)
            × ((process registered now k s).1
                ≡ record s { notifications = orm.save (delivered now m) s.notifications }))
  unfolding process
  process-cases now k s = elim (Option-cases (orm.find_one (λ n. n.id == k) s.notifications)) [
    | inl missing ↦ inl (ground (arith, missing))
    | inr (m, found) ↦
        let (same, stored) = orm.find_one_sound (λ n. n.id == k) s.notifications m found in
        elim (Bool-cases (is_sent m.status)) [
          | inl done ↦ inl (ground (arith, found))
          | inr open_yet ↦
              inr (m, ground arith, open_yet, ground (arith, found, dispatch-registered m))
        ]
  ]

  -- A sent row stays as it is.
  process-delivered :
      (now id k : ℕ) (n : Notification) (s : NotifyState orm)
      → orm.get id s.notifications ≡ some (delivered now n)
      → orm.get id (process registered now k s).1.notifications ≡ some (delivered now n)
  process-delivered now id k n s there = elim (process-cases now k s) [
    | inl same ↦ rw same there
    | inr (m, stored, open_yet, saved) ↦ rw saved (
        ground (
          arith,
          orm.get-save id (delivered now m) s.notifications,
          orm.get_key k s.notifications m stored,
        ))
  ]

  pub process-IsOnItsWay :
      (now id k : ℕ) (n : Notification) (s : NotifyState orm)
      → IsOnItsWay now id n s
      → IsOnItsWay now id n (process registered now k s).1
  process-IsOnItsWay now id k n s (inr there) = inr (process-delivered now id k n s there)
  process-IsOnItsWay now id k n s (inl there) = elim (process-cases now k s) [
    | inl same ↦ inl (rw same there)
    | inr (m, stored, open_yet, saved) ↦ elim (Bool-cases (id == k)) [
      | inl here ↦ inr (
          rw saved (
            ground (
              arith,
              orm.get-save id (delivered now m) s.notifications,
              orm.get_key k s.notifications m stored,
            )))
      | inr other ↦ inl (
          rw saved (
            ground (
              arith,
              orm.get-save id (delivered now m) s.notifications,
              orm.get_key k s.notifications m stored,
            )))
    ]
  ]

  process-waiting :
      (now id : ℕ) (n : Notification) (s : NotifyState orm)
      → orm.find_one (λ x. x.id == id) s.notifications ≡ some n
      → n.status ≡ pending
      → (process registered now id s).1
        ≡ record s { notifications = orm.save (delivered now n) s.notifications }
  unfolding process
  process-waiting now id n s found waiting = ground (arith, found, dispatch-registered n)

  -- The job of a waiting row sends it.
  pub process-sends :
      (now id : ℕ) (n : Notification) (s : NotifyState orm)
      → n.status ≡ pending
      → IsOnItsWay now id n s
      → orm.get id (process registered now id s).1.notifications ≡ some (delivered now n)
  process-sends now id n s waiting (inr there) = process-delivered now id id n s there
  process-sends now id n s waiting (inl there) =
      rw (process-waiting now id n s (find_notification id n s there) waiting) (
        ground (
          arith,
          orm.get-save id (delivered now n) s.notifications,
          orm.get_key id s.notifications n there,
        ))

  pub work-delivered :
      (now id : ℕ) (n : Notification) (ids : List ℕ) (s : NotifyState orm)
      → orm.get id s.notifications ≡ some (delivered now n)
      → orm.get id (work now ids s).notifications ≡ some (delivered now n)
  work-delivered now id n [] s there = there
  work-delivered now id n (k ∷ ks) s there =
      work-delivered now id n ks (process registered now k s).1
        (process-delivered now id k n s there)
