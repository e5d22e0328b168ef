-- ===== src/Notifications/FanOut.antt =====
-- `notify`: a row for each channel, and its job.
use developer_platform_backe.Orm.Laws.{get-save_self}
use mathlib.Core.List.{append-nil, append_assoc}
use developer_platform_backe.Notifications.{
  Notification, ChannelType, NotifyState, NotifyInput, new_notification, notify_channels,
  notification_entity,
}
use developer_platform_backe.Prelude.{ℕ, ◌≡◌, refl, sym, ◌∙◌, some, List, [], ◌∷◌, ◌++◌, arith}
use developer_platform_backe.Prelude.Action.{ok}
use developer_platform_backe.Orm.{Orm}

module _ {orm : Orm} where
  -- A row for each channel, under its key, as `f` makes it.
  abbrev pub HasRows :
      (ℕ → ChannelType → Notification) → List ChannelType → List ℕ → NotifyState orm → Type 0
  HasRows f [] [] s = Unit
  HasRows f (c ∷ cs) (i ∷ is) s = (orm.get i s.notifications ≡ some (f i c)) × HasRows f cs is s
  HasRows f _ _ s = ⊥

  -- Every row that was stored is stored unchanged.
  abbrev pub Keeps : NotifyState orm → NotifyState orm → Type 0
  Keeps s t =
      (k : ℕ) (n : Notification)
      → orm.get k s.notifications ≡ some n
      → orm.get k t.notifications ≡ some n

  pub record IsFannedOut (input : NotifyInput) (channels : List ChannelType) (ids : List ℕ)
      (s t : NotifyState orm) : Type 0 where
    pub rows : HasRows (new_notification input) channels ids t
    pub keeps : Keeps s t
    pub queued : t.queue ≡ s.queue ++ ids

  -- The state after the row of one channel.
  abbrev with_row : NotifyInput → ChannelType → NotifyState orm → NotifyState orm
  with_row input c s = record s {
    notifications = orm.save (new_notification input (orm.fresh s.notifications) c) s.notifications;
    queue = s.queue ++ (orm.fresh s.notifications ∷ []);
  }

  with_row-Keeps :
      (input : NotifyInput) (c : ChannelType) (s : NotifyState orm) → Keeps s (with_row input c s)
  unfolding new_notification
  with_row-Keeps input c s k n stored = ground (
    arith,
    orm.get-save k (new_notification input (orm.fresh s.notifications) c) s.notifications,
    orm.get-fresh s.notifications,
  )

  pub notify_lem :
      (input : NotifyInput) (channels : List ChannelType) (s : NotifyState orm)
      → (ids : List ℕ) × (t : NotifyState orm) × (notify_channels input channels s ≡ (ok ids, t))
        × IsFannedOut input channels ids s t
  unfolding notify_channels new_notification
  notify_lem input [] s =
      ([], s, refl, record { rows = tt; keeps = λ k n h. h; queued = sym (append-nil s.queue) })
  notify_lem input (c ∷ cs) s =
      let id : ℕ = orm.fresh s.notifications in
      let next : NotifyState orm = with_row input c s in
      let (ids, t, run, rest) = notify_lem input cs next in
      (
        id ∷ ids,
        t,
        ground (arith, run),
        record {
          rows = (
            rest.keeps id (new_notification input id c)
                (get-save_self orm (new_notification input id c) s.notifications),
            rest.rows,
          );
          keeps = λ k n h. rest.keeps k n (with_row-Keeps input c s k n h);
          queued = rest.queued ∙ append_assoc s.queue (id ∷ []) ids;
        },
      )
