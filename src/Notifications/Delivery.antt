-- ===== src/Notifications/Delivery.antt =====
-- From an event to its delivered notifications: every channel gets its row, and the worker sends it.
use developer_platform_backe.Notifications.Worker.{
  delivered, IsOnItsWay, process-IsOnItsWay, work, work-delivered, process-sends,
}
use developer_platform_backe.Notifications.FanOut.{HasRows, notify_lem, Keeps}
use developer_platform_backe.Notifications.{
  pending, sent, process, notify, Notification, ChannelType, NotifyState, NotifyInput,
  new_notification, notification_entity, registered,
}
use developer_platform_backe.Prelude.{
  ℕ, ◌≡◌, refl, inl, none, some, List, [], ◌∷◌, arith, length, ◌++◌,
}
use developer_platform_backe.Prelude.Action.{ok}
use developer_platform_backe.Orm.{Orm}

-- The row is for the channel, and has the recipient and the text of the input.
abbrev pub IsFor : NotifyInput → ChannelType → Notification → Type 0
IsFor input c n =
    (n.channel ≡ c)
    × (n.organization_id ≡ input.organization_id)
    × (n.user_id ≡ input.user_id)
    × (n.type ≡ input.type)
    × (n.title ≡ input.title)
    × (n.message ≡ input.message)
    × (n.metadata ≡ input.metadata)

abbrev pub IsWaiting : NotifyInput → ChannelType → Notification → Type 0
IsWaiting input c n = IsFor input c n × (n.status ≡ pending) × (n.sent_at ≡ none)

abbrev pub IsSent : NotifyInput → (now : ℕ) → ChannelType → Notification → Type 0
IsSent input now c n = IsFor input c n × (n.status ≡ sent) × (n.sent_at ≡ some now)

new-IsWaiting :
    (input : NotifyInput) (i : ℕ) (c : ChannelType) → IsWaiting input c (new_notification input i c)
unfolding new_notification
new-IsWaiting input i c = ((refl, refl, refl, refl, refl, refl, refl), refl, refl)

new-IsSent :
    (input : NotifyInput) (now i : ℕ) (c : ChannelType)
    → IsSent input now c (delivered now (new_notification input i c))
unfolding new_notification
new-IsSent input now i c = ((refl, refl, refl, refl, refl, refl, refl), refl, refl)

module _ {orm : Orm} where
  -- The rows of the channels are waiting or sent.
  abbrev AreOnTheirWay :
      (now : ℕ) → NotifyInput → List ChannelType → List ℕ → NotifyState orm → Type 0
  AreOnTheirWay now input [] [] s = Unit
  AreOnTheirWay now input (c ∷ cs) (i ∷ is) s =
      IsOnItsWay now i (new_notification input i c) s × AreOnTheirWay now input cs is s
  AreOnTheirWay now input _ _ s = ⊥

  rows-AreOnTheirWay :
      (now : ℕ) (input : NotifyInput) (cs : List ChannelType) (is : List ℕ) (s : NotifyState orm)
      → HasRows (new_notification input) cs is s
      → AreOnTheirWay now input cs is s
  rows-AreOnTheirWay now input [] [] s h = tt
  rows-AreOnTheirWay now input (c ∷ cs) (i ∷ is) s (row, rest) =
      (inl row, rows-AreOnTheirWay now input cs is s rest)
  rows-AreOnTheirWay now input [] (i ∷ is) s h = absurd h
  rows-AreOnTheirWay now input (c ∷ cs) [] s h = absurd h

  process-AreOnTheirWay :
      (now k : ℕ) (input : NotifyInput) (cs : List ChannelType) (is : List ℕ) (s : NotifyState orm)
      → AreOnTheirWay now input cs is s
      → AreOnTheirWay now input cs is (process registered now k s).1
  process-AreOnTheirWay now k input [] [] s h = tt
  process-AreOnTheirWay now k input (c ∷ cs) (i ∷ is) s (way, rest) = (
    process-IsOnItsWay now i k (new_notification input i c) s way,
    process-AreOnTheirWay now k input cs is s rest,
  )
  process-AreOnTheirWay now k input [] (i ∷ is) s h = absurd h
  process-AreOnTheirWay now k input (c ∷ cs) [] s h = absurd h

  work-HasRows :
      (now : ℕ) (input : NotifyInput) (cs : List ChannelType) (is : List ℕ) (s : NotifyState orm)
      → AreOnTheirWay now input cs is s
      → HasRows (λ i c. delivered now (new_notification input i c)) cs is (work now is s)
  unfolding new_notification
  work-HasRows now input [] [] s h = tt
  work-HasRows now input (c ∷ cs) (i ∷ is) s (way, rest) =
      let n : Notification = new_notification input i c in
      let next : NotifyState orm = (process registered now i s).1 in
      (
        work-delivered now i n is next (process-sends now i n s refl way),
        work-HasRows now input cs is next (process-AreOnTheirWay now i input cs is s rest),
      )
  work-HasRows now input [] (i ∷ is) s h = absurd h
  work-HasRows now input (c ∷ cs) [] s h = absurd h

  length-HasRows :
      (f : ℕ → ChannelType → Notification) (cs : List ChannelType) (is : List ℕ)
      (s : NotifyState orm)
      → HasRows f cs is s
      → length is ≡ length cs
  length-HasRows f [] [] s h = refl
  length-HasRows f (c ∷ cs) (i ∷ is) s (row, rest) = omega (arith, length-HasRows f cs is s rest)
  length-HasRows f [] (i ∷ is) s h = absurd h
  length-HasRows f (c ∷ cs) [] s h = absurd h

  -- A row for each channel, under its key, of which `P` holds.
  abbrev pub AreStored :
      (ChannelType → Notification → Type 0) → List ChannelType → List ℕ → NotifyState orm → Type 0
  AreStored P [] [] s = Unit
  AreStored P (c ∷ cs) (i ∷ is) s =
      ((n : Notification) × (orm.get i s.notifications ≡ some n) × P c n) × AreStored P cs is s
  AreStored P _ _ s = ⊥

  rows-AreStored :
      (f : ℕ → ChannelType → Notification) (P : ChannelType → Notification → Type 0)
      → ((i : ℕ) (c : ChannelType) → P c (f i c))
      → (cs : List ChannelType) (is : List ℕ) (s : NotifyState orm) → HasRows f cs is s
      → AreStored P cs is s
  rows-AreStored f P holds [] [] s h = tt
  rows-AreStored f P holds (c ∷ cs) (i ∷ is) s (row, rest) =
      ((f i c, row, holds i c), rows-AreStored f P holds cs is s rest)
  rows-AreStored f P holds [] (i ∷ is) s h = absurd h
  rows-AreStored f P holds (c ∷ cs) [] s h = absurd h

  -- `notify` succeeds with as many keys as the input has channels: under each key there is a waiting row
  -- for its channel with the recipient and the text of the input, the jobs of the keys are at the end
  -- of the queue in that order, and the rows there were are as before. Once the worker has run these
  -- jobs, every one of these rows is sent, and for the same channel, recipient and text.
  pub notify-IsFannedOut :
      (input : NotifyInput) (s : NotifyState orm)
      → (ids : List ℕ) × (t : NotifyState orm) × (notify input s
          ≡ (ok (length input.channels, ids), t))
        × AreStored (IsWaiting input) input.channels ids t
        × Keeps s t
        × (t.queue ≡ s.queue ++ ids)
        × ((now : ℕ) → AreStored (IsSent input now) input.channels ids (work now ids t))
  unfolding notify
  notify-IsFannedOut input s =
      let (ids, t, run, fanned) = notify_lem input input.channels s in
      let count = length-HasRows (new_notification input) input.channels ids t fanned.rows in
      (
        ids,
        t,
        ground (arith, run, count),
        rows-AreStored (new_notification input) (IsWaiting input) (new-IsWaiting input)
            input.channels ids t fanned.rows,
        fanned.keeps,
        fanned.queued,
        λ now.
            rows-AreStored (λ i c. delivered now (new_notification input i c)) (IsSent input now)
              (new-IsSent input now) input.channels ids (work now ids t)
              (work-HasRows now input input.channels ids t
                (rows-AreOnTheirWay now input input.channels ids t fanned.rows)),
      )
