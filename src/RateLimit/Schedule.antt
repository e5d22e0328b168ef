-- ===== src/RateLimit/Schedule.antt =====
-- Whole schedules of gateway requests, by any organizations and at any times in any order.
use Prim.Native.Nat.{min}
use native.Mathlib.Nat.{zero-add}
use native.Mathlib.Numerals.{one-add}
use developer_platform_backe.Prelude.{
  ℕ, suc, ◌+◌, ◌-◌, Bool, false, ◌&&◌, some, List, [], ◌∷◌, ◌≡◌, ◌==◌, leb, arith, if◌then◌else◌,
  length, length-append, true, Bool-cases, inl, inr, ltb,
}
use developer_platform_backe.Prelude.Action.{Result, ok, err}
use developer_platform_backe.Orm.{Orm}
use developer_platform_backe.Redis.{Redis}
use developer_platform_backe.Organizations.{Organization, organization_entity}
use developer_platform_backe.RateLimit.{
  Exceeded, LimiterState, consume, can_activate, result_of, guard_result, window_of,
}
use developer_platform_backe.RateLimit.Window.{IsCoherent, Counted}
use developer_platform_backe.RateLimit.Counting.{events_after}
use developer_platform_backe.RateLimit.Steps.{consume-Served, consume-Untouched}

pub record Arrival : Type 0 where
  pub now : ℕ
  pub organization_id : ℕ

-- The request counts in window `w` of organization `o`.
abbrev pub concerns : ℕ → ℕ → Arrival → Bool
concerns o w q = o == q.organization_id && w == window_of q.now

abbrev pub passes : Result Bool → Bool
passes (ok b) = b
passes (err e) = false

abbrev pub one_if : Bool → ℕ
one_if b = if b then 1 else 0

-- How many requests of the schedule count in the window.
abbrev pub asked : ℕ → ℕ → List Arrival → ℕ
asked o w [] = 0
asked o w (q ∷ qs) = one_if (concerns o w q) + asked o w qs

passes-guard_result :
    (now limit count : ℕ) → passes (guard_result (result_of now limit count)).0 ≡ leb count limit
unfolding guard_result result_of
passes-guard_result now limit count = ground arith

length-events_after :
    (o limit count : ℕ) (es : List Exceeded)
    → length (events_after o limit count es) - length es ≡ one_if (count == limit + 1)
length-events_after o limit count es =
    ground (arith, length-append es (record { organization_id = o; limit = limit } ∷ []))

module _ {orm : Orm} {redis : Redis} where
  -- How many of those the guard lets through when the schedule runs from `s`.
  unfoldable pub admitted : ℕ → ℕ → List Arrival → LimiterState orm redis → ℕ
  admitted o w [] s = 0
  admitted o w (q ∷ qs) s =
      let (answer, s') = can_activate q.now (some q.organization_id) s in
      one_if (concerns o w q && passes answer.0) + admitted o w qs s'

  -- How many notices "rate limit exceeded" they cause.
  unfoldable pub notices : ℕ → ℕ → List Arrival → LimiterState orm redis → ℕ
  notices o w [] s = 0
  notices o w (q ∷ qs) s =
      let (answer, s') = can_activate q.now (some q.organization_id) s in
      (if concerns o w q then length s'.events - length s.events else 0) + notices o w qs s'

  can_activate-state :
      (now o : ℕ) (s : LimiterState orm redis)
      → (can_activate now (some o) s).1 ≡ (consume now o s).1
  unfolding can_activate
  can_activate-state now o s = ground arith

  -- The guard's answer to the request of an organization with a row.
  pub can_activate-ok :
      (now o c : ℕ) (s : LimiterState orm redis) (row : Organization)
      → IsCoherent s.org_state
      → orm.get o s.org_state.orgs ≡ some row
      → Counted o (window_of now) c s.org_state
      → let (verdict, headers) = guard_result (result_of now row.requests_per_minute (suc c)) in
        (can_activate now (some o) s).0 ≡ (verdict, some headers)
  unfolding can_activate
  can_activate-ok now o c s row coherent present h =
      let served = consume-Served now o c s row coherent present h in ground (arith, served.result)

  -- What the induction carries: the counter stands at `c`, and the row has the limit.
  record IsAt (o w c : ℕ) (row : Organization) (s : LimiterState orm redis) : Type 0 where
    coherent : IsCoherent s.org_state
    present : orm.get o s.org_state.orgs ≡ some row
    counter : Counted o w c s.org_state

  -- A request that concerns the window is answered by its place in the window.
  own_step :
      (now o c : ℕ) (row : Organization) (s : LimiterState orm redis)
      → IsAt o (window_of now) c row s
      → let (answer, s') = can_activate now (some o) s in
        IsAt o (window_of now) (suc c) row s'
        × (passes answer.0 ≡ leb (suc c) row.requests_per_minute)
        × (length s'.events - length s.events ≡ one_if (suc c == row.requests_per_minute + 1))
  own_step now o c row s h =
      let served = consume-Served now o c s row h.coherent h.present h.counter in
      let limit : ℕ = row.requests_per_minute in
      (
        rw (can_activate-state now o s) (record {
          coherent = served.coherent;
          present = rw (served.orgs) (h.present);
          counter = served.counter;
        }),
        rw (can_activate-ok now o c s row h.coherent h.present h.counter)
            (passes-guard_result now limit (suc c)),
        rw (can_activate-state now o s, served.events)
            (length-events_after o limit (suc c) s.events),
      )

  other_step :
      (now p o w c : ℕ) (row : Organization) (s : LimiterState orm redis)
      → (o == p && w == window_of now) ≡ false
      → IsAt o w c row s
      → IsAt o w c row (can_activate now (some p) s).1
  other_step now p o w c row s ne h =
      let kept = consume-Untouched now p o w c s ne h.coherent h.counter in
      rw (can_activate-state now p s) (record {
        coherent = kept.coherent;
        present = rw (kept.orgs) (h.present);
        counter = kept.counter;
      })

  -- One request, whichever window it concerns.
  record Advances (q : Arrival) (o w c : ℕ) (row : Organization) (s : LimiterState orm redis)
      : Type 0 where
    next :
        IsAt o w (one_if (concerns o w q) + c) row (can_activate q.now (some q.organization_id) s).1
    verdict :
        concerns o w q ≡ true
        → passes (can_activate q.now (some q.organization_id) s).0.0
          ≡ leb (suc c) row.requests_per_minute
    notice :
        concerns o w q ≡ true
        → length (can_activate q.now (some q.organization_id) s).1.events - length s.events
          ≡ one_if (suc c == row.requests_per_minute + 1)

  own_Advances :
      (now p o w c : ℕ) (row : Organization) (s : LimiterState orm redis)
      → o ≡ p
      → w ≡ window_of now
      → IsAt o w c row s
      → IsAt o w (suc c) row (can_activate now (some p) s).1
        × (passes (can_activate now (some p) s).0.0 ≡ leb (suc c) row.requests_per_minute)
        × (length (can_activate now (some p) s).1.events - length s.events
            ≡ one_if (suc c == row.requests_per_minute + 1))
  own_Advances now p o w c row s eo ew h = rw (← eo, ew) (own_step now o c row s (rw ew at h))

  advance :
      (q : Arrival) (o w c : ℕ) (row : Organization) (s : LimiterState orm redis)
      → IsAt o w c row s
      → Advances q o w c row s
  advance q o w c row s h = elim (Bool-cases (concerns o w q)) [
    | inl own ↦
        let (next, verdict, notice) =
          own_Advances q.now q.organization_id o w c row s (ground arith) (ground arith) h in
        record { next = rw (own, one-add) next; verdict = λ _. verdict; notice = λ _. notice }
    | inr other ↦ record {
      next = rw (other, zero-add) (other_step q.now q.organization_id o w c row s other h);
      verdict = λ own. ground arith;
      notice = λ own. ground arith;
    }
  ]

  admitted_from :
      (o w c : ℕ) (row : Organization) (qs : List Arrival) (s : LimiterState orm redis)
      → IsAt o w c row s
      → admitted o w qs s ≡ min (asked o w qs) (row.requests_per_minute - c)
  unfolding admitted
  admitted_from o w c row [] s h = omega arith
  admitted_from o w c row (q ∷ qs) s h =
      let step = advance q o w c row s h in
      ground (
        arith,
        step.verdict,
        admitted_from o w (one_if (concerns o w q) + c) row qs
            (can_activate q.now (some q.organization_id) s).1 step.next,
      )

  notices_from :
      (o w c : ℕ) (row : Organization) (qs : List Arrival) (s : LimiterState orm redis)
      → IsAt o w c row s
      → notices o w qs s
        ≡ one_if (leb c row.requests_per_minute && ltb row.requests_per_minute (c + asked o w qs))
  unfolding notices
  notices_from o w c row [] s h = ground arith
  notices_from o w c row (q ∷ qs) s h =
      let step = advance q o w c row s h in
      ground (
        arith,
        step.notice,
        notices_from o w (one_if (concerns o w q) + c) row qs
            (can_activate q.now (some q.organization_id) s).1 step.next,
      )

  module _ (o w : ℕ) (row : Organization) (qs : List Arrival) (s : LimiterState orm redis)
      (coherent : IsCoherent s.org_state) (present : orm.get o s.org_state.orgs ≡ some row)
      (unused : Counted o w 0 s.org_state) where
    -- Run any schedule of requests from a state whose cached limits agree with the table and that
    -- has no counter yet for organization `o` in window `w`. Of the requests of `o` that fall into
    -- that window the guard lets through as many as the limit in the row of `o` allows, and no more.
    pub admitted-eq-min : admitted o w qs s ≡ min (asked o w qs) row.requests_per_minute
    admitted-eq-min = omega (
      arith,
      admitted_from o w 0 row qs s
          (record { coherent = coherent; present = present; counter = unused }),
    )

    -- From such a state the notice "rate limit exceeded" goes out once for the window if more
    -- requests come than the limit allows, and not at all otherwise.
    pub notices-eq-one : notices o w qs s ≡ one_if (ltb row.requests_per_minute (asked o w qs))
    notices-eq-one = ground (
      arith,
      notices_from o w 0 row qs s
          (record { coherent = coherent; present = present; counter = unused }),
    )
