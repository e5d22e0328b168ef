-- ===== src/RateLimit/Steps.antt =====
-- What `consume` does to the request's own counter and to the others.
use developer_platform_backe.Prelude.{
  ℕ, zero, suc, false, some, ◌≡◌, refl, ◌∙◌, inl, inr, Option-cases,
}
use developer_platform_backe.Prelude.Action.{Result, ok, err}
use developer_platform_backe.Orm.{Orm}
use developer_platform_backe.Redis.{Redis, count_key, same_key}
use developer_platform_backe.Organizations.{Organization, organization_entity}
use developer_platform_backe.RateLimit.{LimiterState, get_limit, consume, result_of, window_of}
use developer_platform_backe.RateLimit.Window.{
  IsCoherent, Counted, Keeps, get_limit_row, get_limit_no_row,
}
use developer_platform_backe.RateLimit.Counting.{
  events_after, consume-ok, consume-err, counted-Counted, counted-Counted_ne, counted-IsCoherent,
}

module _ {orm : Orm} {redis : Redis} where
  Counted-Keeps :
      (p w c : ℕ) (s s' : LimiterState orm redis)
      → Keeps s s'
      → Counted p w c s.org_state
      → Counted p w c s'.org_state
  Counted-Keeps p w zero s s' k h = k.counters p w ∙ h
  Counted-Keeps p w (suc c) s s' k (d, present, late) = (d, k.counters p w ∙ present, late)

  get_limit-Keeps :
      (now o : ℕ) (s : LimiterState orm redis)
      → IsCoherent s.org_state
      → Keeps s (get_limit now o s).1
  get_limit-Keeps now o s c = elim (Option-cases (orm.get o s.org_state.orgs)) [
    | inl absent ↦
        rw (get_limit_no_row now o s absent)
          (record { orgs = refl; events = refl; counters = λ p w. refl; coherent = c })
    | inr (row, present) ↦ let (s', e, k) = get_limit_row now o s row c present in rw e k
  ]

  -- A request by an organization with a row, after `c` others in the same window.
  pub record Served (now o limit c : ℕ) (s : LimiterState orm redis) : Type 0 where
    pub result : (consume now o s).0 ≡ ok (result_of now limit (suc c))
    pub counter : Counted o (window_of now) (suc c) (consume now o s).1.org_state
    pub coherent : IsCoherent (consume now o s).1.org_state
    pub orgs : (consume now o s).1.org_state.orgs ≡ s.org_state.orgs
    pub events : (consume now o s).1.events ≡ events_after o limit (suc c) s.events

  pub consume-Served :
      (now o c : ℕ) (s : LimiterState orm redis) (row : Organization)
      → IsCoherent s.org_state
      → orm.get o s.org_state.orgs ≡ some row
      → Counted o (window_of now) c s.org_state
      → Served now o row.requests_per_minute c s
  consume-Served now o c s row coherent present h =
      let limit : ℕ = row.requests_per_minute in
      let (s', e, k) = get_limit_row now o s row coherent present in
      let (count, counter) =
        counted-Counted now o limit c s' (Counted-Keeps o (window_of now) c s s' k h) in
      let after = consume-ok now o limit s s' e in
      record {
        result = rw (after, count);
        counter = rw after counter;
        coherent = rw after (counted-IsCoherent now o limit s' k.coherent);
        orgs = rw after (k.orgs);
        events = rw (after, count, k.events);
      }

  -- A request leaves the counters of other organizations and of other windows alone.
  pub record Untouched (now o p w c : ℕ) (s : LimiterState orm redis) : Type 0 where
    pub counter : Counted p w c (consume now o s).1.org_state
    pub coherent : IsCoherent (consume now o s).1.org_state
    pub orgs : (consume now o s).1.org_state.orgs ≡ s.org_state.orgs

  pub consume-Untouched :
      (now o p w c : ℕ) (s : LimiterState orm redis)
      → same_key (count_key p w) (count_key o (window_of now)) ≡ false
      → IsCoherent s.org_state
      → Counted p w c s.org_state
      → Untouched now o p w c s
  consume-Untouched now o p w c s ne coherent h =
      go (get_limit now o s).0 (get_limit now o s).1 refl (get_limit-Keeps now o s coherent)
    where
      go :
          (r : Result ℕ) (s' : LimiterState orm redis)
          → get_limit now o s ≡ (r, s')
          → Keeps s s'
          → Untouched now o p w c s
      go (ok limit) s' e k =
          let after = consume-ok now o limit s s' e in
          record {
            counter =
                rw after
                  (counted-Counted_ne now o limit p w c s' ne (Counted-Keeps p w c s s' k h));
            coherent = rw after (counted-IsCoherent now o limit s' k.coherent);
            orgs = rw after (k.orgs);
          }
      go (err x) s' e k =
          let after = consume-err now o x s s' e in
          record {
            counter = rw after (Counted-Keeps p w c s s' k h);
            coherent = rw after (k.coherent);
            orgs = rw after (k.orgs);
          }
