-- ===== src/RateLimit/Counting.antt =====
-- How one request counts: the counter of its own window goes up by one, all else stays.
use developer_platform_backe.Prelude.{
  ℕ, zero, suc, ◌+◌, ◌<◌, false, none, some, List, [], ◌∷◌, ◌++◌, ◌≡◌, refl, sym, ◌∙◌, ◌==◌, arith,
  if◌then◌else◌,
}
use developer_platform_backe.Prelude.Action.{ok, err, HttpError}
use developer_platform_backe.Orm.{Orm}
use developer_platform_backe.Redis.{Redis, Key, limit_key, count_key, same_key}
use developer_platform_backe.Organizations.{organization_entity}
use developer_platform_backe.RateLimit.{
  Exceeded, LimiterState, get_limit, consume, result_of, window_of,
}
use developer_platform_backe.RateLimit.Window.{IsCoherent, Counted}

abbrev pub events_after : ℕ → ℕ → ℕ → List Exceeded → List Exceeded
events_after o limit count es =
    if count == limit + 1 then es ++ record { organization_id = o; limit = limit } ∷ [] else es

module _ (redis : Redis) where
  -- The count that INCR returns, and the store after INCR and EXPIRE.
  abbrev pub count_of : ℕ → ℕ → redis.Store → ℕ
  count_of now o r = (redis.incr now (count_key o (window_of now)) r).0

  abbrev pub counted_store : ℕ → ℕ → redis.Store → redis.Store
  counted_store now o r =
      let r' : redis.Store = (redis.incr now (count_key o (window_of now)) r).1 in
      if count_of now o r == 1 then redis.expire now (count_key o (window_of now)) 60 r' else r'

module _ {orm : Orm} {redis : Redis} where
  abbrev pub counted : ℕ → ℕ → ℕ → LimiterState orm redis → LimiterState orm redis
  counted now o limit s = record {
    org_state = record (s.org_state) {
      redis_store = counted_store redis now o s.org_state.redis_store;
    };
    events = events_after o limit (count_of redis now o s.org_state.redis_store) s.events;
  }

  -- Once the limit is read, `consume` counts the request and answers from the count.
  pub consume-ok :
      (now o limit : ℕ) (s s' : LimiterState orm redis)
      → get_limit now o s ≡ (ok limit, s')
      → consume now o s ≡ (
        ok (result_of now limit (count_of redis now o s'.org_state.redis_store)),
        counted now o limit s',
      )
  unfolding consume
  consume-ok now o limit s s' h = ground arith

  pub consume-err :
      (now o : ℕ) (e : HttpError) (s s' : LimiterState orm redis)
      → get_limit now o s ≡ (err e, s')
      → consume now o s ≡ (err e, s')
  unfolding consume
  consume-err now o e s s' h = ground arith

module _ (redis : Redis) (now o : ℕ) (r : redis.Store) where
  abbrev own_key : Key
  own_key = count_key o (window_of now)

  abbrev bumped_store : redis.Store
  bumped_store = (redis.incr now own_key r).1

  -- The first request of a window counts 1 and sets the deadline.
  count_first :
      redis.entry own_key r ≡ none
      → (count_of redis now o r ≡ 1)
        × (redis.entry own_key (counted_store redis now o r)
            ≡ some (record { value = 1; deadline = some (now + 60000) }))
  count_first h =
      let one : count_of redis now o r ≡ 1 = ground (arith, redis.incr_value now own_key r) in
      (
        one,
        ground (
          arith,
          redis.entry-incr now own_key own_key r,
          redis.entry-expire now own_key own_key 60 bumped_store,
        ),
      )

  -- A later request counts one more and keeps the deadline.
  count_next :
      (c d : ℕ)
      → redis.entry own_key r ≡ some (record { value = suc c; deadline = some d })
      → now < d
      → (count_of redis now o r ≡ suc (suc c))
        × (redis.entry own_key (counted_store redis now o r)
            ≡ some (record { value = suc (suc c); deadline = some d }))
  count_next c d h alive =
      let more : count_of redis now o r ≡ suc (suc c) =
        ground (arith, redis.incr_value now own_key r) in
      (more, ground (arith, redis.entry-incr now own_key own_key r))

  -- Every other key keeps its entry.
  entry-counted :
      (k : Key)
      → same_key k own_key ≡ false
      → redis.entry k (counted_store redis now o r) ≡ redis.entry k r
  entry-counted k h =
      ground
        (arith, redis.entry-incr now k own_key r, redis.entry-expire now k own_key 60 bumped_store)

module _ {orm : Orm} {redis : Redis} where
  pub counted-Counted :
      (now o limit c : ℕ) (s : LimiterState orm redis)
      → Counted o (window_of now) c s.org_state
      → (count_of redis now o s.org_state.redis_store ≡ suc c)
        × Counted o (window_of now) (suc c) (counted now o limit s).org_state
  counted-Counted now o limit zero s h =
      let (one, stored) = count_first redis now o s.org_state.redis_store h in
      (one, (now + 60000, stored, omega arith))
  counted-Counted now o limit (suc c) s (d, present, late) =
      let (more, stored) =
        count_next redis now o s.org_state.redis_store c d present (omega arith) in
      (more, (d, stored, late))

  pub counted-Counted_ne :
      (now o limit p w c : ℕ) (s : LimiterState orm redis)
      → same_key (count_key p w) (count_key o (window_of now)) ≡ false
      → Counted p w c s.org_state
      → Counted p w c (counted now o limit s).org_state
  counted-Counted_ne now o limit p w zero s ne h =
      entry-counted redis now o s.org_state.redis_store (count_key p w) ne ∙ h
  counted-Counted_ne now o limit p w (suc c) s ne (d, present, late) =
      (d, entry-counted redis now o s.org_state.redis_store (count_key p w) ne ∙ present, late)

  pub counted-IsCoherent :
      (now o limit : ℕ) (s : LimiterState orm redis)
      → IsCoherent s.org_state
      → IsCoherent (counted now o limit s).org_state
  counted-IsCoherent now o limit s c p e row stored g =
      c p e row
        (sym (entry-counted redis now o s.org_state.redis_store (limit_key p) refl) ∙ stored) g
