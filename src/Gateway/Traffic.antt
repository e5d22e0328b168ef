-- ===== src/Gateway/Traffic.antt =====
-- What a run of requests through the gateway gives: how many are answered, and what is logged.
use developer_platform_backe.RateLimit.Window.{IsCoherent, Counted}
use developer_platform_backe.Organizations.{Organization, organization_entity}
use mathlib.Core.Path.{subst}
use developer_platform_backe.Webhooks.Delivery.{succeeds}
use developer_platform_backe.RateLimit.Schedule.{
  concerns, one_if, Arrival, passes, admitted, admitted-eq-min,
}
use developer_platform_backe.ApiKeys.{KeyEnv, KeysState}
use developer_platform_backe.Redis.{Redis}
use developer_platform_backe.RateLimit.{can_activate as limit_guard, LimiterState}
use developer_platform_backe.ApiKeys.Guard.{can_activate as key_guard, ApiKeyContext}
use developer_platform_backe.Gateway.{
  status_of, Envelope, GatewayRequest, GatewayState, serve, pipeline, record_log, row_of,
}
use developer_platform_backe.Prelude.{
  ℕ, ◌+◌, ◌≤◌, ◌≡◌, refl, ap, ◌∙◌, inl, inr, Bool, true, false, ◌&&◌, Option, none, some, List, [],
  ◌∷◌, arith,
}
use developer_platform_backe.Prelude.Action.{Result, ok, err, HttpError, Run-cases}
use developer_platform_backe.Orm.{Orm}

-- Answered for the organization `o`, in the window `w`.
abbrev pub is_answered :
    {Body : Type 0} → (o w now : ℕ) → Result (Envelope Body) → Option ApiKeyContext → Bool
is_answered o w now answer none = false
is_answered o w now answer (some c) =
    concerns o w (record { now = now; organization_id = c.organization_id }) && succeeds answer

-- A request that the first guard passed goes on to the limiter.
abbrev arrive : (now : ℕ) → Option ApiKeyContext → List Arrival → List Arrival
arrive now none rest = rest
arrive now (some c) rest = record { now = now; organization_id = c.organization_id } ∷ rest

answered_step :
    {Body : Type 0} (o w now : ℕ) (answer : Result (Envelope Body)) (c : ApiKeyContext) (p : Bool)
    → (succeeds answer ≡ true → p ≡ true)
    → one_if (is_answered o w now answer (some c))
      ≤ one_if (concerns o w (record { now = now; organization_id = c.organization_id }) && p)
answered_step o w now (ok envelope) c p h = ground (arith, h refl)
answered_step o w now (err e) c p h = ground arith

module _ {orm : Orm} {redis : Redis} {Body : Type 0} (env : KeyEnv) where
  -- The run of a schedule of requests
  abbrev pub serve_all :
      List (GatewayRequest Body) → GatewayState orm redis → GatewayState orm redis
  serve_all [] s = s
  serve_all (q ∷ qs) s = serve_all qs (serve env q s).1

  -- How many of them are answered with data for `o` in the window `w`.
  abbrev pub answered : (o w : ℕ) → List (GatewayRequest Body) → GatewayState orm redis → ℕ
  answered o w [] s = 0
  answered o w (q ∷ qs) s =
      one_if (is_answered o w q.now (pipeline env q s).0.0 (pipeline env q s).0.1)
      + answered o w qs (serve env q s).1

  -- The arrivals at the rate limiter that they cause.
  abbrev arrivals : List (GatewayRequest Body) → GatewayState orm redis → List Arrival
  arrivals [] s = []
  arrivals (q ∷ qs) s = arrive q.now (pipeline env q s).0.1 (arrivals qs (serve env q s).1)

  module _ (q : GatewayRequest Body) (s : GatewayState orm redis) where
    pub pipeline-refused :
        (e : HttpError) (k : KeysState orm)
        → key_guard env q.now q.api_key s.keys ≡ (err e, k)
        → pipeline env q s ≡ ((err e, none), record s { keys = k })
    unfolding pipeline
    pipeline-refused e k refused = ground (arith, refused)

    -- A request that the first guard passes meets the second, with its state.
    pub pipeline-known :
        (c : ApiKeyContext) (k : KeysState orm)
        → key_guard env q.now q.api_key s.keys ≡ (ok c, k)
        → let second = limit_guard q.now (some c.organization_id) s.limiter in
          ((pipeline env q s).0.1 ≡ some c)
          × ((pipeline env q s).1 ≡ record s { keys = k; limiter = second.1 })
          × (succeeds (pipeline env q s).0.0 ≡ true → passes second.0.0 ≡ true)
    unfolding pipeline
    pipeline-known c k passed =
        (ground (arith, passed), ground (arith, passed), ground (arith, passed))

    -- The state after a request, seen from the limiter, and what was logged.
    serve_lem :
        (serve env q s).1
        ≡ record_log
            (row_of q (pipeline env q s).0.1 (status_of (pipeline env q s).0.0))
            (pipeline env q s).1
    unfolding serve
    serve_lem = refl

    serve_limiter : (serve env q s).1.limiter ≡ (pipeline env q s).1.limiter
    serve_limiter = ap (λ t. t.limiter) serve_lem

  answered_le :
      (o w : ℕ) (qs : List (GatewayRequest Body)) (s : GatewayState orm redis)
      → answered o w qs s ≤ admitted o w (arrivals qs s) s.limiter
  unfolding admitted
  answered_le o w [] s = omega arith
  answered_le o w (q ∷ qs) s =
      let later : LimiterState orm redis → Type 0 =
        λ l. answered o w qs (serve env q s).1 ≤ admitted o w (arrivals qs (serve env q s).1) l in
      elim (Run-cases (key_guard env q.now q.api_key s.keys)) [
        | inr (e, k, refused) ↦
            let gone = pipeline-refused q s e k refused in
            let rest =
              subst later (serve_limiter q s ∙ ap (λ r. r.1.limiter) gone)
                (answered_le o w qs (serve env q s).1) in
            rw gone (omega (arith, rest))
        | inl (c, k, passed) ↦
            let (caller, after, meets) = pipeline-known q s c k passed in
            let second = limit_guard q.now (some c.organization_id) s.limiter in
            let rest =
              subst later (serve_limiter q s ∙ ap (λ t. t.limiter) after)
                (answered_le o w qs (serve env q s).1) in
            let first =
              answered_step o w q.now (pipeline env q s).0.0 c (passes second.0.0) meets in
            rw caller (omega (arith, first, rest))
      ]

  -- Run any schedule of requests through the gateway, with any keys, from a state whose cached limits
  -- agree with the table and that has no counter yet for organization `o` in window `w`: no more
  -- requests of `o` in that window are answered than the limit in the row of `o`.
  pub answered-le_limit :
      (o w : ℕ) (row : Organization) (qs : List (GatewayRequest Body)) (s : GatewayState orm redis)
      → IsCoherent s.limiter.org_state
      → orm.get o s.limiter.org_state.orgs ≡ some row
      → Counted o w 0 s.limiter.org_state
      → answered o w qs s ≤ row.requests_per_minute
  answered-le_limit o w row qs s coherent present unused = omega (
    arith,
    answered_le o w qs s,
    admitted-eq-min o w row (arrivals qs s) s.limiter coherent present unused,
  )
