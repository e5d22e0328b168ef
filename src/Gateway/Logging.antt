-- ===== src/Gateway/Logging.antt =====
-- What one request through the gateway logs, and what it is answered.
use developer_platform_backe.Gateway.Handling.{IsHandled, dispatch-IsHandled}
use mathlib.Core.Path.{subst}
use developer_platform_backe.ApiKeys.Usage.{IsAuthenticated, can_activate-IsAuthenticated}
use developer_platform_backe.Gateway.Traffic.{pipeline-refused, pipeline-known}
use developer_platform_backe.ApiKeys.{KeyEnv, KeysState, find_valid_by_plaintext}
use developer_platform_backe.Redis.{Redis}
use developer_platform_backe.ApiKeys.Guard.{
  can_activate as key_guard, ApiKeyContext, non_empty, presented,
}
use developer_platform_backe.Gateway.{
  status_of, GatewayRequest, GatewayState, Envelope, pipeline, serve, http_status, row_of, dispatch,
  record_log, bad_request, LogRow, unauthorized, forbidden, not_found, conflict, not_implemented,
  bad_gateway, too_many_requests, failure,
}
use developer_platform_backe.Prelude.{
  ◌≡◌, refl, ap, inl, inr, Option, none, some, ◌∷◌, arith, ℕ, String, Option-cases,
}
use developer_platform_backe.Prelude.Action.{Result, ok, err, HttpError, Run-cases, unauthorized}
use developer_platform_backe.Orm.{Orm}

-- The status of a response, by what it answers.
abbrev pub HasStatus : {A : Type 0} → Result A → ℕ → Type 0
HasStatus (ok a) code = code ≡ 200
HasStatus (err (bad_request m)) code = code ≡ 400
HasStatus (err (unauthorized m)) code = code ≡ 401
HasStatus (err (forbidden m)) code = code ≡ 403
HasStatus (err (not_found m)) code = code ≡ 404
HasStatus (err (conflict m)) code = code ≡ 409
HasStatus (err (not_implemented m)) code = code ≡ 501
HasStatus (err (bad_gateway m)) code = code ≡ 502
HasStatus (err (too_many_requests after limit)) code = code ≡ 429
HasStatus (err (failure m)) code = code ≡ 500

status_of-HasStatus : {A : Type 0} (r : Result A) → HasStatus r (status_of r)
status_of-HasStatus (ok a) = refl
status_of-HasStatus (err (bad_request m)) = refl
status_of-HasStatus (err (unauthorized m)) = refl
status_of-HasStatus (err (forbidden m)) = refl
status_of-HasStatus (err (not_found m)) = refl
status_of-HasStatus (err (conflict m)) = refl
status_of-HasStatus (err (not_implemented m)) = refl
status_of-HasStatus (err (bad_gateway m)) = refl
status_of-HasStatus (err (too_many_requests after limit)) = refl
status_of-HasStatus (err (failure m)) = refl

-- The row names the organization, the application and the key of the caller, or nobody.
abbrev pub Names : Option ApiKeyContext → LogRow → Type 0
Names none row =
    (row.organization_id ≡ none) × (row.application_id ≡ none) × (row.api_key_id ≡ none)
Names (some c) row =
    (row.organization_id ≡ some c.organization_id)
    × (row.application_id ≡ some c.application_id)
    × (row.api_key_id ≡ some c.key_id)

module _ {orm : Orm} {redis : Redis} {Body : Type 0} (env : KeyEnv) (q : GatewayRequest Body)
    (s : GatewayState orm redis) where
  pub record IsLogged (answer : Result (Envelope Body)) (s' : GatewayState orm redis) : Type 0 where
    pub context : Option ApiKeyContext
    pub row : LogRow
    pub logged : s'.logs ≡ row ∷ s.logs
    pub status : HasStatus answer row.status_code
    pub request :
        (row.request_id ≡ q.request_id)
        × (row.method ≡ q.method)
        × (row.endpoint ≡ q.endpoint)
        × (row.ip_address ≡ q.ip_address)
        × (row.user_agent ≡ q.user_agent)
    pub owner : Names context row
    pub unknown :
        context ≡ none
        → (s'.limiter ≡ s.limiter) × ((message : String) × (answer ≡ err (unauthorized message)))
    pub known :
        (c : ApiKeyContext)
        → context ≡ some c
        → IsAuthenticated env q.now q.api_key s.keys c s'.keys
    pub shown :
        (v : Envelope Body)
        → answer ≡ ok v
        → (v.request_id ≡ q.request_id)
          × ((c : ApiKeyContext) × (context ≡ some c) × IsHandled q.route q c v.answer)

  refused-unauthorized :
      (e : HttpError) (k : KeysState orm)
      → key_guard env q.now q.api_key s.keys ≡ (err e, k)
      → (message : String) × (e ≡ unauthorized message)
  unfolding key_guard
  refused-unauthorized e k refused = elim (Option-cases (non_empty (presented q.api_key))) [
    | inl missing ↦ ("Missing API key", ground (arith, missing))
    | inr (text, given) ↦ elim (Option-cases (find_valid_by_plaintext env q.now text s.keys)) [
      | inl unknown ↦ ("Invalid or inactive API key", ground (arith, given, unknown))
      | inr (key, found) ↦ ground (arith, given, found)
    ]
  ]

  row_of-Names : (context : Option ApiKeyContext) (code : ℕ) → Names context (row_of q context code)
  unfolding row_of
  row_of-Names none code = (refl, refl, refl)
  row_of-Names (some c) code = (refl, refl, refl)

  row_of-request :
      (context : Option ApiKeyContext) (code : ℕ)
      → let row = row_of q context code in
        (row.request_id ≡ q.request_id)
        × (row.method ≡ q.method)
        × (row.endpoint ≡ q.endpoint)
        × (row.ip_address ≡ q.ip_address)
        × (row.user_agent ≡ q.user_agent)
  unfolding row_of
  row_of-request context code = (refl, refl, refl, refl, refl)

  row_of-HasStatus :
      (context : Option ApiKeyContext) (answer : Result (Envelope Body))
      → HasStatus answer (row_of q context (status_of answer)).status_code
  unfolding row_of
  row_of-HasStatus context answer = status_of-HasStatus answer

  pipeline-shown :
      (c : ApiKeyContext) (k : KeysState orm) (v : Envelope Body)
      → key_guard env q.now q.api_key s.keys ≡ (ok c, k)
      → (pipeline env q s).0.0 ≡ ok v
      → (v.request_id ≡ q.request_id) × (dispatch q c ≡ ok v.answer)
  unfolding pipeline
  pipeline-shown c k v passed done = (ground (arith, passed), ground (arith, passed))

  authenticated :
      (c : ApiKeyContext) (k : KeysState orm)
      → key_guard env q.now q.api_key s.keys ≡ (ok c, k)
      → IsAuthenticated env q.now q.api_key s.keys c k
  authenticated c k passed =
      subst (λ r. IsAuthenticated env q.now q.api_key s.keys c r.1) passed
        (can_activate-IsAuthenticated env q.now q.api_key s.keys c (ap (λ r. r.0) passed))

  logged : IsLogged (pipeline env q s).0.0 (
      record_log
        (row_of q (pipeline env q s).0.1 (status_of (pipeline env q s).0.0))
        (pipeline env q s).1)
  logged = elim (Run-cases (key_guard env q.now q.api_key s.keys)) [
    | inr (e, k, refused) ↦ rw (pipeline-refused env q s e k refused) (record {
      context = none;
      row = row_of q none (http_status e);
      logged = refl;
      status = row_of-HasStatus none (err e);
      request = row_of-request none (http_status e);
      owner = row_of-Names none (http_status e);
      unknown = λ same.
          let (message, is) = refused-unauthorized e k refused in
          (refl, (message, ap (λ x. err x) is));
      known = λ c same. ground arith;
      shown = λ v same. ground arith;
    })
    | inl (c, k, passed) ↦
        let (caller, after, meets) = pipeline-known env q s c k passed in
        let row = row_of q (pipeline env q s).0.1 (status_of (pipeline env q s).0.0) in
        record {
          context = (pipeline env q s).0.1;
          row = row;
          logged = ap (λ t. row ∷ t.logs) after;
          status = row_of-HasStatus (pipeline env q s).0.1 (pipeline env q s).0.0;
          request = row_of-request (pipeline env q s).0.1 (status_of (pipeline env q s).0.0);
          owner = row_of-Names (pipeline env q s).0.1 (status_of (pipeline env q s).0.0);
          unknown = λ same. ground (arith, caller);
          known = λ d same. rw (ap (λ t. t.keys) after) (
              subst (λ x. IsAuthenticated env q.now q.api_key s.keys x k) (ground (arith, caller))
                (authenticated c k passed));
          shown = λ v done.
              let (id, found) = pipeline-shown c k v passed done in
              (id, (c, caller, dispatch-IsHandled q c v.answer found));
        }
  ]

  -- Every request leaves one row in the log, with its id, its method and its endpoint, where it came
  -- from, and the status of its answer. Without a valid key the answer is 401, the row names nobody and
  -- nothing is counted by the limiter; a row that names an organization, an application and a key is of
  -- a request with that key, which is valid. An answer with data has the id of the logged row, and is,
  -- by the route of the request, the identity of the owner of the key, the list of the three services,
  -- or a routing to one of these for the owner's organization and application.
  pub serve-IsLogged : IsLogged (serve env q s).0 (serve env q s).1
  unfolding serve
  serve-IsLogged = logged
