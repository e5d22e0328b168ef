-- ===== src/Gateway/Handling.antt =====
-- What the handlers of the gateway answer to an authenticated caller.
use developer_platform_backe.ApiKeys.Guard.{ApiKeyContext}
use developer_platform_backe.Gateway.{
  Route, to_whoami, to_upstreams, to_service, GatewayRequest, Answered, identity, services, routed,
  Routed, dispatch, route,
}
use developer_platform_backe.Prelude.{
  String, ◌≡◌, refl, ◌⊎◌, inl, inr, Option, [], ◌∷◌, arith, any, Bool-cases, Any, any_iff,
  Any-weaken, sym,
}
use developer_platform_backe.Prelude.Action.{ok, err, Result, HttpError}
use text.Mathlib.Text.{◌==◌ as str_eq}
use text.Mathlib.TextEquality.{eq_iff}

Result-cases :
    {A : Type 0} (r : Result A) → ((a : A) × (r ≡ ok a)) ⊎ ((e : HttpError) × (r ≡ err e))
Result-cases (ok a) = inl (a, refl)
Result-cases (err e) = inr (e, refl)

module _ {Body : Type 0} where
  -- The identity of the caller, the three services, or a routing to one of them for the caller's
  -- organization and application, with the method and the body of the request.
  abbrev pub IsHandled : Route → GatewayRequest Body → ApiKeyContext → Answered Body → Type 0
  IsHandled to_whoami q c (identity d) = d ≡ c
  IsHandled to_upstreams q c (services l) = l ≡ "users" ∷ "orders" ∷ "payments" ∷ []
  IsHandled (to_service service resource) q c (routed r) =
      Any (λ s. s ≡ service) ("users" ∷ "orders" ∷ "payments" ∷ [])
      × (r.routed_to ≡ service)
      × (r.resource ≡ resource)
      × (r.method ≡ q.method)
      × (r.organization_id ≡ c.organization_id)
      × (r.application_id ≡ c.application_id)
      × (r.body ≡ q.body)
  IsHandled _ q c _ = ⊥

  routed-known :
      (service : String) (resource : Option String) (method : String) (body : Option Body)
      (c : ApiKeyContext) (r : Routed Body)
      → route service resource method body c ≡ ok r
      → Any (λ s. s ≡ service) ("users" ∷ "orders" ∷ "payments" ∷ [])
        × (r.routed_to ≡ service)
        × (r.resource ≡ resource)
        × (r.method ≡ method)
        × (r.organization_id ≡ c.organization_id)
        × (r.application_id ≡ c.application_id)
        × (r.body ≡ body)
  unfolding route
  routed-known service resource method body c r done =
      elim (Bool-cases (any (str_eq service) ("users" ∷ "orders" ∷ "payments" ∷ []))) [
        | inl known ↦ (
          Any-weaken (λ s h. sym ((eq_iff service s).0 h)) ("users" ∷ "orders" ∷ "payments" ∷ [])
              ((any_iff (str_eq service) ("users" ∷ "orders" ∷ "payments" ∷ [])).0 known),
          ground (arith, done),
          ground (arith, done),
          ground (arith, done),
          ground (arith, done),
          ground (arith, done),
          ground (arith, done),
        )
        | inr unknown ↦ ground (arith, done)
      ]

  IsHandled-at_route :
      (path : Route) (q : GatewayRequest Body) (c : ApiKeyContext) (a : Answered Body)
      → q.route ≡ path
      → dispatch q c ≡ ok a
      → IsHandled path q c a
  unfolding dispatch
  IsHandled-at_route to_whoami q c (identity d) at done = ground (arith, at)
  IsHandled-at_route to_whoami q c (services l) at done = ground (arith, at)
  IsHandled-at_route to_whoami q c (routed r) at done = ground (arith, at)
  IsHandled-at_route to_upstreams q c (identity d) at done = ground (arith, at)
  IsHandled-at_route to_upstreams q c (services l) at done = ground (arith, at)
  IsHandled-at_route to_upstreams q c (routed r) at done = ground (arith, at)
  IsHandled-at_route (to_service service resource) q c (identity d) at done =
      elim (Result-cases (route service resource q.method q.body c)) [
        | inl (r, found) ↦ ground (arith, at, found)
        | inr (e, failed) ↦ ground (arith, at, failed)
      ]
  IsHandled-at_route (to_service service resource) q c (services l) at done =
      elim (Result-cases (route service resource q.method q.body c)) [
        | inl (r, found) ↦ ground (arith, at, found)
        | inr (e, failed) ↦ ground (arith, at, failed)
      ]
  IsHandled-at_route (to_service service resource) q c (routed r) at done =
      routed-known service resource q.method q.body c r
        (elim (Result-cases (route service resource q.method q.body c)) [
          | inl (found, is) ↦ ground (arith, at, is)
          | inr (e, failed) ↦ ground (arith, at, failed)
        ])

  pub dispatch-IsHandled :
      (q : GatewayRequest Body) (c : ApiKeyContext) (a : Answered Body)
      → dispatch q c ≡ ok a
      → IsHandled q.route q c a
  dispatch-IsHandled q c a done = IsHandled-at_route q.route q c a refl done
