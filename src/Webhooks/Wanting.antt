-- ===== src/Webhooks/Wanting.antt =====
-- Which webhooks want an event: the filters of `dispatchEvent`.
use developer_platform_backe.Prelude.{◌⊎◌, ◌↔◌, inl, inr, any_iff, Bool-cases, any, Any-weaken}
use text.Mathlib.Text.{◌==◌ as str_eq}
use text.Mathlib.TextEquality.{eq_iff}
use developer_platform_backe.Webhooks.{
  webhook_entity, event_entity, delivery_entity, Webhook, subscribed,
}
use developer_platform_backe.Prelude.{ℕ, String, ◌≡◌, refl, true, List, [], ◌∷◌, arith, Any}

-- An active webhook of the organization that asks for every event, or for the type.
abbrev pub Wants : (org : ℕ) → (type : String) → Webhook → Type 0
Wants org type w =
    (w.organization_id ≡ org) × (w.is_active ≡ true) × Any (λ e. (e ≡ "*") ⊎ (e ≡ type)) w.events

Any-or : (P Q : String → Type 0) (xs : List String) → Any (λ x. P x ⊎ Q x) xs → Any P xs ⊎ Any Q xs
Any-or P Q [] h = elim h [ ]
Any-or P Q (x ∷ xs) (inl (inl p)) = inl (inl p)
Any-or P Q (x ∷ xs) (inl (inr q)) = inr (inl q)
Any-or P Q (x ∷ xs) (inr h) = elim (Any-or P Q xs h) [ inl p ↦ inl (inr p) | inr q ↦ inr (inr q) ]

pub asks_iff :
    (type : String) (w : Webhook)
    → (subscribed type w ≡ true) ↔ Any (λ e. (e ≡ "*") ⊎ (e ≡ type)) w.events
asks_iff type w =
    let all = any_iff (λ e. str_eq e "*") w.events in
    let this = any_iff (λ e. str_eq e type) w.events in
    let is_all : (e : String) → str_eq e "*" ≡ true → (e ≡ "*") ⊎ (e ≡ type) =
      λ e h. inl ((eq_iff e "*").0 h) in
    let is_this : (e : String) → str_eq e type ≡ true → (e ≡ "*") ⊎ (e ≡ type) =
      λ e h. inr ((eq_iff e type).0 h) in
    (
      λ h. elim (Bool-cases (any (λ e. str_eq e "*") w.events)) [
        | inl every ↦ Any-weaken is_all w.events (all.0 every)
        | inr other ↦ Any-weaken is_this w.events (this.0 (ground (arith, h)))
      ],
      λ h. elim (Any-or (λ e. e ≡ "*") (λ e. e ≡ type) w.events h) [
        | inl every ↦
            let found : any (λ e. str_eq e "*") w.events ≡ true =
              all.1 (Any-weaken (λ e same. (eq_iff e "*").1 same) w.events every) in
            rw found refl
        | inr named ↦
            let found : any (λ e. str_eq e type) w.events ≡ true =
              this.1 (Any-weaken (λ e same. (eq_iff e type).1 same) w.events named) in
            ground (arith, found)
      ],
    )
