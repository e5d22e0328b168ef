-- ===== src/Billing/Cancellation.antt =====
-- What a canceled subscription leaves.
use developer_platform_backe.Billing.Sync.{HasTerms, limit_after, updated-to_plan}
use developer_platform_backe.Orm.Laws.{get-save_self}
use developer_platform_backe.Billing.Activation.{resave-HasUniqueSubs, find-saved}
use developer_platform_backe.Organizations.Limits.{updated}
use developer_platform_backe.Billing.Plans.{
  HasUniqueSubs, next_sub, with_sub, apply_plan-unknown, to_plan, next_sub-HasUniqueSubs,
  apply_plan-known, next_sub-org,
}
use developer_platform_backe.Billing.Events.{
  on_subscription_deleted, handle_event, has_subscription_id, subscription_deleted,
}
use developer_platform_backe.Billing.Interface.{StripeSdk, Calendar}
use developer_platform_backe.Prelude.{
  ℕ, String, ◌≡◌, refl, inl, inr, Bool, none, some, arith, Option-cases,
}
use developer_platform_backe.Prelude.Action.{ok, err}
use developer_platform_backe.Orm.{Orm}
use developer_platform_backe.Redis.{Redis}
use mathlib.Core.Path.{subst}
use developer_platform_backe.Enums.{free}
use developer_platform_backe.Organizations.{organization_entity, Organization, no_org, OrgState}
use developer_platform_backe.Billing.{
  subscription_entity, Subscription, BillingState, of_org, with_terms,
}

-- The row that a canceled subscription leaves.
abbrev pub unlinked : Subscription → Subscription
unlinked sub = record sub { stripe_subscription_id = none }

module _ {orm : Orm} {redis : Redis} {sdk : StripeSdk} where
  module _ (calendar : Calendar) (enabled : Bool) (url : String) (now : ℕ) where
    pub deleted-unknown :
        (id : ℕ) (s : BillingState orm redis sdk)
        → orm.find_one (has_subscription_id id) s.subs ≡ none
        → on_subscription_deleted calendar enabled url now id s ≡ (ok tt, s)
    unfolding on_subscription_deleted
    deleted-unknown id s absent = ground (arith, absent)

    pub deleted-orphan :
        (id : ℕ) (s : BillingState orm redis sdk) (sub : Subscription)
        → orm.find_one (has_subscription_id id) s.subs ≡ some sub
        → orm.get sub.organization_id s.org_state.orgs ≡ none
        → on_subscription_deleted calendar enabled url now id s
          ≡ (err no_org, with_sub (next_sub calendar now sub.organization_id free s) s)
    unfolding on_subscription_deleted
    deleted-orphan id s sub found absent =
        ground (arith, apply_plan-unknown calendar now sub.organization_id free s absent)

    pub deleted-known :
        (id : ℕ) (s : BillingState orm redis sdk) (sub : Subscription) (o : Organization)
        → orm.find_one (has_subscription_id id) s.subs ≡ some sub
        → orm.get sub.organization_id s.org_state.orgs ≡ some o
        → let next : Subscription = next_sub calendar now sub.organization_id free s in
          on_subscription_deleted calendar enabled url now id s ≡ (
            ok tt,
            with_sub (unlinked next) (record (with_sub next s) {
              org_state = updated sub.organization_id (to_plan free) o s.org_state;
            }),
          )
    unfolding on_subscription_deleted
    deleted-known id s sub o found present =
        ground (arith, apply_plan-known calendar now sub.organization_id free s o present)

    unlinked-HasUniqueSubs :
        (org : ℕ) (s : BillingState orm redis sdk)
        → HasUniqueSubs s
        → let next : Subscription = next_sub calendar now org free s in
          HasUniqueSubs (with_sub (unlinked next) (with_sub next s))
    unlinked-HasUniqueSubs org s unique =
        let next : Subscription = next_sub calendar now org free s in
        resave-HasUniqueSubs (unlinked next) next (with_sub next s)
          (next_sub-HasUniqueSubs calendar now org free s unique) (get-save_self orm next s.subs)
          refl

    pub deleted-HasUniqueSubs :
        (id : ℕ) (s : BillingState orm redis sdk)
        → HasUniqueSubs s
        → HasUniqueSubs (on_subscription_deleted calendar enabled url now id s).1
    deleted-HasUniqueSubs id s unique =
        elim (Option-cases (orm.find_one (has_subscription_id id) s.subs)) [
          | inl absent ↦ rw (deleted-unknown id s absent) unique
          | inr (sub, found) ↦ elim (Option-cases (orm.get sub.organization_id s.org_state.orgs)) [
            | inl orphan ↦
                rw (deleted-orphan id s sub found orphan)
                  (next_sub-HasUniqueSubs calendar now sub.organization_id free s unique)
            | inr (o, present) ↦
                rw (deleted-known id s sub o found present)
                  (unlinked-HasUniqueSubs sub.organization_id s unique)
          ]
        ]

  -- The state in which the cancellation of a subscription leaves its organization.
  pub record IsDowngraded (calendar : Calendar) (now org : ℕ) (s : OrgState orm redis)
      (s' : BillingState orm redis sdk) : Type 0 where
    pub row : Subscription
    pub found : orm.find_one (of_org org) s'.subs ≡ some row
    pub terms : HasTerms calendar now free row
    pub detached : row.stripe_subscription_id ≡ none
    pub before : Organization
    pub had : orm.get org s.orgs ≡ some before
    pub organization :
        orm.get org s'.org_state.orgs
        ≡ some (record before { plan = free; requests_per_minute = limit_after free before })

  module _ (calendar : Calendar) (enabled : Bool) (url : String) (now : ℕ) where
    unlinked-HasTerms :
        (org : ℕ) (s : BillingState orm redis sdk)
        → HasTerms calendar now free (unlinked (next_sub calendar now org free s))
    unfolding with_terms
    unlinked-HasTerms org s = record {
      plan_set = refl;
      is_active = refl;
      quota = refl;
      price = refl;
      rate = refl;
      begun = calendar.start_le now;
      open_until = calendar.lt_end now;
    }

    -- The row without its link, saved after the change to the FREE plan.
    pub unlinked-IsDowngraded :
        (org : ℕ) (s : BillingState orm redis sdk) (o : Organization)
        → HasUniqueSubs s
        → orm.get org s.org_state.orgs ≡ some o
        → let next : Subscription = next_sub calendar now org free s in
          IsDowngraded calendar now org s.org_state (
            with_sub
              (unlinked next)
              (record (with_sub next s) { org_state = updated org (to_plan free) o s.org_state }))
    unlinked-IsDowngraded org s o unique present =
        let next : Subscription = next_sub calendar now org free s in
        record {
          row = unlinked next;
          found =
              subst
                (λ k.
                  orm.find_one (of_org k) (orm.save (unlinked next) (orm.save next s.subs))
                  ≡ some (unlinked next))
                (next_sub-org calendar now org free s)
                (find-saved (unlinked next) (with_sub next s)
                  (unlinked-HasUniqueSubs calendar enabled url now org s unique));
          terms = unlinked-HasTerms org s;
          detached = refl;
          before = o;
          had = present;
          organization = updated-to_plan org free s o present;
        }

    -- When Stripe reports that a subscription which is stored for a known organization was deleted, the
    -- organization is on the FREE plan with its limit, its one subscription has the terms of that plan
    -- and no Stripe subscription.
    pub subscription_deleted-IsDowngraded :
        (id : ℕ) (s : BillingState orm redis sdk) (sub : Subscription) (o : Organization)
        → HasUniqueSubs s
        → orm.find_one (has_subscription_id id) s.subs ≡ some sub
        → orm.get sub.organization_id s.org_state.orgs ≡ some o
        → IsDowngraded calendar now sub.organization_id s.org_state
            (handle_event calendar enabled url now (subscription_deleted id) s).1
    unfolding handle_event
    subscription_deleted-IsDowngraded id s sub o unique found present =
        rw (deleted-known calendar enabled url now id s sub o found present)
          (unlinked-IsDowngraded sub.organization_id s o unique present)
