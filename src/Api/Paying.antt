-- ===== src/Api/Paying.antt =====
-- Subscriptions under the operations of billing/billing.service.ts.
use ai_saas_multi_tenant.Base.{
  ℕ, ◌≡◌, refl, ◌⊎◌, inl, inr, Bool, true, Option, none, some, arith, ◌==◌, Option-cases,
  Bool-cases,
}
use ai_saas_multi_tenant.Prisma.{Prisma}
use ai_saas_multi_tenant.Prisma.Unique.{update_many-Once}
use ai_saas_multi_tenant.Model.Data.{RowId, Organization, Subscription}
use ai_saas_multi_tenant.Model.World.{World}
use ai_saas_multi_tenant.Model.Platform.{Env}
use ai_saas_multi_tenant.Model.Action.{Call}
use ai_saas_multi_tenant.Services.Audit.{record_audit}
use ai_saas_multi_tenant.Services.Billing.{
  PaidPlan, StripeSubscription, StripeEvent, subscription_created, subscription_updated,
  subscription_deleted, unhandled, has_customer, plan_of, set_billing, reconcile_subscription,
  handle_webhook, create_checkout,
}
use ai_saas_multi_tenant.Api.Facets.{OrgsHealthy}

module _ {db : Prisma} (w : World db) where
  -- The subscriptions are as before, or updated in columns other than their organization's.
  abbrev Billed : World db → Type 0
  Billed v =
      (v.subscriptions ≡ w.subscriptions)
      ⊎ ((p : Subscription → Bool) × (f : Subscription → Subscription) × ((s : Subscription)
            → (f s).organization_id ≡ s.organization_id)
          × (v.subscriptions ≡ db.update_many p f w.subscriptions))

  abbrev OrgTablesSame : World db → Type 0
  OrgTablesSame v =
      (v.organizations ≡ w.organizations)
      × (v.memberships ≡ w.memberships)
      × (v.invites ≡ w.invites)

  set_billing-OrgsHealthy :
      (v : World db) → OrgTablesSame v → Billed v → OrgsHealthy db w → OrgsHealthy db v
  set_billing-OrgsHealthy v (organizations, memberships, invites) billed h = record {
    slugs = rw organizations h.slugs;
    members = rw memberships h.members;
    invites = rw invites h.invites;
    subscriptions = elim billed [
      | inl same ↦ rw same h.subscriptions
      | inr (p, f, keep, table) ↦ rw table (
          update_many-Once (λ (s : Subscription). s.organization_id) db w.subscriptions
            h.subscriptions p f keep)
    ];
  }

  module _ (env : Env) (c : Call) where
    reconcile-Billed : (sub : StripeSubscription) → Billed (reconcile_subscription env c sub w).1
    unfolding reconcile_subscription record_audit
    reconcile-Billed sub =
        elim (Option-cases (db.find_first (has_customer sub.customer) w.subscriptions)) [
          | inl missing ↦ inl (ground (arith, missing))
          | inr (s, found) ↦
              inr ((λ t. t.id == s.id), set_billing env sub, (λ t. refl), ground (arith, found))
        ]

    handle_webhook-Billed : (event : Option StripeEvent) → Billed (handle_webhook env c event w).1
    unfolding handle_webhook reconcile_subscription plan_of
    handle_webhook-Billed event = elim (Bool-cases env.stripe_configured) [
      | inr off ↦ inl (ground (arith, off))
      | inl on ↦ by_event event on
    ]
      where
        by_event :
            (event : Option StripeEvent)
            → env.stripe_configured ≡ true
            → Billed (handle_webhook env c event w).1
        by_event none on = inl (ground (arith, on))
        by_event (some (subscription_created sub)) on = rw on (reconcile-Billed sub)
        by_event (some (subscription_updated sub)) on = rw on (reconcile-Billed sub)
        by_event (some (subscription_deleted sub)) on = rw on (reconcile-Billed sub)
        by_event (some unhandled) on = inl (ground (arith, on))

    handle_webhook-same :
        (event : Option StripeEvent) → OrgTablesSame (handle_webhook env c event w).1
    unfolding handle_webhook reconcile_subscription record_audit
    handle_webhook-same event = (ground arith, ground arith, ground arith)

    pub handle_webhook-OrgsHealthy :
        (event : Option StripeEvent)
        → OrgsHealthy db w
        → OrgsHealthy db (handle_webhook env c event w).1
    handle_webhook-OrgsHealthy event =
        set_billing-OrgsHealthy _ (handle_webhook-same event) (handle_webhook-Billed event)

    module _ (created : ℕ) (org : RowId) (plan : PaidPlan) where
      abbrev the_org : Option Organization
      the_org = db.find_first (λ (o : Organization). o.id == org) w.organizations

      create_checkout-Billed : Billed (create_checkout env c created org plan w).1
      unfolding create_checkout
      create_checkout-Billed = elim (Bool-cases env.stripe_configured) [
        | inr off ↦ inl (ground (arith, off))
        | inl on ↦ elim (Option-cases the_org) [
          | inl missing ↦ inl (ground (arith, on, missing))
          | inr (o, found) ↦
              elim (Option-cases
                (db.find_first (λ (s : Subscription). s.organization_id == o.id) w.subscriptions)) [
                  | inl unbilled ↦ inl (ground (arith, on, found, unbilled))
                  | inr (s, subscribed) ↦ elim (Option-cases s.stripe_customer_id) [
                    | inr (id, known) ↦ inl (ground (arith, on, found, subscribed, known))
                    | inl new ↦ inr (
                      (λ t. t.organization_id == org),
                      (λ t. record t { stripe_customer_id = some created }),
                      (λ t. refl),
                      ground (arith, on, found, subscribed, new),
                    )
                  ]
                ]
        ]
      ]

      create_checkout-same : OrgTablesSame (create_checkout env c created org plan w).1
      unfolding create_checkout
      create_checkout-same = (ground arith, ground arith, ground arith)

      pub create_checkout-OrgsHealthy :
          OrgsHealthy db w → OrgsHealthy db (create_checkout env c created org plan w).1
      create_checkout-OrgsHealthy =
          set_billing-OrgsHealthy _ create_checkout-same create_checkout-Billed
