-- ===== src/Services/Billing/Plans.antt =====
-- The plan of a subscription under `handleWebhook` of billing/billing.service.ts.
use ai_saas_multi_tenant.Base.{
  ℕ, ◌≡◌, refl, sym, ap, ◌∙◌, ◌⊎◌, inl, inr, true, false, Option, none, some, arith, ◌==◌,
  Bool-cases, if◌then◌else◌,
}
use mathlib.Core.Path.{subst}
use ai_saas_multi_tenant.Prisma.{Prisma}
use ai_saas_multi_tenant.Prisma.Rows.{In, map-In}
use ai_saas_multi_tenant.Model.Data.{Subscription, SubscriptionPlan}
use ai_saas_multi_tenant.Model.World.{World}
use ai_saas_multi_tenant.Model.Platform.{Env}
use ai_saas_multi_tenant.Model.Action.{Call}
use ai_saas_multi_tenant.Services.Audit.{record_audit}
use ai_saas_multi_tenant.Services.Billing.{
  StripeSubscription, StripeEvent, same_price, is_canceled, has_customer, plan_of, set_billing,
  reconcile_subscription, handle_webhook, status_map,
}

same_price-≡ : (a b : Option ℕ) → same_price a b ≡ true → a ≡ b
same_price-≡ none none e = cc
same_price-≡ none (some b) e = cc
same_price-≡ (some a) none e = cc
same_price-≡ (some a) (some b) e = ground (arith, e)

-- The subscription that an event carries.
abbrev pub subject : StripeEvent → Option StripeSubscription
subject (StripeEvent.subscription_created s) = some s
subject (StripeEvent.subscription_updated s) = some s
subject (StripeEvent.subscription_deleted s) = some s
subject StripeEvent.unhandled = none

module _ (env : Env) where
  -- A paid plan is that of the price that is configured for it.
  abbrev pub IsPaidFor : StripeSubscription → SubscriptionPlan → Type 0
  IsPaidFor sub SubscriptionPlan.free = Unit
  IsPaidFor sub SubscriptionPlan.pro =
      (is_canceled sub.status ≡ false) × (sub.price ≡ env.stripe_price_pro)
  IsPaidFor sub SubscriptionPlan.business =
      (is_canceled sub.status ≡ false) × (sub.price ≡ env.stripe_price_business)

  set_billing-IsPaidFor :
      (sub : StripeSubscription) (s : Subscription) → IsPaidFor sub (set_billing env sub s).plan
  unfolding plan_of
  set_billing-IsPaidFor sub s = elim (Bool-cases (is_canceled sub.status)) [
    | inl over ↦ rw over tt
    | inr runs ↦ elim (Bool-cases (same_price sub.price env.stripe_price_business)) [
      | inl business ↦ rw (runs, business) (runs, same_price-≡ _ _ business)
      | inr other ↦ elim (Bool-cases (same_price sub.price env.stripe_price_pro)) [
        | inl pro ↦ rw (runs, other, pro) (runs, same_price-≡ _ _ pro)
        | inr none_of_both ↦ rw (runs, other, none_of_both) tt
      ]
    ]
  ]

  module _ {db : Prisma} (c : Call) (sub : StripeSubscription) (w : World db) where
    abbrev dispatched : StripeEvent → World db
    dispatched event = (handle_webhook env c (some event) w).1

    dispatched-table :
        (event : StripeEvent) (found : Subscription)
        → subject event ≡ some sub
        → db.find_first (has_customer sub.customer) w.subscriptions ≡ some found
        → env.stripe_configured ≡ true
        → (dispatched event).subscriptions
          ≡ db.update_many (λ s. s.id == found.id) (set_billing env sub) w.subscriptions
    unfolding handle_webhook reconcile_subscription record_audit
    dispatched-table (StripeEvent.subscription_created s) found e has up =
        ground (arith, e, has, up)
    dispatched-table (StripeEvent.subscription_updated s) found e has up =
        ground (arith, e, has, up)
    dispatched-table (StripeEvent.subscription_deleted s) found e has up =
        ground (arith, e, has, up)
    dispatched-table StripeEvent.unhandled found e has up = cc

    -- Where Stripe is configured and a subscription with the customer of the event is found, the webhook
    -- leaves each row unchanged, or it is one with the found row's id and then has the mapped status and a
    -- paid plan only where Stripe's subscription is not canceled and has the price of that plan.
    pub handle_webhook-plans :
        (event : StripeEvent) (found : Subscription)
        → subject event ≡ some sub
        → db.find_first (has_customer sub.customer) w.subscriptions ≡ some found
        → env.stripe_configured ≡ true
        → (s : Subscription) → In s (db.rows (dispatched event).subscriptions)
        → (In s (db.rows w.subscriptions) × ((s.id == found.id) ≡ false))
          ⊎ (((s.id == found.id) ≡ true)
              × (s.status ≡ status_map sub.status)
              × IsPaidFor sub s.plan)
    handle_webhook-plans event found e has up s m =
        let table = dispatched-table event found e has up in
        let (r, stored, same) = map-In _ (db.rows w.subscriptions) (
          subst (λ rs. In s rs) (db.rows-update_many _ _ w.subscriptions)
            (subst (λ t. In s (db.rows t)) table m)) in
        elim (Bool-cases (r.id == found.id)) [
          | inr other ↦
              let kept : s ≡ r = same ∙ ap (λ b. if b then set_billing env sub r else r) other in
              inl (
                subst
                  (λ (x : Subscription).
                    In x (db.rows w.subscriptions) × ((x.id == found.id) ≡ false))
                  (sym kept) (stored, other))
          | inl hit ↦
              let set : s ≡ set_billing env sub r =
                same ∙ ap (λ b. if b then set_billing env sub r else r) hit in
              inr (
                subst
                  (λ (x : Subscription).
                    ((x.id == found.id) ≡ true)
                    × (x.status ≡ status_map sub.status)
                    × IsPaidFor sub x.plan)
                  (sym set) (hit, refl, set_billing-IsPaidFor sub r))
        ]
