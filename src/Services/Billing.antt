-- ===== src/Services/Billing.antt =====
-- Subscriptions: apps/api/src/modules/billing/billing.service.ts. What Stripe answers is an argument:
-- the customer that it creates, and the event that it makes of a signed body.
pub mod Plans
use ai_saas_multi_tenant.Base.{
  ℕ, ◌*◌, Bool, true, false, not, ◌&&◌, Option, none, some, List, ◌==◌, if◌then◌else◌, Text,
}
use ai_saas_multi_tenant.Prisma.{Prisma}
use ai_saas_multi_tenant.Model.Data.{
  RowId, Organization, Subscription, SubscriptionPlan, SubscriptionStatus, AuditEntry, AuditAction,
  Metadata,
}
use ai_saas_multi_tenant.Model.World.{World}
use ai_saas_multi_tenant.Model.Platform.{Env}
use ai_saas_multi_tenant.Model.Action.{
  Action, Call, service_unavailable, record_missing, plain_error, pure, gets, or_throw, throw_if,
  modify, ◌>>=◌, ◌>>◌,
}
use ai_saas_multi_tenant.Services.Audit.{record_audit}

-- `Exclude<SubscriptionPlan, 'FREE'>`
pub data PaidPlan : Type 0 where
  pro business : PaidPlan

-- The session that Stripe is asked for.
pub record CheckoutSession : Type 0 where
  pub customer : ℕ
  pub price : ℕ
  pub quantity : ℕ
  pub organization_id : RowId
  pub plan : PaidPlan

-- The statuses that the map lists, and any other.
pub data StripeStatus : Type 0 where
  active trialing past_due canceled unpaid incomplete incomplete_expired unlisted : StripeStatus

-- `Stripe.Subscription`; `price` is that of the first item, and a period end of 0 is none.
pub record StripeSubscription : Type 0 where
  pub id : ℕ
  pub customer : ℕ
  pub status : StripeStatus
  pub price : Option ℕ
  pub cancel_at_period_end : Bool
  pub current_period_end : ℕ

pub data StripeEvent : Type 0 where
  subscription_created subscription_updated subscription_deleted : StripeSubscription → StripeEvent
  unhandled : StripeEvent

abbrev pub status_code : StripeStatus → ℕ
status_code active = 0
status_code trialing = 1
status_code past_due = 2
status_code canceled = 3
status_code unpaid = 4
status_code incomplete = 5
status_code incomplete_expired = 6
status_code unlisted = 7

-- `statusMap[sub.status] ?? 'INCOMPLETE'`
abbrev pub status_map : StripeStatus → SubscriptionStatus
status_map active = SubscriptionStatus.active
status_map trialing = SubscriptionStatus.trialing
status_map past_due = SubscriptionStatus.past_due
status_map canceled = SubscriptionStatus.canceled
status_map unpaid = SubscriptionStatus.past_due
status_map incomplete = SubscriptionStatus.incomplete
status_map incomplete_expired = SubscriptionStatus.canceled
status_map unlisted = SubscriptionStatus.incomplete

-- `===` on the price of the item, which may be undefined, and the setting, which is a string: the
-- empty one, which is the default and stands as `none`, is no item's price.
abbrev pub same_price : Option ℕ → Option ℕ → Bool
same_price none _ = false
same_price (some _) none = false
same_price (some a) (some b) = a == b

abbrev pub is_canceled : StripeStatus → Bool
is_canceled s = status_code s == 3

abbrev pub has_customer : ℕ → Subscription → Bool
has_customer customer s = elim s.stripe_customer_id [ none ↦ false | some id ↦ id == customer ]

-- `org.subscription?.seats ?? 1`
abbrev pub seats_of : Option Subscription → ℕ
seats_of none = 1
seats_of (some s) = s.seats

module _ (env : Env) where
  unfoldable pub price_for : PaidPlan → Option ℕ
  price_for pro = env.stripe_price_pro
  price_for business = env.stripe_price_business

  -- the plan of the price
  unfoldable pub plan_of : Option ℕ → SubscriptionPlan
  plan_of price =
      if same_price price env.stripe_price_business
      then SubscriptionPlan.business
      else if same_price price env.stripe_price_pro
      then SubscriptionPlan.pro
      else SubscriptionPlan.free

  abbrev pub set_billing : StripeSubscription → Subscription → Subscription
  set_billing sub s = record s {
    stripe_subscription_id = some sub.id;
    plan = if is_canceled sub.status then SubscriptionPlan.free else plan_of sub.price;
    status = status_map sub.status;
    cancel_at_period_end = sub.cancel_at_period_end;
    current_period_end =
        if sub.current_period_end == 0 then none else some (sub.current_period_end * 1000);
  }

  abbrev pub billing_entry : Subscription → StripeSubscription → AuditEntry
  billing_entry s sub = record {
    organization_id = s.organization_id;
    actor_id = none;
    action = AuditAction.subscription_updated;
    entity_id = s.id;
    metadata = Metadata.billed (status_code sub.status) (plan_of sub.price);
  }

  module _ {db : Prisma} (c : Call) where
    abbrev pub update_found : StripeSubscription → Option Subscription → Action db (Unit {0})
    update_found sub none = pure tt
    update_found sub (some found) = do
      modify (λ w. record w {
        subscriptions = db.update_many (λ s. s.id == found.id) (set_billing sub) w.subscriptions;
      })
      record_audit c (billing_entry found sub)

    unfoldable pub reconcile_subscription : StripeSubscription → Action db (Unit {0})
    reconcile_subscription sub w =
        update_found sub (db.find_first (has_customer sub.customer) w.subscriptions) w

    abbrev pub dispatch : StripeEvent → Action db (Unit {0})
    dispatch (subscription_created sub) = reconcile_subscription sub
    dispatch (subscription_updated sub) = reconcile_subscription sub
    dispatch (subscription_deleted sub) = reconcile_subscription sub
    dispatch unhandled = pure tt

    -- `constructEvent` throws an error, which is `none` here, where the signature does not verify.
    unfoldable pub handle_webhook : Option StripeEvent → Action db (Unit {0})
    handle_webhook constructed = do
      throw_if (not env.stripe_configured) service_unavailable
      event ← or_throw plain_error constructed
      dispatch event

    -- The customer of the organization, made and stored where it has none.
    abbrev pub ensure_customer : RowId → ℕ → Option Subscription → Action db ℕ
    ensure_customer org created none = or_throw record_missing none
    ensure_customer org created (some s) = elim s.stripe_customer_id [
      | some id ↦ pure id
      | none ↦ do
        modify (λ w. record w {
          subscriptions =
              db.update_many (λ t. t.organization_id == org)
                (λ t. record t { stripe_customer_id = some created }) w.subscriptions;
        })
        pure created
    ]

    unfoldable pub create_checkout : ℕ → RowId → PaidPlan → Action db CheckoutSession
    create_checkout created org plan = do
      throw_if (not env.stripe_configured) service_unavailable
      o ←
          or_throw record_missing
            (← gets (λ w. db.find_first (λ (o : Organization). o.id == org) w.organizations))
      s ←
          gets
            (λ w. db.find_first (λ (s : Subscription). s.organization_id == o.id) w.subscriptions)
      customer ← ensure_customer org created s
      price ← or_throw service_unavailable (price_for plan)
      pure (record {
        customer = customer;
        price = price;
        quantity = seats_of s;
        organization_id = org;
        plan = plan;
      })
