-- ===== src/Tests/Products.antt =====
-- The theorems on projects, attachments, billing and notifications at the fixture.
use ai_saas_multi_tenant.Base.{
  ◌≡◌, ◌≢◌, refl, sym, ap, ◌∙◌, ◌⊎◌, inl, inr, true, false, none, some, [], ◌∷◌, ◌++◌, ◌==◌, arith,
  get_or,
}
use ai_saas_multi_tenant.Prisma.Memory.{memory}
use ai_saas_multi_tenant.Prisma.Rows.{In}
use ai_saas_multi_tenant.Model.Data.{RowId, User, Project, Subscription}
use ai_saas_multi_tenant.Model.Action.{throw, forbidden, not_found}
use ai_saas_multi_tenant.Services.Projects.{CreateProjectInput, create}
use ai_saas_multi_tenant.Services.Projects.Keys.{KeysUnique, TeamsOwned, create-keys}
use ai_saas_multi_tenant.Services.Attachments.{ConfirmAttachmentInput, build_key, confirm}
use ai_saas_multi_tenant.Services.Attachments.Namespace.{IsSegment, confirm-foreign}
use ai_saas_multi_tenant.Services.Billing.{
  StripeSubscription, StripeStatus, StripeEvent, status_map,
}
use ai_saas_multi_tenant.Services.Billing.Plans.{IsPaidFor, handle_webhook-plans}
use ai_saas_multi_tenant.Services.Billing.{set_billing, handle_webhook, reconcile_subscription}
use ai_saas_multi_tenant.Services.Audit.{record_audit}
use ai_saas_multi_tenant.Services.Notifications.{new_notification, notification_mail, process}
use ai_saas_multi_tenant.Services.Notifications.Laws.{IsDue, process_lem}
use ai_saas_multi_tenant.Tests.Fixture.{external, env, call, job, subscription, world}

world-KeysUnique : KeysUnique memory world
world-KeysUnique p q (inl e) (inl f) o k = e ∙ sym f
world-KeysUnique p q (inl e) (inr m) o k = absurd m
world-KeysUnique p q (inr m) n o k = absurd m

world-TeamsOwned : TeamsOwned memory world
world-TeamsOwned p id (inl e) has =
    absurd (no_team id (sym (ap (λ (p : Project). p.team_id) e) ∙ has))
  where
    no_team : (id : RowId) → none ≡ some id → ⊥
    no_team id k = cc
world-TeamsOwned p id (inr m) has = absurd m

abbrev project_input : CreateProjectInput
project_input = record { key = 6; name = []; description = none; team_id = none }

keys_example :
    KeysUnique memory (create call 4 1 project_input world).1
    × TeamsOwned memory (create call 4 1 project_input world).1
keys_example = create-keys call 4 1 project_input world world-KeysUnique world-TeamsOwned

-- A key that was built for the issue 70 of the tenant 4.
abbrev upload : ConfirmAttachmentInput
upload = record {
  file_key = build_key external 50 4 70 (b'a' ∷ []);
  file_name = b'a' ∷ [];
  content_type = [];
  size = 3;
}

external-IsSegment : (i : RowId) → IsSegment (external.id_text i)
external-IsSegment i = (ground arith, tt)

external-distinct : (i j : RowId) → external.id_text i ≡ external.id_text j → i ≡ j
external-distinct i j e = omega (arith, ap (λ t. get_or t 0 0) e)

abbrev other_org : RowId
other_org = 5

tenants_differ : other_org ≢ 4
tenants_differ e = omega (arith, e)

foreign_example :
    (confirm external call 4 1 70 (record upload { file_key = build_key external 50 5 70 [] }) world
      ≡ (throw forbidden, world))
    ⊎ (confirm external call 4 1 70
          (record upload { file_key = build_key external 50 5 70 [] })
          world
        ≡ (throw not_found, world))
foreign_example =
    confirm-foreign external call world 4 70 1
      (record upload { file_key = build_key external 50 5 70 [] }) other_org 70 50 []
      external-IsSegment external-distinct refl (inl tenants_differ)

abbrev canceled : StripeSubscription
canceled = record {
  id = 90;
  customer = 81;
  status = StripeStatus.canceled;
  price = some 61;
  cancel_at_period_end = false;
  current_period_end = 0;
}

abbrev ended : Subscription
ended = set_billing env canceled subscription

plans_example :
    (In ended (memory.rows world.subscriptions) × ((ended.id == subscription.id) ≡ false))
    ⊎ (((ended.id == subscription.id) ≡ true)
        × (ended.status ≡ status_map canceled.status)
        × IsPaidFor env canceled ended.plan)
unfolding handle_webhook reconcile_subscription record_audit
plans_example =
    handle_webhook-plans env call canceled world (StripeEvent.subscription_deleted canceled)
      subscription refl refl refl ended (inl refl)

process_example :
    ((process call job world).1.notifications
      ≡ memory.create (new_notification call job) world.notifications)
    × ((((process call job world).1.mails ≡ world.mails)
          × ((u : User) → IsDue call job world u → ⊥))
        ⊎ ((u : User) × IsDue call job world u
            × ((process call job world).1.mails ≡ world.mails ++ notification_mail job u ∷ [])))
process_example = process_lem call job world
