-- ===== src/Auth/Registration.antt =====
-- Registration: `register` and `createOrgForUser` of apps/api/src/modules/auth/auth.service.ts.
pub mod Outcome
use ai_saas_multi_tenant.Base.{
  ℕ, suc, Bool, true, false, not, Option, none, some, List, [], ◌∷◌, Text, text_eq, length, ◌==◌,
  if◌then◌else◌,
}
use ai_saas_multi_tenant.Prisma.{Prisma}
use ai_saas_multi_tenant.Model.Data.{RowId, User, DeviceInfo, Organization, AuditAction, Metadata}
use ai_saas_multi_tenant.Model.World.{World}
use ai_saas_multi_tenant.Model.Platform.{External, Env}
use ai_saas_multi_tenant.Model.Action.{
  Action, Call, conflict, plain_error, pure, gets, or_throw, throw_if, modify, ◌>>=◌, ◌>>◌,
}
use ai_saas_multi_tenant.Services.Audit.{audit_entry, record_audit}
use ai_saas_multi_tenant.Services.Orgs.{is_found, insert_org}
use ai_saas_multi_tenant.Auth.Tokens.{issue_for_user}
use ai_saas_multi_tenant.Auth.Accounts.{Session, find_user}
use ai_saas_multi_tenant.Auth.Slugs.{base_slug, free_slug}

pub record RegisterInput : Type 0 where
  pub email : ℕ
  pub password : ℕ
  pub name : Text
  pub org_name : Option Text

-- The preferences have the defaults of the schema.
abbrev pub new_user : External → RowId → RegisterInput → User
new_user x id input = record {
  id = id;
  email = input.email;
  password_hash = some (x.bcrypt_hash input.password);
  name = input.name;
  avatar_url = none;
  email_on_assigned = true;
  email_on_mentioned = true;
  email_on_comment = true;
}

module _ {db : Prisma} where
  -- `organization.findUnique({ where: { slug } })`, by whether it finds one
  abbrev pub is_taken : World db → Text → Bool
  is_taken w slug =
      is_found (db.find_first (λ (o : Organization). text_eq o.slug slug) w.organizations)

  -- The loop, from the base; the fuel is a round more than there are organizations.
  unfoldable pub pick_slug : External → Text → World db → Option Text
  pick_slug x name w =
      free_slug (is_taken w) (base_slug x name) (suc (length (db.rows w.organizations))) 0

abbrev pub named_org : RowId → Text → Text → Organization
named_org id slug name = record { id = id; slug = slug; name = name }

module _ (x : External) (env : Env) (c : Call) {db : Prisma} where
  unfoldable pub create_org_for_user : RowId → Text → Action db (Unit {0})
  create_org_for_user user name = do
    slug ← or_throw plain_error (← gets (pick_slug x name))
    let org = named_org (c.ids 0) slug name
    modify (insert_org c user org)
    record_audit c
        (audit_entry org.id user AuditAction.org_created org.id (Metadata.named slug name))

  -- `if (input.orgName)`
  unfoldable pub bootstrap : RowId → Option Text → Action db (Unit {0})
  unfolding create_org_for_user
  bootstrap user none = pure tt
  bootstrap user (some []) = pure tt
  bootstrap user (some (d ∷ ds)) = create_org_for_user user (d ∷ ds)

  unfoldable pub register : RegisterInput → DeviceInfo → Action db Session
  register input device = do
    clash ← gets (find_user x env c input.email)
    throw_if (is_found clash) conflict
    let user = new_user x (c.ids 3) input
    modify (λ w. record w { users = db.create user w.users })
    _ ← bootstrap user.id input.org_name
    tokens ← issue_for_user x env c (record { sub = user.id; email = user.email }) device
    pure (record { tokens = tokens; user_id = user.id })
