-- ===== src/Schemas/Inputs.antt =====
-- The schemas of packages/types/src/schemas.ts whose formats zod checks itself, which are a parameter.
use ai_saas_multi_tenant.Base.{
  ℕ, Bool, true, not, ◌&&◌, ◌||◌, Option, none, some, List, [], ◌∷◌, Text, length, leb,
}
use ai_saas_multi_tenant.Model.Data.{RowId}
use ai_saas_multi_tenant.Rbac.{Role}
use ai_saas_multi_tenant.Services.Orgs.{CreateOrgInput, is_owner}
use ai_saas_multi_tenant.Services.Projects.{CreateProjectInput}
use ai_saas_multi_tenant.Services.Issues.{CreateIssueInput, UpdateIssueInput, MoveIssueInput}
use ai_saas_multi_tenant.Auth.Accounts.{LoginInput}
use ai_saas_multi_tenant.Auth.Registration.{RegisterInput}
use ai_saas_multi_tenant.Auth.Slugs.{is_slug_char, is_dash}
use ai_saas_multi_tenant.Schemas.{is_between}

-- `email()` and `cuid()`, and the characters of the strings that stand as numbers elsewhere.
pub record Formats : Type 0 where
  pub is_email : Text → Bool
  pub is_cuid : Text → Bool
  pub spelled : ℕ → Text

abbrev pub all_in {ℓ} : {A : Type ℓ} → (A → Bool) → List A → Bool
all_in p [] = true
all_in p (x ∷ xs) = p x && all_in p xs

-- `optional()`
abbrev pub optional {ℓ} : {A : Type ℓ} → (A → Bool) → Option A → Bool
optional p none = true
optional p (some x) = p x

-- `regex(/^[a-z0-9-]+$/)` and `regex(/^[A-Z0-9]+$/)`; the minimum makes them not empty.
abbrev pub is_slug_text : Text → Bool
is_slug_text t = all_in (λ c. is_slug_char c || is_dash c) t

abbrev pub is_key_text : Text → Bool
is_key_text t = all_in (λ c. (leb 65 c && leb c 90) || (leb 48 c && leb c 57)) t

unfoldable pub is_create_org_input : CreateOrgInput → Bool
is_create_org_input input =
    is_between 1 120 input.name && (is_between 2 48 input.slug && is_slug_text input.slug)

module _ (f : Formats) where
  abbrev pub is_id : RowId → Bool
  is_id id = f.is_cuid (f.spelled id)

  unfoldable pub is_register_input : RegisterInput → Bool
  is_register_input input =
      f.is_email (f.spelled input.email)
      && (is_between 8 128 (f.spelled input.password)
          && (is_between 1 120 input.name && optional (is_between 1 120) input.org_name))

  unfoldable pub is_login_input : LoginInput → Bool
  is_login_input input =
      f.is_email (f.spelled input.email) && leb 1 (length (f.spelled input.password))

  -- the address and the role, `roleSchema.exclude(['OWNER'])`
  unfoldable pub is_invite_input : ℕ → Role → Bool
  is_invite_input email role = f.is_email (f.spelled email) && not (is_owner role)

  unfoldable pub is_create_project_input : CreateProjectInput → Bool
  is_create_project_input input =
      is_between 1 120 input.name
      && (is_between 2 8 (f.spelled input.key)
          && (is_key_text (f.spelled input.key)
              && (optional (λ t. leb (length t) 2000) input.description
                  && optional is_id input.team_id)))

  -- The enumerations and the date are of their types here.
  unfoldable pub is_create_issue_input : CreateIssueInput → Bool
  is_create_issue_input input =
      is_between 1 280 input.title
      && (optional (λ t. leb (length t) 20000) input.description
          && (optional is_id input.assignee_id && all_in is_id input.label_ids))

  -- `labelIds` is no field of the input here, since `update` does not read it.
  unfoldable pub is_update_issue_input : UpdateIssueInput → Bool
  is_update_issue_input input =
      optional (is_between 1 280) input.title
      && (optional (λ t. leb (length t) 20000) input.description
          && optional (optional is_id) input.assignee_id)

  unfoldable pub is_move_issue_input : MoveIssueInput → Bool
  is_move_issue_input input = optional is_id input.above_id && optional is_id input.below_id

  -- the token
  unfoldable pub is_accept_invite_input : ℕ → Bool
  is_accept_invite_input token = is_between 10 200 (f.spelled token)
