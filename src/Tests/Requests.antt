-- ===== src/Tests/Requests.antt =====
-- Requests that are served one after another, on a tenant with one project and two issues.
use ai_saas_multi_tenant.Base.{
  ℕ, ◌≢◌, List, ◌+◌, ◌≤◌, ◌≡◌, refl, sym, ◌∙◌, ap, inl, inr, none, some, [], ◌∷◌, arith,
}
use ai_saas_multi_tenant.Prisma.Memory.{memory}
use ai_saas_multi_tenant.Prisma.Rows.{In}
use ai_saas_multi_tenant.Prisma.Unique.{Once}
use mathlib.Core.Path.{subst}
use ai_saas_multi_tenant.Rank.{first_rank, char}
use ai_saas_multi_tenant.Rank.Between.{first_rank-IsRank}
use ai_saas_multi_tenant.Model.Data.{Project, Issue, IssueRow, RefreshToken}
use ai_saas_multi_tenant.Model.World.{World}
use ai_saas_multi_tenant.Model.Action.{Call}
use ai_saas_multi_tenant.Services.Projects.{CreateProjectInput}
use ai_saas_multi_tenant.Api.Facets.{Healthy, IsFresh}
use ai_saas_multi_tenant.Api.Requests.{create_project, move_issue, serve}
use ai_saas_multi_tenant.Api.Reach.{here, served, Reach-Healthy}
use ai_saas_multi_tenant.Api.Live.{IsShown}
use ai_saas_multi_tenant.Api.Live.Reach.{Reach-IsShown}
use ai_saas_multi_tenant.Services.Issues.{MoveIssueInput, selected}
use ai_saas_multi_tenant.Model.Data.{IssueStatus}
use mathlib.Core.List.Perm
use ai_saas_multi_tenant.Tests.Fixture.{
  external, env, call, ada, token, owner_row, invite, project, issue, subscription, world,
}

-- A project with two issues.
abbrev busy_project : Project
busy_project = record project { issue_counter = 2 }

abbrev second : Issue
second = record issue { id = 71; number = 2; status = IssueStatus.done }

abbrev start : World memory
start = record world {
  memberships = owner_row ∷ [];
  projects = busy_project ∷ [];
  issues = issue ∷ second ∷ [];
}

abbrev fresh_call : Call
fresh_call = record call { ids = λ n. n + 1000 }

abbrev second_project : CreateProjectInput
second_project = record { key = 6; name = 81 ∷ []; description = none; team_id = none }

one_row : {R K : Type 0} (key : R → K) (x : R) → Once key (x ∷ [])
one_row key x r s (inl e) (inl k) same = e ∙ sym k
one_row key x r s (inr m) n same = absurd m
one_row key x r s (inl e) (inr n) same = absurd n

two_rows : {R : Type 0} (key : R → ℕ) (x y : R) → key x ≢ key y → Once key (x ∷ y ∷ [])
two_rows key x y apart r s (inl e) (inl f) same = e ∙ sym f
two_rows key x y apart r s (inl e) (inr (inl f)) same =
    absurd (apart (sym (ap key e) ∙ same ∙ ap key f))
two_rows key x y apart r s (inr (inl e)) (inl f) same =
    absurd (apart (sym (ap key f) ∙ sym same ∙ ap key e))
two_rows key x y apart r s (inr (inl e)) (inr (inl f)) same = e ∙ sym f
two_rows key x y apart r s (inr (inr m)) n same = absurd m
two_rows key x y apart r s (inl e) (inr (inr n)) same = absurd n
two_rows key x y apart r s (inr (inl e)) (inr (inr n)) same = absurd n

of_two : {R : Type 0} (P : R → Type 0) (x y : R) → P x → P y → (r : R) → In r (x ∷ y ∷ []) → P r
of_two P x y p q r (inl e) = subst P (sym e) p
of_two P x y p q r (inr (inl e)) = subst P (sym e) q
of_two P x y p q r (inr (inr m)) = absurd m

-- What holds of the one row holds of all.
of_one : {R : Type 0} (P : R → Type 0) (x : R) → P x → (r : R) → In r (x ∷ []) → P r
of_one P x p r (inl e) = subst P (sym e) p
of_one P x p r (inr m) = absurd m

start-Healthy : Healthy memory start
unfolding first_rank char
start-Healthy = record {
  board = record {
    ranks = (first_rank-IsRank, (first_rank-IsRank, tt));
    counted = λ i p m n same.
        of_two (λ i. i.number ≤ p.issue_counter) issue second
          (of_one (λ (p : Project). 1 ≤ p.issue_counter) busy_project (omega arith) p n)
          (of_one (λ (p : Project). 2 ≤ p.issue_counter) busy_project (omega arith) p n) i m;
    numbered = λ i j m n same number.
        two_rows (λ i. i.number) issue second (λ e. omega arith) i j m n number;
    project_ids = one_row (λ p. p.id) busy_project;
    issue_ids = two_rows (λ i. i.id) issue second (λ e. omega arith);
    owned =
        of_two _ issue second (busy_project, inl refl, refl, refl)
          (busy_project, inl refl, refl, refl);
    keys = λ p q m n o k. one_row (λ p. p.key) busy_project p q m n k;
    teams =
        λ p id m has. absurd (of_one (λ p. p.team_id ≡ some id → ⊥) busy_project (λ e. cc) p m has);
  };
  orgs = record {
    slugs = one_row _ _;
    members = one_row _ owner_row;
    invites = one_row _ invite;
    subscriptions = one_row _ subscription;
  };
  accounts = record {
    emails = one_row _ ada;
    one_active = λ s t m n same live_s live_t.
        ap (λ (t : RefreshToken). t.id)
          (one_row (λ (t : RefreshToken). t.family_id) token s t m n same);
  };
}

start-IsFresh : IsFresh memory fresh_call start
start-IsFresh = record {
  projects = λ n. of_one (λ p. p.id ≡ n + 1000 → ⊥) busy_project (λ e. omega arith);
  issues =
      λ n. of_two (λ i. i.id ≡ n + 1000 → ⊥) issue second (λ e. omega arith) (λ e. omega arith);
  memberships = λ n. of_one (λ m. m.organization_id ≡ n + 1000 → ⊥) owner_row (λ e. omega arith);
  subscriptions =
      λ n. of_one (λ s. s.organization_id ≡ n + 1000 → ⊥) subscription (λ e. omega arith);
  tokens = λ n. of_one (λ t. t.family_id ≡ n + 1000 → ⊥) token (λ e. omega arith);
}

Reach-Healthy_example :
    Healthy memory (serve external env fresh_call (create_project 4 1 second_project) start)
Reach-Healthy_example =
    Reach-Healthy external env start
      (serve external env fresh_call (create_project 4 1 second_project) start) start-Healthy
      (served fresh_call (create_project 4 1 second_project) start here start-IsFresh)

abbrev to_done : MoveIssueInput
to_done = record { status = IssueStatus.done; above_id = none; below_id = none }

-- The browser lists the cards the other way round.
abbrev shown : List IssueRow
shown = selected second ∷ selected issue ∷ []

Reach-IsShown_example :
    IsShown 4 60 shown start (serve external env fresh_call (move_issue 4 1 70 to_done) start)
Reach-IsShown_example =
    Reach-IsShown external env 4 60 start
      (serve external env fresh_call (move_issue 4 1 70 to_done) start) shown start-Healthy
      (busy_project, inl refl, refl, refl) (Perm.swap (selected issue) (selected second) [])
      (served fresh_call (move_issue 4 1 70 to_done) start here start-IsFresh)
