-- ===== src/Api/Reach.antt =====
-- Any sequence of requests, from a state in which the tables are in order.
use ai_saas_multi_tenant.Base.{◌≡◌, true, inl, inr, Bool-cases}
use ai_saas_multi_tenant.Prisma.{Prisma}
use ai_saas_multi_tenant.Model.World.{World}
use ai_saas_multi_tenant.Model.Platform.{External, Env}
use ai_saas_multi_tenant.Model.Action.{Call}
use ai_saas_multi_tenant.Api.Facets.{
  BoardHealthy, BoardHealthy-same, OrgsHealthy, OrgsHealthy-same, AccountsHealthy,
  AccountsHealthy-same, Healthy, IsFresh,
}
use ai_saas_multi_tenant.Api.Requests.{
  Request, sign_up, sign_in, refresh_session, sign_out, create_org, add_member, update_member_role,
  remove_member, accept_invite, create_project, create_issue, update_issue, move_issue,
  delete_issue, update_prefs, checkout, webhook, serve,
}
use ai_saas_multi_tenant.Api.Frames.{
  writes_board, writes_orgs, writes_accounts, board_same, orgs_same, accounts_same,
}
use ai_saas_multi_tenant.Api.Changes.{
  update-BoardHealthy, move-BoardHealthy, delete_issue-BoardHealthy,
}
use ai_saas_multi_tenant.Api.NewIssue.{create-BoardHealthy}
use ai_saas_multi_tenant.Api.NewProject.{create_project-BoardHealthy}
use ai_saas_multi_tenant.Api.Members.{
  update_member_role-OrgsHealthy, remove_member-OrgsHealthy, add_member-OrgsHealthy,
  accept_invite-OrgsHealthy,
}
use ai_saas_multi_tenant.Api.Founding.{
  create-OrgsHealthy, register-OrgsHealthy, register-AccountsHealthy,
}
use ai_saas_multi_tenant.Api.Paying.{create_checkout-OrgsHealthy, handle_webhook-OrgsHealthy}
use ai_saas_multi_tenant.Api.Accounts.{
  login-AccountsHealthy, refresh-AccountsHealthy, logout-AccountsHealthy,
  update_prefs-AccountsHealthy,
}

module _ (x : External) (env : Env) {db : Prisma} where
  -- The states that requests lead to, each with a call of the platform whose identifiers are fresh.
  pub data Reach (start : World db) : World db → Type 0 where
    here : Reach start start
    served :
        (c : Call) (r : Request) (w : World db)
        → Reach start w
        → IsFresh db c w
        → Reach start (serve x env c r w)

  module _ (c : Call) (w : World db) (fresh : IsFresh db c w) where
    board_written :
        (r : Request)
        → writes_board r ≡ true
        → BoardHealthy db w
        → BoardHealthy db (serve x env c r w)
    unfolding serve
    board_written (create_project org actor input) e h =
        create_project-BoardHealthy w h c fresh org actor input
    board_written (create_issue org actor key input) e h =
        create-BoardHealthy w h c fresh org actor key input
    board_written (update_issue org actor id input) e h =
        update-BoardHealthy w h c org actor id input
    board_written (move_issue org actor id input) e h = move-BoardHealthy w h c org actor id input
    board_written (delete_issue org actor id) e h = delete_issue-BoardHealthy w h c org actor id
    board_written _ e h = absurd cc

    orgs_written :
        (r : Request) → writes_orgs r ≡ true → OrgsHealthy db w → OrgsHealthy db (serve x env c r w)
    unfolding serve
    orgs_written (sign_up input device) e h = register-OrgsHealthy w h c fresh x env input device
    orgs_written (create_org user input) e h = create-OrgsHealthy w h c fresh user input
    orgs_written (add_member org actor email role) e h =
        add_member-OrgsHealthy w h c x org actor email role
    orgs_written (update_member_role org actor target role) e h =
        update_member_role-OrgsHealthy w h c org actor target role
    orgs_written (remove_member org actor target) e h =
        remove_member-OrgsHealthy w h c org actor target
    orgs_written (accept_invite user email token) e h =
        accept_invite-OrgsHealthy w h c x user email token
    orgs_written (checkout created org plan) e h =
        create_checkout-OrgsHealthy w env c created org plan h
    orgs_written (webhook event) e h = handle_webhook-OrgsHealthy w env c event h
    orgs_written _ e h = absurd cc

    accounts_written :
        (r : Request)
        → writes_accounts r ≡ true
        → OrgsHealthy db w
        → AccountsHealthy db w
        → AccountsHealthy db (serve x env c r w)
    unfolding serve
    accounts_written (sign_up input device) e o h =
        register-AccountsHealthy w o c fresh x env input device h
    accounts_written (sign_in dummy input device) e o h =
        login-AccountsHealthy x env c w dummy input device fresh h
    accounts_written (refresh_session token device) e o h =
        refresh-AccountsHealthy x env c w token device h
    accounts_written (sign_out token) e o h = logout-AccountsHealthy x env c w token h
    accounts_written (update_prefs user prefs) e o h = update_prefs-AccountsHealthy user prefs w h
    accounts_written _ e o h = absurd cc

    serve-Healthy : (r : Request) → Healthy db w → Healthy db (serve x env c r w)
    serve-Healthy r h = record {
      board = elim (Bool-cases (writes_board r)) [
        | inl writes ↦ board_written r writes h.board
        | inr other ↦
            let (issues, projects, teams) = board_same x env c w r other in
            BoardHealthy-same w (serve x env c r w) issues projects teams h.board
      ];
      orgs = elim (Bool-cases (writes_orgs r)) [
        | inl writes ↦ orgs_written r writes h.orgs
        | inr other ↦
            let (organizations, memberships, invites, subscriptions) =
              orgs_same x env c w r other in
            OrgsHealthy-same w (serve x env c r w) organizations memberships invites subscriptions
              h.orgs
      ];
      accounts = elim (Bool-cases (writes_accounts r)) [
        | inl writes ↦ accounts_written r writes h.orgs h.accounts
        | inr other ↦
            let (users, tokens) = accounts_same x env c w r other in
            AccountsHealthy-same w (serve x env c r w) users tokens h.accounts
      ];
    }

  -- Whatever requests are served one after another, from a state that is in order: no two rows
  -- share a key that the schema declares unique, of the users' e-mail addresses, the slugs, the
  -- memberships, the invites, the subscriptions, the project keys and the issue numbers, nor do
  -- two issues share an id; an issue's number is at most its project's counter, and its project
  -- is of its organization; a project's team is of its organization; every rank has the form that
  -- `rankBetween` needs; and a family of refresh tokens has at most one that is not revoked. The
  -- identifiers that each call creates must not be in use.
  pub Reach-Healthy :
      (start : World db) (w : World db) → Healthy db start → Reach start w → Healthy db w
  Reach-Healthy start w h here = h
  Reach-Healthy start w h (served c r v before fresh) =
      serve-Healthy c v fresh r (Reach-Healthy start v h before)
