-- ===== src/Tests/Boards.antt =====
-- The theorems on ranks, issues and the board at the fixture.
use ai_saas_multi_tenant.Base.{
  ◌≢◌, ◌≡◌, refl, sym, ap, ◌∙◌, ◌⊎◌, inl, inr, true, false, none, some, [], ◌∷◌, ◌==◌, arith, Text,
  text_ltb, All,
}
use ai_saas_multi_tenant.Prisma.Memory.{memory}
use ai_saas_multi_tenant.Prisma.Rows.{In}
use ai_saas_multi_tenant.Rank.{rank, inverted, rank_between, is_inverted}
use ai_saas_multi_tenant.Rank.Loop.{IsRank, one_digit}
use ai_saas_multi_tenant.Rank.Between.{
  Above, Below, rank_between_sound, rank_between_total, first_rank-IsRank,
}
use ai_saas_multi_tenant.Rank.{first_rank, char}
use ai_saas_multi_tenant.Model.Data.{RowId, Project, Issue, IssueStatus, IssuePriority}
use ai_saas_multi_tenant.Model.Action.{Exception, ok, throw, bad_request}
use ai_saas_multi_tenant.Model.World.{World}
use ai_saas_multi_tenant.Services.Issues.{
  CreateIssueInput, UpdateIssueInput, MoveIssueInput, find_project, in_column, set_place, create,
  update, move, delete_issue,
}
use ai_saas_multi_tenant.Services.Issues.Bottom.{create_last}
use ai_saas_multi_tenant.Services.Issues.Ranks.{RanksValid, move_between}
use ai_saas_multi_tenant.Services.Issues.Numbers.{
  Counted, NumberedOnce, UniqueProject, create-numbers,
}
use ai_saas_multi_tenant.Services.Issues.Tenancy.{UniqueIssue, changes-foreign}
use ai_saas_multi_tenant.Tests.Fixture.{call, issue, world}

sound_example :
    (t : Text) × (rank_between (some first_rank) none ≡ rank t)
    × IsRank t
    × Above (some first_rank) t
    × Below none t
sound_example = rank_between_sound (some first_rank) none first_rank-IsRank tt refl

total_example :
    ((is_inverted (some (b'B' ∷ [])) (some (b'A' ∷ [])) ≡ true)
      × (rank_between (some (b'B' ∷ [])) (some (b'A' ∷ [])) ≡ inverted))
    ⊎ ((is_inverted (some (b'B' ∷ [])) (some (b'A' ∷ [])) ≡ false)
        × ((t : Text) × (rank_between (some (b'B' ∷ [])) (some (b'A' ∷ [])) ≡ rank t) × IsRank t))
total_example = rank_between_total (some (b'B' ∷ [])) (some (b'A' ∷ []))

world-RanksValid : RanksValid memory world
unfolding first_rank char
world-RanksValid = (first_rank-IsRank, tt)

abbrev new_input : CreateIssueInput
new_input = record {
  title = [];
  description = none;
  status = IssueStatus.todo;
  priority = IssuePriority.none;
  assignee_id = none;
  due_date = none;
  label_ids = [];
}

abbrev target : MoveIssueInput
target = record { status = IssueStatus.done; above_id = none; below_id = none }

abbrev edit : UpdateIssueInput
edit = record {
  title = none;
  description = none;
  status = some IssueStatus.done;
  priority = none;
  assignee_id = none;
  due_date = none;
}

-- Two cards in a column, of which the second is moved below the first.
abbrev second : Issue
second = record issue { id = 71; number = 2; rank = 70 ∷ [] }

abbrev two_world : World memory
two_world = record world { issues = issue ∷ second ∷ [] }

abbrev under : MoveIssueInput
under = record { status = IssueStatus.todo; above_id = some 70; below_id = none }

two_world-RanksValid : RanksValid memory two_world
unfolding first_rank char
two_world-RanksValid = (first_rank-IsRank, (one_digit 15 (omega arith) (omega arith), tt))

move_example :
    let v = move call 4 1 71 under two_world in
    ((is_inverted (some (86 ∷ [])) none ≡ true) × (v ≡ (throw bad_request, two_world)))
    ⊎ ((is_inverted (some (86 ∷ [])) none ≡ false)
        × ((t : Text) × IsRank t
            × Above (some (86 ∷ [])) t
            × Below none t
            × (v.0 ≡ ok (set_place IssueStatus.todo t second))
            × (v.1.issues
                ≡ memory.update_many
                    (λ j. j.id == 71)
                    (set_place IssueStatus.todo t)
                    two_world.issues)))
move_example = move_between two_world two_world-RanksValid call 4 1 71 under second refl

world-Counted : Counted memory world
world-Counted i p (inl e) (inl f) same =
    let number = ap (λ (i : Issue). i.number) e in
    let count = ap (λ (p : Project). p.issue_counter) f in omega (arith, number, count)
world-Counted i p (inl e) (inr m) same = absurd m
world-Counted i p (inr m) n same = absurd m

world-NumberedOnce : NumberedOnce memory world
world-NumberedOnce i j (inl e) (inl f) same number = e ∙ sym f
world-NumberedOnce i j (inl e) (inr m) same number = absurd m
world-NumberedOnce i j (inr m) n same number = absurd m

world-UniqueProject : UniqueProject memory world
world-UniqueProject p q (inl e) (inl f) same = e ∙ sym f
world-UniqueProject p q (inl e) (inr m) same = absurd m
world-UniqueProject p q (inr m) n same = absurd m

numbers_example :
    Counted memory (create call 4 1 5 new_input world).1
    × NumberedOnce memory (create call 4 1 5 new_input world).1
numbers_example =
    create-numbers call 4 1 5 new_input world world-Counted world-NumberedOnce world-UniqueProject

world-UniqueIssue : UniqueIssue memory world
world-UniqueIssue i j (inl e) (inl f) same = e ∙ sym f
world-UniqueIssue i j (inl e) (inr m) same = absurd m
world-UniqueIssue i j (inr m) n same = absurd m

abbrev other_tenant : RowId
other_tenant = 5

issue_is_foreign : issue.organization_id ≢ other_tenant
issue_is_foreign e = omega (arith, e)

foreign_issue_example :
    In issue (memory.rows (update call other_tenant 1 70 edit world).1.issues)
    × In issue (memory.rows (move call other_tenant 1 70 target world).1.issues)
    × In issue (memory.rows (delete_issue call other_tenant 1 70 world).1.issues)
foreign_issue_example =
    changes-foreign call other_tenant 1 70 world issue world-UniqueIssue (inl refl) issue_is_foreign
      edit target

last_example :
    ((e : Exception) × (create call 4 1 5 new_input world ≡ (throw e, world)))
    ⊎ ((p : Project) × (find_project 4 5 world ≡ some p)
        × ((i : Issue) × ((create call 4 1 5 new_input world).0 ≡ ok i)
            × ((create call 4 1 5 new_input world).1.issues ≡ memory.create i world.issues)
            × (in_column p.id IssueStatus.todo i ≡ true)
            × All
                (λ (j : Issue).
                  in_column p.id IssueStatus.todo j ≡ true → text_ltb j.rank i.rank ≡ true)
                (memory.rows world.issues)))
last_example = create_last call 4 1 5 new_input world (λ s t. refl) world-RanksValid
