-- ===== src/Tests/Demo.antt =====
-- The demo data, seeded once more behind an eighth issue.
use ai_saas_multi_tenant.Base.{◌+◌, ◌<◌, ◌≡◌, refl, inl, codes, [], ◌∷◌, arith}
use ai_saas_multi_tenant.Prisma.Memory.{memory}
use ai_saas_multi_tenant.Prisma.Rows.{In}
use ai_saas_multi_tenant.Model.Data.{Project, Issue, Organization}
use ai_saas_multi_tenant.Model.World.{World}
use ai_saas_multi_tenant.Seed.{SeedStrings, rank_at, seed}
use ai_saas_multi_tenant.Seed.Again.{seed-resets}
use ai_saas_multi_tenant.Tests.Fixture.{external, project, issue, world}

abbrev strings : SeedStrings
strings = record {
  owner_email = 21;
  alice_email = 22;
  bob_email = 23;
  password = 24;
  project_key = 5;
}

abbrev acme : Organization
acme = record { id = 4; slug = codes "acme"; name = codes "Acme Inc." }

abbrev eighth : Issue
eighth = record issue { number = 8 }

abbrev used : World memory
used = record world {
  organizations = acme ∷ [];
  projects = record project { issue_counter = 8 } ∷ [];
  issues = eighth ∷ [];
}

rank_at_example : rank_at 2 ≡ codes "0001jk"
unfolding rank_at
rank_at_example = refl

seed-resets_example :
    In eighth (seed external strings (λ n. n + 1000) used).issues
    × ((q : Project) × In q (seed external strings (λ n. n + 1000) used).projects
        × (q.id ≡ 60)
        × (q.issue_counter < 8))
seed-resets_example =
    seed-resets external strings (λ n. n + 1000) acme (record project { issue_counter = 8 }) used
      eighth (refl, refl) (inl refl) refl (omega arith)
