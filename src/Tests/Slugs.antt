-- ===== src/Tests/Slugs.antt =====
-- The slugs of the two routes at the fixture.
use ai_saas_multi_tenant.Base.{refl, none, codes}
use ai_saas_multi_tenant.Prisma.Memory.{memory}
use ai_saas_multi_tenant.Services.Orgs.{CreateOrgInput, create}
use ai_saas_multi_tenant.Auth.Registration.{RegisterInput, register}
use ai_saas_multi_tenant.Schemas.{validated}
use ai_saas_multi_tenant.Schemas.Inputs.{is_create_org_input}
use ai_saas_multi_tenant.Schemas.Slugs.{SlugsFormed, routes-SlugsFormed}
use ai_saas_multi_tenant.Tests.Fixture.{external, env, call, device, world}

abbrev body : CreateOrgInput
body = record { name = codes "Acme"; slug = codes "acme-2" }

abbrev newcomer : RegisterInput
newcomer = record { email = 12; password = 6; name = codes "Bob"; org_name = none }

world-SlugsFormed : SlugsFormed memory world
world-SlugsFormed = ((refl, tt), tt)

routes-SlugsFormed_example :
    SlugsFormed memory (validated is_create_org_input body (create call 1) world).1
    × SlugsFormed memory (register external env call newcomer device world).1
routes-SlugsFormed_example =
    routes-SlugsFormed world world-SlugsFormed external env call 1 body newcomer device
