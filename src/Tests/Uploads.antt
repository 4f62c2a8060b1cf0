-- ===== src/Tests/Uploads.antt =====
-- The upload of a file to the issue of the fixture.
use ai_saas_multi_tenant.Base.{◌≡◌, ◌≤◌, ◌⊎◌, refl, true, false, [], ◌∷◌, length, arith}
use ai_saas_multi_tenant.Prisma.Memory.{memory}
use ai_saas_multi_tenant.Model.Data.{RowId}
use ai_saas_multi_tenant.Model.Action.{ok, throw, bad_request, plain_error}
use ai_saas_multi_tenant.Services.Attachments.{build_key, new_attachment}
use ai_saas_multi_tenant.Schemas.{is_presign_input}
use ai_saas_multi_tenant.Web.Upload.{File, presign_body, confirm_body, upload_attachment}
use ai_saas_multi_tenant.Web.Upload.Stored.{upload_attachment_cases}
use ai_saas_multi_tenant.Tests.Fixture.{external, call, later, issue, world}

abbrev file : File
file = record { name = b'a' ∷ []; mime_type = []; size = 3 }

one_character : (i : RowId) → length (external.id_text i) ≤ 200
one_character i = omega arith

accepted : is_presign_input (presign_body file) ≡ true
unfolding is_presign_input
accepted = refl

upload_example :
    ((is_presign_input (presign_body file) ≡ false)
      × (upload_attachment external 4 70 1 call later true file world ≡ (throw bad_request, world)))
    ⊎ ((is_presign_input (presign_body file) ≡ true)
        × (((true ≡ false)
              × (upload_attachment external 4 70 1 call later true file world
                  ≡ (throw plain_error, world)))
            ⊎ ((true ≡ true)
                × ((upload_attachment external 4 70 1 call later true file world).0
                    ≡ ok (
                        new_attachment 60 1 70
                          (confirm_body (build_key external 50 4 70 (b'a' ∷ [])) file)))
                × ((upload_attachment external 4 70 1 call later true file world).1.attachments
                    ≡ memory.create
                        (new_attachment 60 1 70
                          (confirm_body (build_key external 50 4 70 (b'a' ∷ [])) file))
                        world.attachments))))
upload_example =
    upload_attachment_cases external 4 70 1 call later true file world one_character issue refl
