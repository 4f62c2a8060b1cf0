-- ===== src/Web/Upload/Stored.antt =====
-- The outcomes of an upload, over `uploadAttachment` and the service that it calls.
use ai_saas_multi_tenant.Base.{
  take, length-take, ◌+◌, ◌≤◌, ◌≡◌, refl, ap, ◌∙◌, ◌⊎◌, inl, inr, Bool, true, false, some, [], ◌∷◌,
  ◌++◌, arith, Text, codes, not, length, Bool-cases,
}
use ai_saas_multi_tenant.Prisma.{Prisma}
use ai_saas_multi_tenant.Model.Data.{RowId, Issue}
use ai_saas_multi_tenant.Model.World.{World}
use ai_saas_multi_tenant.Model.Platform.{External}
use ai_saas_multi_tenant.Model.Action.{Call, ok, throw, throw_if, bad_request, plain_error, ◌>>◌}
use ai_saas_multi_tenant.Model.Binds.{bind-returns}
use ai_saas_multi_tenant.Services.Attachments.{
  key_prefix, build_key, sanitize, find_issue, new_attachment,
}
use ai_saas_multi_tenant.Services.Attachments.Namespace.{
  presign-signed, build_key-prefix, confirm-stored,
}
use ai_saas_multi_tenant.Schemas.{is_presign_input, is_confirm_input, validated}
use ai_saas_multi_tenant.Web.Upload.{
  File, presign_body, confirm_body, post_presign, post_confirm, upload_attachment,
}

length-append : (s t : Text) → length (s ++ t) ≡ length s + length t
length-append [] t = omega arith
length-append (c ∷ s) t = omega (arith, length-append s t)

module _ (x : External) (short : (i : RowId) → length (x.id_text i) ≤ 200) where
  build_key-length :
      (uuid org issue : RowId) (name : Text)
      → (1 ≤ length (build_key x uuid org issue name))
        × (length (build_key x uuid org issue name) ≤ 1024)
  unfolding build_key key_prefix
  build_key-length uuid org issue name =
      let segment = codes "/issues/" ++ (x.id_text issue ++ codes "/") in
      let object = x.id_text uuid ++ (codes "-" ++ take 120 (sanitize false name)) in
      let size : length (build_key x uuid org issue name)
          ≡ 14
            + (length (x.id_text org)
                + length (x.id_text issue)
                + length (x.id_text uuid)
                + length (take 120 (sanitize false name))) =
        omega (
          arith,
          length-append (x.id_text org ++ segment) object,
          length-append (x.id_text org) segment,
          length-append (x.id_text issue) (codes "/"),
          length-append (x.id_text uuid) (codes "-" ++ take 120 (sanitize false name)),
        ) in
      (
        omega (arith, size),
        omega (
          arith,
          size,
          length-take 120 (sanitize false name),
          short org,
          short issue,
          short uuid,
        ),
      )

module _ (x : External) {db : Prisma} (org issue actor : RowId) (c c' : Call) (put_ok : Bool)
    (file : File) (w : World db) (short : (i : RowId) → length (x.id_text i) ≤ 200) (i : Issue)
    (found : find_issue org issue w ≡ some i) where
  abbrev pub built_key : Text
  built_key = build_key x (c.ids 0) org issue file.name

  upload-refused :
      is_presign_input (presign_body file) ≡ false
      → upload_attachment x org issue actor c c' put_ok file w ≡ (throw bad_request, w)
  unfolding upload_attachment post_presign validated
  upload-refused bad = rw bad

  module _ (good : is_presign_input (presign_body file) ≡ true) where
    post_presign-signed : post_presign x org issue actor c (presign_body file) w ≡ (ok built_key, w)
    unfolding post_presign validated
    post_presign-signed =
        rw good (presign-signed x c w org issue actor (confirm_body [] file) file.name i found)

    confirm_body-valid : is_confirm_input (confirm_body built_key file) ≡ true
    unfolding is_presign_input is_confirm_input
    confirm_body-valid =
        ground (arith, good, build_key-length x short (c.ids 0) org issue file.name)

    post_confirm-stored :
        ((post_confirm x org issue actor c' (confirm_body built_key file) w).0
          ≡ ok (new_attachment (c'.ids 0) actor issue (confirm_body built_key file)))
        × ((post_confirm x org issue actor c' (confirm_body built_key file) w).1.attachments
            ≡ db.create
                (new_attachment (c'.ids 0) actor issue (confirm_body built_key file))
                w.attachments)
    unfolding post_confirm validated
    post_confirm-stored = rw confirm_body-valid (
        confirm-stored x c' w org issue actor (confirm_body built_key file) i found
          (build_key-prefix x (c.ids 0) org issue file.name))

  upload-not_taken :
      is_presign_input (presign_body file) ≡ true
      → put_ok ≡ false
      → upload_attachment x org issue actor c c' put_ok file w ≡ (throw plain_error, w)
  unfolding upload_attachment
  upload-not_taken good failed = ground (arith, post_presign-signed good, failed)

  upload-taken :
      is_presign_input (presign_body file) ≡ true
      → put_ok ≡ true
      → upload_attachment x org issue actor c c' put_ok file w
        ≡ post_confirm x org issue actor c' (confirm_body built_key file) w
  unfolding upload_attachment
  upload-taken good taken =
      bind-returns (post_presign x org issue actor c (presign_body file))
        (λ key.
          throw_if (not put_ok) plain_error
          >> post_confirm x org issue actor c' (confirm_body key file))
        w w built_key (post_presign-signed good)
      ∙ rw taken refl

  -- For an issue of the tenant, and identifiers of at most 200 characters: a file whose name, type or size the schema
  -- of the first step refuses is refused with `bad_request`, and one that the object store does not take ends the
  -- upload with an error, both with nothing changed; any other file is confirmed, so that one attachment is stored
  -- and returned, under the key that was presigned, which passes the schema of the second step.
  pub upload_attachment_cases :
      ((is_presign_input (presign_body file) ≡ false)
        × (upload_attachment x org issue actor c c' put_ok file w ≡ (throw bad_request, w)))
      ⊎ ((is_presign_input (presign_body file) ≡ true)
          × (((put_ok ≡ false)
                × (upload_attachment x org issue actor c c' put_ok file w ≡ (throw plain_error, w)))
              ⊎ ((put_ok ≡ true)
                  × ((upload_attachment x org issue actor c c' put_ok file w).0
                      ≡ ok (new_attachment (c'.ids 0) actor issue (confirm_body built_key file)))
                  × ((upload_attachment x org issue actor c c' put_ok file w).1.attachments
                      ≡ db.create
                          (new_attachment (c'.ids 0) actor issue (confirm_body built_key file))
                          w.attachments))))
  upload_attachment_cases = elim (Bool-cases (is_presign_input (presign_body file))) [
    | inr bad ↦ inl (bad, upload-refused bad)
    | inl good ↦ elim (Bool-cases put_ok) [
      | inr failed ↦ inr (good, inl (failed, upload-not_taken good failed))
      | inl taken ↦
          let (answer, stored) = post_confirm-stored good in
          let same = upload-taken good taken in
          inr (
            good,
            inr (taken, ap (λ o. o.0) same ∙ answer, ap (λ o. o.1.attachments) same ∙ stored),
          )
    ]
  ]
