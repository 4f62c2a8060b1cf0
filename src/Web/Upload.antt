-- ===== src/Web/Upload.antt =====
-- The upload of a file in three steps: `uploadAttachment` of apps/web/lib/api.ts and `onFile` of
-- apps/web/components/issue-modal.tsx, with the routes of apps/api/src/modules/attachments/attachments.controller.ts
-- that it calls, for a user who passes their guards.
pub mod Stored
use ai_saas_multi_tenant.Base.{
  ℕ, Bool, not, Option, none, some, [], ◌∷◌, Text, codes, ltb, if◌then◌else◌,
}
use ai_saas_multi_tenant.Prisma.{Prisma}
use ai_saas_multi_tenant.Model.Data.{RowId, Attachment}
use ai_saas_multi_tenant.Model.Platform.{External}
use ai_saas_multi_tenant.Model.Action.{Action, Call, plain_error, throw_if, ◌>>=◌, ◌>>◌}
use ai_saas_multi_tenant.Services.Attachments.{ConfirmAttachmentInput, presign, confirm}
use ai_saas_multi_tenant.Schemas.{
  max_attachment_bytes, PresignAttachmentInput, is_presign_input, is_confirm_input, validated,
}

pub record File : Type 0 where
  pub name : Text
  pub mime_type : Text
  pub size : ℕ

-- `onFile`: the file that is handed on; none also where it is too large, which is shown.
unfoldable pub on_file : Option File → Option File
on_file none = none
on_file (some file) = if ltb max_attachment_bytes file.size then none else some file

-- `file.type || 'application/octet-stream'`
abbrev pub type_or_default : Text → Text
type_or_default [] = codes "application/octet-stream"
type_or_default (c ∷ cs) = c ∷ cs

abbrev pub presign_body : File → PresignAttachmentInput
presign_body f = record {
  file_name = f.name;
  content_type = type_or_default f.mime_type;
  size = f.size;
}

abbrev pub confirm_body : Text → File → ConfirmAttachmentInput
confirm_body key f = record {
  file_key = key;
  file_name = f.name;
  content_type = type_or_default f.mime_type;
  size = f.size;
}

module _ (x : External) {db : Prisma} (org issue actor : RowId) where
  -- `AttachmentsController.presign`
  unfoldable pub post_presign : Call → PresignAttachmentInput → Action db Text
  post_presign c body = validated is_presign_input body (λ b. presign x c org issue b.file_name)

  -- `AttachmentsController.confirm`
  unfoldable pub post_confirm : Call → ConfirmAttachmentInput → Action db Attachment
  post_confirm c body = validated is_confirm_input body (λ b. confirm x c org actor issue b)

  -- The two requests are two calls of the API; between them the object store takes the bytes, or does not.
  unfoldable pub upload_attachment : Call → Call → Bool → File → Action db Attachment
  upload_attachment c c' put_ok file = do
    key ← post_presign c (presign_body file)
    throw_if (not put_ok) plain_error
    post_confirm c' (confirm_body key file)
