-- ===== src/Schemas.antt =====
-- Input schemas of packages/types/src/schemas.ts, as tests on the inputs, and the pipe that applies them,
-- apps/api/src/common/pipes/zod-validation.pipe.ts. A length counts code units, as zod counts it.
pub mod Inputs
pub mod Slugs
use ai_saas_multi_tenant.Base.{ℕ, ◌*◌, Bool, not, ◌&&◌, Text, length, leb}
use ai_saas_multi_tenant.Prisma.{Prisma}
use ai_saas_multi_tenant.Model.Action.{Action, bad_request, throw_if, ◌>>◌}
use ai_saas_multi_tenant.Services.Attachments.{ConfirmAttachmentInput}

-- `z.string().min(low).max(high)`
abbrev pub is_between : ℕ → ℕ → Text → Bool
is_between low high t = leb low (length t) && leb (length t) high

abbrev pub max_attachment_bytes : ℕ
max_attachment_bytes = 25 * 1024 * 1024

-- `z.number().int().positive().max(MAX_ATTACHMENT_BYTES)`
abbrev pub is_size : ℕ → Bool
is_size n = leb 1 n && leb n max_attachment_bytes

pub record PresignAttachmentInput : Type 0 where
  pub file_name : Text
  pub content_type : Text
  pub size : ℕ

unfoldable pub is_presign_input : PresignAttachmentInput → Bool
is_presign_input input =
    is_between 1 255 input.file_name && (is_between 1 255 input.content_type && is_size input.size)

unfoldable pub is_confirm_input : ConfirmAttachmentInput → Bool
is_confirm_input input =
    is_between 1 1024 input.file_key
    && (is_between 1 255 input.file_name
        && (is_between 1 255 input.content_type && is_size input.size))

-- `ZodValidationPipe.transform` in front of a handler
unfoldable pub validated :
    {db : Prisma} {A B : Type 0} → (A → Bool) → A → (A → Action db B) → Action db B
validated test body handler = do throw_if (not (test body)) bad_request; handler body
