-- ===== src/Services/Attachments.antt =====
-- Attachments and their object keys: apps/api/src/modules/attachments/attachments.service.ts and
-- `buildKey` of apps/api/src/common/storage/storage.service.ts. The URLs that the S3 client signs are
-- not part of the results.
pub mod Namespace
use ai_saas_multi_tenant.Base.{
  take, ℕ, zero, suc, Bool, true, false, not, ◌&&◌, ◌||◌, Option, none, some, List, [], ◌∷◌, ◌++◌,
  leb, ◌==◌, if◌then◌else◌, Text, codes,
}
use ai_saas_multi_tenant.Prisma.{Prisma}
use ai_saas_multi_tenant.Prisma.Rows.{select}
use ai_saas_multi_tenant.Model.Data.{RowId, Issue, Attachment, AuditAction, Metadata}
use ai_saas_multi_tenant.Model.World.{World}
use ai_saas_multi_tenant.Model.Platform.{External}
use ai_saas_multi_tenant.Model.Action.{
  Action, Call, forbidden, not_found, pure, gets, or_throw, throw_if, modify, ◌>>=◌, ◌>>◌,
}
use ai_saas_multi_tenant.Services.Audit.{audit_entry, record_audit}
use ai_saas_multi_tenant.Services.Issues.{in_org}

-- `[\w.\-]`
abbrev pub is_safe_char : ℕ → Bool
is_safe_char c =
    (leb 48 c && leb c 57)
    || (leb 65 c && leb c 90)
    || (leb 97 c && leb c 122)
    || c == 95
    || c == 46
    || c == 45

-- `replace(/[^\w.\-]+/g, '_')`, where the flag says that the character before was replaced.
unfoldable pub sanitize : Bool → Text → Text
sanitize in_run [] = []
sanitize in_run (c ∷ cs) =
    let kept = c ∷ sanitize false cs in
    let run = sanitize true cs in
    if is_safe_char c then kept else if in_run then run else b'_' ∷ run

-- `startsWith`, the prefix last
abbrev pub starts_with : Text → Text → Bool
starts_with text [] = true
starts_with [] (p ∷ ps) = false
starts_with (c ∷ cs) (p ∷ ps) = c == p && starts_with cs ps

module _ (x : External) where
  -- `org/${organizationId}/issues/${issueId}/`
  unfoldable pub key_prefix : RowId → RowId → Text
  key_prefix org issue =
      codes "org/" ++ (x.id_text org ++ (codes "/issues/" ++ (x.id_text issue ++ codes "/")))

  unfoldable pub build_key : RowId → RowId → RowId → Text → Text
  unfolding key_prefix
  build_key uuid org issue file_name =
      key_prefix org issue ++ (x.id_text uuid ++ (codes "-" ++ take 120 (sanitize false file_name)))

pub record ConfirmAttachmentInput : Type 0 where
  pub file_key : Text
  pub file_name : Text
  pub content_type : Text
  pub size : ℕ

abbrev pub new_attachment : RowId → RowId → RowId → ConfirmAttachmentInput → Attachment
new_attachment id actor issue input = record {
  id = id;
  issue_id = issue;
  uploader_id = actor;
  file_name = input.file_name;
  file_key = input.file_key;
  content_type = input.content_type;
  size = input.size;
}

module _ {db : Prisma} where
  -- `resolveIssue`, which throws where this is `none`
  abbrev pub find_issue : RowId → RowId → World db → Option Issue
  find_issue org issue w = db.find_first (in_org org issue) w.issues

  -- `storage.delete`, whose failure is logged and swallowed
  unfoldable pub delete_object : Text → Action db (Unit {0})
  delete_object key = modify (λ w. record w { deleted_objects = w.deleted_objects ++ key ∷ [] })

  -- the rows; the order is the creation's
  unfoldable pub list : RowId → RowId → Action db (List Attachment)
  list org issue = do
    _ ← or_throw not_found (← gets (find_issue org issue))
    gets (λ w. select (λ (a : Attachment). a.issue_id == issue) (db.rows w.attachments))

  module _ (x : External) (c : Call) where
    -- the object key that the client should report back
    unfoldable pub presign : RowId → RowId → Text → Action db Text
    presign org issue file_name = do
      _ ← or_throw not_found (← gets (find_issue org issue))
      pure (build_key x (c.ids 0) org issue file_name)

    unfoldable pub confirm : RowId → RowId → RowId → ConfirmAttachmentInput → Action db Attachment
    confirm org actor issue input = do
      _ ← or_throw not_found (← gets (find_issue org issue))
      throw_if (not (starts_with input.file_key (key_prefix x org issue))) forbidden
      let a = new_attachment (c.ids 0) actor issue input
      modify (λ w. record w { attachments = db.create a w.attachments })
      record_audit c (
          audit_entry org actor AuditAction.attachment_created a.id
            (Metadata.file issue input.file_name input.size))
      pure a

    unfoldable pub remove : RowId → RowId → RowId → RowId → Action db (Unit {0})
    unfolding delete_object
    remove org actor issue id = do
      _ ← or_throw not_found (← gets (find_issue org issue))
      a ←
          or_throw not_found
            (← gets (λ w.
              db.find_first (λ (a : Attachment). a.id == id && a.issue_id == issue) w.attachments))
      modify (λ w. record w { attachments = db.delete_many (λ b. b.id == a.id) w.attachments })
      delete_object a.file_key
      record_audit c
          (audit_entry org actor AuditAction.attachment_deleted a.id (Metadata.about issue))
