-- ===== src/Services/Attachments/Namespace.antt =====
-- The object keys of `presign` and `confirm` in attachments/attachments.service.ts.
use ai_saas_multi_tenant.Base.{
  ◌≡◌, ◌≢◌, refl, sym, ap, ◌∙◌, ◌⊎◌, inl, inr, true, false, none, some, [], ◌∷◌, ◌++◌, arith, ◌==◌,
  ==_refl, append_assoc, Option-cases, Bool-cases, Text, codes, All,
}
use mathlib.Core.Path.{subst}
use ai_saas_multi_tenant.Prisma.{Prisma}
use ai_saas_multi_tenant.Model.Data.{RowId, Issue}
use ai_saas_multi_tenant.Model.World.{World}
use ai_saas_multi_tenant.Model.Platform.{External}
use ai_saas_multi_tenant.Model.Action.{Call, ok, throw, forbidden, not_found}
use ai_saas_multi_tenant.Services.Audit.{record_audit}
use ai_saas_multi_tenant.Services.Issues.{in_org}
use ai_saas_multi_tenant.Services.Attachments.{
  starts_with, key_prefix, build_key, ConfirmAttachmentInput, new_attachment, presign, confirm,
}

starts_with-append : (p t : Text) → starts_with (p ++ t) p ≡ true
starts_with-append [] t = starts_with-nil t
  where
    starts_with-nil : (t : Text) → starts_with t [] ≡ true
    starts_with-nil [] = refl
    starts_with-nil (c ∷ t) = refl
starts_with-append (c ∷ p) t = rw (==_refl c) (starts_with-append p t)

-- No slash.
abbrev pub IsSegment : Text → Type 0
IsSegment t = All (λ c. (c == 47) ≡ false) t

-- Two texts that go on with a slash, the first with the second as a prefix, agree up to the slash.
segment_match :
    (s t p q : Text)
    → IsSegment s
    → IsSegment t
    → starts_with (s ++ 47 ∷ p) (t ++ 47 ∷ q) ≡ true
    → (s ≡ t) × (starts_with p q ≡ true)
segment_match [] [] p q hs ht e = (refl, e)
segment_match [] (d ∷ t) p q hs ht e = absurd (ground (arith, ht.0, e))
segment_match (c ∷ s) [] p q hs ht e = absurd (ground (arith, hs.0, e))
segment_match (c ∷ s) (d ∷ t) p q hs ht e =
    let (same, rest) = segment_match s t p q hs.1 ht.1 (ground arith) in
    let first : c ≡ d = ground (arith, e) in
    (subst (λ z. c ∷ s ≡ z ∷ t) first (ap (λ u. c ∷ u) same), rest)

pub build_key-prefix :
    (x : External) (uuid org issue : RowId) (file_name : Text)
    → starts_with (build_key x uuid org issue file_name) (key_prefix x org issue) ≡ true
unfolding build_key
build_key-prefix x uuid org issue file_name = starts_with-append (key_prefix x org issue) _

-- The texts of both prefixes, with the parts that go on behind a slash.
key_prefix-match :
    (x : External) (org issue org' issue' : RowId) (t : Text)
    → ((i : RowId) → IsSegment (x.id_text i))
    → starts_with (key_prefix x org issue ++ t) (key_prefix x org' issue') ≡ true
    → (x.id_text org ≡ x.id_text org') × (x.id_text issue ≡ x.id_text issue')
unfolding key_prefix
key_prefix-match x org issue org' issue' t segments e =
    let regroup : (x.id_text org ++ (codes "/issues/" ++ (x.id_text issue ++ codes "/"))) ++ t
        ≡ x.id_text org ++ (codes "/issues/" ++ (x.id_text issue ++ (codes "/" ++ t))) =
      append_assoc (x.id_text org) (codes "/issues/" ++ (x.id_text issue ++ codes "/")) t
      ∙ ap (λ u. x.id_text org ++ (codes "/issues/" ++ u))
          (append_assoc (x.id_text issue) (codes "/") t) in
    let (same_org, rest) =
      segment_match (x.id_text org) (x.id_text org') _ _ (segments org) (segments org') (
        subst
          (λ u.
            starts_with (codes "org/" ++ u) (
              codes "org/"
              ++ (x.id_text org' ++ (codes "/issues/" ++ (x.id_text issue' ++ codes "/"))))
            ≡ true)
          regroup e) in
    let (same_issue, _) =
      segment_match (x.id_text issue) (x.id_text issue') _ _ (segments issue) (segments issue')
        rest in
    (same_org, same_issue)

module _ (x : External) (c : Call) {db : Prisma} (w : World db) (org issue actor : RowId)
    (input : ConfirmAttachmentInput) where
  confirm-missing :
      db.find_first (in_org org issue) w.issues ≡ none
      → confirm x c org actor issue input w ≡ (throw not_found, w)
  unfolding confirm
  confirm-missing missing = rw missing

  module _ (i : Issue) (found : db.find_first (in_org org issue) w.issues ≡ some i) where
    confirm-refused :
        starts_with input.file_key (key_prefix x org issue) ≡ false
        → confirm x c org actor issue input w ≡ (throw forbidden, w)
    unfolding confirm
    confirm-refused outside = rw (found, outside)

    pub confirm-stored :
        starts_with input.file_key (key_prefix x org issue) ≡ true
        → ((confirm x c org actor issue input w).0
            ≡ ok (new_attachment (c.ids 0) actor issue input))
          × ((confirm x c org actor issue input w).1.attachments
              ≡ db.create (new_attachment (c.ids 0) actor issue input) w.attachments)
    unfolding confirm record_audit
    confirm-stored inside = (ground (arith, found, inside), ground (arith, found, inside))

  presign-missing :
      (file_name : Text)
      → db.find_first (in_org org issue) w.issues ≡ none
      → presign x c org issue file_name w ≡ (throw not_found, w)
  unfolding presign
  presign-missing file_name missing = rw missing

  pub presign-signed :
      (file_name : Text) (i : Issue)
      → db.find_first (in_org org issue) w.issues ≡ some i
      → presign x c org issue file_name w ≡ (ok (build_key x (c.ids 0) org issue file_name), w)
  unfolding presign
  presign-signed file_name i found = rw found

  -- In the state where a key is presigned for an issue, a confirmation for the same tenant and issue
  -- with that key stores exactly one row, the attachment with that key, and returns it.
  pub presign-confirm :
      (file_name key : Text)
      → (presign x c org issue file_name w).0 ≡ ok key
      → input.file_key ≡ key
      → ((confirm x c org actor issue input w).0 ≡ ok (new_attachment (c.ids 0) actor issue input))
        × ((confirm x c org actor issue input w).1.attachments
            ≡ db.create (new_attachment (c.ids 0) actor issue input) w.attachments)
  presign-confirm file_name key signed same =
      elim (Option-cases (db.find_first (in_org org issue) w.issues)) [
        | inl missing ↦
            absurd (refused key (ap (λ o. o.0) (sym (presign-missing file_name missing)) ∙ signed))
        | inr (i, found) ↦
            let built =
              signed_key key (ap (λ o. o.0) (sym (presign-signed file_name i found)) ∙ signed) in
            confirm-stored i found (
              subst (λ k. starts_with k (key_prefix x org issue) ≡ true) (built ∙ sym same)
                (build_key-prefix x (c.ids 0) org issue file_name))
      ]
    where
      refused : (k : Text) → throw not_found ≡ ok k → ⊥
      refused k e = cc

      signed_key :
          (k : Text)
          → ok (build_key x (c.ids 0) org issue file_name) ≡ ok k
          → build_key x (c.ids 0) org issue file_name ≡ k
      signed_key k e = cc

  -- Where identifiers have no slash and different identifiers differ as text, a key that was built for
  -- another tenant or issue is not confirmed: `confirm` throws and changes nothing.
  pub confirm-foreign :
      (built_for built_at uuid : RowId) (file_name : Text)
      → ((i : RowId) → IsSegment (x.id_text i))
      → ((i j : RowId) → x.id_text i ≡ x.id_text j → i ≡ j)
      → input.file_key ≡ build_key x uuid built_for built_at file_name
      → (built_for ≢ org) ⊎ (built_at ≢ issue)
      → (confirm x c org actor issue input w ≡ (throw forbidden, w))
        ⊎ (confirm x c org actor issue input w ≡ (throw not_found, w))
  unfolding build_key
  confirm-foreign built_for built_at uuid file_name segments distinct built other =
      elim (Option-cases (db.find_first (in_org org issue) w.issues)) [
        | inl missing ↦ inr (confirm-missing missing)
        | inr (i, found) ↦ elim (Bool-cases (starts_with input.file_key (key_prefix x org issue))) [
          | inr outside ↦ inl (confirm-refused i found outside)
          | inl inside ↦
              let (same_org, same_issue) =
                key_prefix-match x built_for built_at org issue _ segments
                  (subst (λ k. starts_with k (key_prefix x org issue) ≡ true) built inside) in
              absurd (elim other [
                | inl differs ↦ differs (distinct _ _ same_org)
                | inr differs ↦ differs (distinct _ _ same_issue)
              ])
        ]
      ]
