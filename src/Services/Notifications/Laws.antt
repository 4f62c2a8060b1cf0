-- ===== src/Services/Notifications/Laws.antt =====
-- The notifications service and its worker: notifications.service.ts and notifications.processor.ts.
use ai_saas_multi_tenant.Base.{
  ◌≡◌, refl, sym, ap, ◌∙◌, ◌⊎◌, inl, inr, Bool, true, false, Option, some, List, [], ◌∷◌, ◌++◌, map,
  arith, ◌==◌, if◌then◌else◌, Bool-cases, Option-cases,
}
use mathlib.Core.Path.{subst}
use ai_saas_multi_tenant.Prisma.{Prisma}
use ai_saas_multi_tenant.Prisma.Rows.{In, update_row, map-In}
use ai_saas_multi_tenant.Model.Data.{RowId, Time, User, Notification, NotificationJob}
use ai_saas_multi_tenant.Model.World.{World}
use ai_saas_multi_tenant.Model.Action.{Call}
use ai_saas_multi_tenant.Services.Notifications.{
  unread_of, set_read, count_where, mark_all_read, email_rule, send_email, new_notification,
  notification_mail, process,
}

some_inj : {A : Type 0} {a b : A} → some a ≡ some b → a ≡ b
some_inj e = cc

-- Reading again changes nothing: a row that was marked is not selected any more.
set_read-read :
    (user : RowId) (now : Time) (n : Notification) → unread_of user (set_read now n) ≡ false
set_read-read user now n = ground arith

-- After the rows that are selected are marked, none of the user's is left unread.
none_left :
    (user : RowId) (now : Time) (ns : List Notification)
    → count_where (unread_of user) (map (update_row (unread_of user) (set_read now)) ns) ≡ 0
none_left user now [] = refl
none_left user now (n ∷ ns) = elim (Bool-cases (unread_of user n)) [
  | inl unread ↦ rw (unread, set_read-read user now n) (none_left user now ns)
  | inr other ↦ rw (other, other) (none_left user now ns)
]

module _ {db : Prisma} (c : Call) (user : RowId) (w : World db) where
  all_read-table :
      (mark_all_read c user w).1.notifications
      ≡ db.update_many (unread_of user) (set_read c.now) w.notifications
  unfolding mark_all_read
  all_read-table = refl

  -- Behind `markAllRead` no notification of the user is unread, and each row that is not the user's is
  -- a row that was there before.
  pub mark_all_read-none_left :
      (count_where (unread_of user) (db.rows (mark_all_read c user w).1.notifications) ≡ 0)
      × ((n : Notification)
          → In n (db.rows (mark_all_read c user w).1.notifications)
          → (n.user_id == user) ≡ false
          → In n (db.rows w.notifications))
  mark_all_read-none_left = (
    ap (λ t. count_where (unread_of user) (db.rows t)) all_read-table
        ∙ ap (count_where (unread_of user)) (db.rows-update_many _ _ w.notifications)
        ∙ none_left user c.now (db.rows w.notifications),
    others,
  )
    where
      mine : (r : Notification) → unread_of user r ≡ true → (r.user_id == user) ≡ false → ⊥
      mine r hit other = ground (arith, hit, other)

      others :
          (n : Notification)
          → In n (db.rows (mark_all_read c user w).1.notifications)
          → (n.user_id == user) ≡ false
          → In n (db.rows w.notifications)
      others n m other =
          let (r, stored, same) = map-In _ (db.rows w.notifications) (
            subst (λ rs. In n rs) (db.rows-update_many _ _ w.notifications)
              (subst (λ t. In n (db.rows t)) all_read-table m)) in
          elim (Bool-cases (unread_of user r)) [
            | inr kept ↦
                let whole : n ≡ r = same ∙ ap (λ b. if b then set_read c.now r else r) kept in
                subst (λ (x : Notification). In x (db.rows w.notifications)) (sym whole) stored
            | inl hit ↦
                let marked : n ≡ set_read c.now r =
                  same ∙ ap (λ b. if b then set_read c.now r else r) hit in
                absurd (
                  mine r hit
                    (subst (λ (x : Notification). (x.user_id == user) ≡ false) marked other))
          ]

module _ {db : Prisma} (c : Call) (job : NotificationJob) (w : World db) where
  abbrev pub recipient : Option User
  recipient = db.find_first (λ (u : User). u.id == job.recipient_id) w.users

  -- A mail is due to `u`.
  abbrev pub IsDue : User → Type 0
  IsDue u =
      (recipient ≡ some u)
      × ((pref : User → Bool) × (email_rule job.type ≡ some pref) × (pref u ≡ true))

  process-stored :
      (process c job w).1.notifications ≡ db.create (new_notification c job) w.notifications
  unfolding process send_email
  process-stored = elim (Option-cases (email_rule job.type)) [
    | inl silent ↦ ground (arith, silent)
    | inr (pref, rule) ↦ elim (Option-cases recipient) [
      | inl missing ↦ ground (arith, rule, missing)
      | inr (u, found) ↦ elim (Bool-cases (pref u)) [
        | inl wanted ↦ ground (arith, rule, found, wanted)
        | inr unwanted ↦ ground (arith, rule, found, unwanted)
      ]
    ]
  ]

  process-mails :
      (((process c job w).1.mails ≡ w.mails) × ((u : User) → IsDue u → ⊥))
      ⊎ ((u : User) × IsDue u
          × ((process c job w).1.mails ≡ w.mails ++ notification_mail job u ∷ []))
  unfolding process send_email
  process-mails = elim (Option-cases (email_rule job.type)) [
    | inl silent ↦ inl (ground (arith, silent), λ u due. absurd (ground (arith, silent, due.1.1)))
    | inr (pref, rule) ↦ elim (Option-cases recipient) [
      | inl missing ↦
          inl (ground (arith, rule, missing), λ u due. absurd (ground (arith, missing, due.0)))
      | inr (u, found) ↦ elim (Bool-cases (pref u)) [
        | inl wanted ↦ inr (u, (found, (pref, rule, wanted)), ground (arith, rule, found, wanted))
        | inr unwanted ↦ inl (
          ground (arith, rule, found, unwanted),
          λ v due.
              let refused : due.1.0 v ≡ false =
                subst (λ (p : User → Bool). p v ≡ false) (some_inj (sym rule ∙ due.1.1))
                  (subst (λ x. pref x ≡ false) (some_inj (sym found ∙ due.0)) unwanted) in
              absurd (ground (arith, refused, due.1.2)),
        )
      ]
    ]
  ]

  -- The worker stores the notification, unread, for the recipient, on every branch; it sends no mail
  -- where none is due, and otherwise one, to the stored recipient, whose preference allows it.
  pub process_lem :
      ((process c job w).1.notifications ≡ db.create (new_notification c job) w.notifications)
      × ((((process c job w).1.mails ≡ w.mails) × ((u : User) → IsDue u → ⊥))
          ⊎ ((u : User) × IsDue u
              × ((process c job w).1.mails ≡ w.mails ++ notification_mail job u ∷ [])))
  process_lem = (process-stored, process-mails)
