-- ===== src/Services/Notifications.antt =====
-- Notifications: apps/api/src/modules/notifications, the service and the worker behind its queue.
pub mod Laws
use ai_saas_multi_tenant.Prisma.{Prisma}
use ai_saas_multi_tenant.Prisma.Rows.{update_row, select}
use ai_saas_multi_tenant.Base.{
  take, ℕ, suc, Bool, true, false, not, ◌&&◌, ◌||◌, Option, none, some, List, [], ◌∷◌, ◌++◌, Text,
  ◌==◌, if◌then◌else◌,
}
use ai_saas_multi_tenant.Model.Data.{
  RowId, Time, User, Notification, NotificationType, issue_assigned, issue_status_changed,
  comment_created, mentioned, invited, NotificationJob, MailMessage, MailText,
}
use ai_saas_multi_tenant.Model.World.{World}
use ai_saas_multi_tenant.Model.Action.{
  Action, Call, ok, record_missing, pure, gets, or_throw, modify, ◌>>=◌, ◌>>◌,
}

-- `job.recipientId === job.actorId`
abbrev pub is_own_action : NotificationJob → Bool
is_own_action job = elim job.actor_id [ none ↦ false | some actor ↦ job.recipient_id == actor ]

module _ {db : Prisma} where
  unfoldable pub enqueue : NotificationJob → Action db (Unit {0})
  enqueue job =
      modify (λ w. record w { queue = if is_own_action job then w.queue else w.queue ++ job ∷ [] })

-- `where: { userId, ...(unreadOnly ? { readAt: null } : {}) }`
abbrev pub is_unread : Notification → Bool
is_unread n = elim n.read_at [ none ↦ true | some _ ↦ false ]

abbrev pub unread_of : RowId → Notification → Bool
unread_of user n = n.user_id == user && is_unread n

-- The newest come first by the order of the database, which is an argument; `take: 50`
unfoldable pub list :
    (newest_first : List Notification → List Notification)
    → {db : Prisma} → RowId
    → Bool
    → Action db (List Notification)
list newest_first {db} user unread_only = gets (λ w. take 50 (
    newest_first (
      select (λ (n : Notification). n.user_id == user && (not unread_only || is_unread n))
        (db.rows w.notifications))))

abbrev pub contains : List RowId → RowId → Bool
contains [] i = false
contains (x ∷ xs) i = x == i || contains xs i

abbrev pub set_read : Time → Notification → Notification
set_read now n = record n { read_at = some now }

-- The number of rows that an `updateMany` selects.
abbrev pub count_where {ℓ} : {R : Type ℓ} → (R → Bool) → List R → ℕ
count_where p [] = 0
count_where p (r ∷ rs) = let rest = count_where p rs in if p r then suc rest else rest

module _ {db : Prisma} (c : Call) where
  unfoldable pub mark_read : RowId → List RowId → Action db ℕ
  mark_read user ids w =
      let selected = λ (n : Notification). unread_of user n && contains ids n.id in
      (
        ok (count_where selected (db.rows w.notifications)),
        record w { notifications = db.update_many selected (set_read c.now) w.notifications },
      )

  unfoldable pub mark_all_read : RowId → Action db ℕ
  mark_all_read user w = (
    ok (count_where (unread_of user) (db.rows w.notifications)),
    record w { notifications = db.update_many (unread_of user) (set_read c.now) w.notifications },
  )

pub record NotificationPrefs : Type 0 where
  pub email_on_assigned : Option Bool
  pub email_on_mentioned : Option Bool
  pub email_on_comment : Option Bool

-- A column that `data` leaves undefined is kept.
abbrev pub or_kept {ℓ} : {A : Type ℓ} → Option A → A → A
or_kept none old = old
or_kept (some new) old = new

abbrev pub set_prefs : NotificationPrefs → User → User
set_prefs prefs u = record u {
  email_on_assigned = or_kept prefs.email_on_assigned u.email_on_assigned;
  email_on_mentioned = or_kept prefs.email_on_mentioned u.email_on_mentioned;
  email_on_comment = or_kept prefs.email_on_comment u.email_on_comment;
}

module _ {db : Prisma} where
  unfoldable pub get_prefs : RowId → Action db User
  get_prefs user = do
    or_throw record_missing (← gets (λ w. db.find_first (λ (u : User). u.id == user) w.users))

  unfoldable pub update_prefs : RowId → NotificationPrefs → Action db User
  update_prefs user prefs = do
    old ← or_throw record_missing (← gets (λ w. db.find_first (λ (u : User). u.id == user) w.users))
    modify (λ w. record w { users = db.update_many (λ u. u.id == user) (set_prefs prefs) w.users })
    pure (set_prefs prefs old)

-- `EMAIL_RULES[type].pref`, applied to the recipient; `none` where no preference gates an e-mail.
abbrev pub email_rule : NotificationType → Option (User → Bool)
email_rule issue_assigned = some (λ u. u.email_on_assigned)
email_rule mentioned = some (λ u. u.email_on_mentioned)
email_rule comment_created = some (λ u. u.email_on_comment)
email_rule issue_status_changed = none
email_rule invited = none

abbrev pub new_notification : Call → NotificationJob → Notification
new_notification c job = record {
  id = c.ids 0;
  organization_id = job.organization_id;
  user_id = job.recipient_id;
  type = job.type;
  payload = job.payload;
  read_at = none;
}

abbrev pub notification_mail : NotificationJob → User → MailMessage
notification_mail job user = record {
  to = user.email;
  text = MailText.notification user.name job.type job.payload.title;
}

module _ {db : Prisma} (c : Call) where
  -- `if (!user || !user[rule.pref]) return;` and the e-mail behind it
  unfoldable pub send_email : (User → Bool) → NotificationJob → Option User → Action db (Unit {0})
  send_email pref job none w = (ok tt, w)
  send_email pref job (some user) w =
      if pref user
      then (ok tt, record w { mails = w.mails ++ notification_mail job user ∷ [] })
      else (ok tt, w)

  unfoldable pub process : NotificationJob → Action db (Unit {0})
  unfolding send_email
  process job w =
      let stored = record w {
        notifications = db.create (new_notification c job) w.notifications;
      } in
      elim (email_rule job.type) [
        | none ↦ (ok tt, stored)
        | some pref ↦
            send_email pref job (db.find_first (λ (u : User). u.id == job.recipient_id) w.users)
              stored
      ]
