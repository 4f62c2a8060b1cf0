-- ===== src/Web/Observer.antt =====
-- Who is shown on an open board: the presence handlers of apps/web/lib/use-board-realtime.ts, on what
-- apps/api/src/modules/realtime/realtime.gateway.ts sends to a room when others come and go.
pub mod Rosters
pub mod Handlers
use ai_saas_multi_tenant.Base.{
  ℕ, ◌+◌, ◌-◌, ◌≡◌, refl, sym, ap, ◌∙◌, inl, inr, Bool, true, false, not, ◌&&◌, ◌||◌, Option, none,
  some, List, [], ◌∷◌, ◌++◌, map, leb, arith, ◌==◌, ==_iff, ==_refl, if◌then◌else◌, Bool-cases,
  Option-cases,
}
use mathlib.Core.Path.{subst}
use ai_saas_multi_tenant.Prisma.Rows.{update_row, remove, select}
use ai_saas_multi_tenant.Model.Data.{RowId}
use ai_saas_multi_tenant.Services.Orgs.{is_found}
use ai_saas_multi_tenant.Realtime.{
  Room, same_room, PresenceUser, Entry, is_entry, find_entry, SocketData, Outgoing, sync, join,
  leave, Node, set_sockets, set_cursor, add_presence, drop_socket, left, leave_presence,
  moved_cursor, cursor_in,
}

abbrev pub has_user : RowId → PresenceUser → Bool
has_user user p = p.user_id == user

-- The handlers, in a tab that is in the room; `presence:sync` goes to the socket that joins alone,
-- and is what a tab starts from.
unfoldable pub on_presence : Room → Outgoing → List PresenceUser → List PresenceUser
on_presence room (sync users) shown = shown
on_presence room (join r user) shown =
    if same_room r room then remove (has_user user.user_id) shown ++ user ∷ [] else shown
on_presence room (leave r user) shown =
    if same_room r room then remove (has_user user) shown else shown

unfoldable pub on_all : Room → List Outgoing → List PresenceUser → List PresenceUser
on_all room [] shown = shown
on_all room (m ∷ ms) shown = on_all room ms (on_presence room m shown)

-- Somebody is shown.
unfoldable pub shows : RowId → List PresenceUser → Bool
shows user [] = false
shows user (p ∷ ps) = has_user user p || shows user ps

-- The node has an entry for the user in the room.
abbrev pub is_present : Room → RowId → List Entry → Bool
is_present room user p = is_found (find_entry room user p)

module _ (user : RowId) where
  pub shows-append :
      (ps : List PresenceUser) (q : PresenceUser)
      → shows user (ps ++ q ∷ []) ≡ (shows user ps || has_user user q)
  unfolding shows
  shows-append [] q = ground arith
  shows-append (p ∷ ps) q = ground (arith, shows-append ps q)

  pub shows-remove :
      (gone : RowId) (ps : List PresenceUser)
      → shows user (remove (has_user gone) ps) ≡ (shows user ps && not (gone == user))
  unfolding shows
  shows-remove gone [] = refl
  shows-remove gone (p ∷ ps) = ground (arith, shows-remove gone ps)

module _ (room : Room) (user : RowId) where
  pub is_present-append :
      (es : List Entry) (e : Entry)
      → is_present room user (es ++ e ∷ []) ≡ (is_present room user es || is_entry room user e)
  is_present-append [] e = ground arith
  is_present-append (d ∷ es) e = ground (arith, is_present-append es e)

  -- An update that keeps rooms and ids.
  pub is_present-map :
      (f : Entry → Entry) (es : List Entry)
      → ((e : Entry) → is_entry room user (f e) ≡ is_entry room user e)
      → is_present room user (map f es) ≡ is_present room user es
  is_present-map f [] keep = refl
  is_present-map f (e ∷ es) keep = ground (arith, keep e, is_present-map f es keep)

  -- An entry under one key is under another exactly where the keys are the same.
  pub entry_alike :
      (r : Room) (gone : RowId) (e : Entry)
      → is_entry r gone e ≡ true
      → is_entry room user e ≡ (same_room r room && gone == user)
  entry_alike r gone e hit = ground arith

  entry_unlike :
      (r : Room) (gone : RowId) (e : Entry)
      → is_entry r gone e ≡ false
      → (is_entry room user e && (same_room r room && gone == user)) ≡ false
  entry_unlike r gone e miss = ground arith

  pub is_present-remove :
      (r : Room) (gone : RowId) (es : List Entry)
      → is_present room user (remove (is_entry r gone) es)
        ≡ (is_present room user es && not (same_room r room && gone == user))
  is_present-remove r gone [] = refl
  is_present-remove r gone (e ∷ es) = elim (Bool-cases (is_entry r gone e)) [
    | inl hit ↦ rw hit (is_present-remove r gone es ∙ ground (arith, entry_alike r gone e hit))
    | inr miss ↦ ground (arith, miss, is_present-remove r gone es, entry_unlike r gone e miss)
  ]
