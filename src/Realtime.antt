-- ===== src/Realtime.antt =====
-- Presence on the boards: apps/api/src/modules/realtime/realtime.gateway.ts, on one node. The two
-- nested maps are one list of entries, in the order of insertion, with the room in each entry.
pub mod Presence
pub mod Clients
pub mod Counts
pub mod Rooms
pub mod Covers
pub mod Roster
use ai_saas_multi_tenant.Base.{
  ℕ, suc, ◌+◌, ◌-◌, Bool, true, false, not, ◌&&◌, ◌||◌, Option, none, some, List, [], ◌∷◌, ◌++◌,
  map, leb, ◌==◌, if◌then◌else◌, Text,
}
use ai_saas_multi_tenant.Prisma.{Prisma}
use ai_saas_multi_tenant.Prisma.Rows.{update_row, remove, select}
use ai_saas_multi_tenant.Model.Data.{RowId, Project, Membership}
use ai_saas_multi_tenant.Model.World.{World}

-- `projectRoom(orgId, projectId)`, by its two identifiers, which have no colon in them.
pub record Room : Type 0 where
  pub organization_id : RowId
  pub project_id : RowId

abbrev pub same_room : Room → Room → Bool
same_room r s = r.organization_id == s.organization_id && r.project_id == s.project_id

-- realtime.ts; the avatar's address is a number.
pub record PresenceUser : Type 0 where
  pub user_id : RowId
  pub name : Text
  pub avatar_url : Option ℕ
  pub cursor : Option RowId

-- A value of the inner map, with the room that it is under.
pub record Entry : Type 0 where
  pub room : Room
  pub user : PresenceUser
  pub sockets : ℕ

abbrev pub is_entry : Room → RowId → Entry → Bool
is_entry room user e = same_room e.room room && e.user.user_id == user

-- `presence.get(room)?.get(userId)`
abbrev pub find_entry : Room → RowId → List Entry → Option Entry
find_entry room user [] = none
find_entry room user (e ∷ es) =
    let rest = find_entry room user es in if is_entry room user e then some e else rest

-- What a client's socket holds, `client.data`, once it is connected.
pub record SocketData : Type 0 where
  pub user : PresenceUser
  pub rooms : List Room

-- What goes out: to the client, or to the others of a room.
pub data Outgoing : Type 0 where
  sync : List PresenceUser → Outgoing
  join : Room → PresenceUser → Outgoing
  leave : Room → RowId → Outgoing

-- The state of the node that one client's messages change.
pub record Node : Type 0 where
  pub presence : List Entry
  pub sent : List Outgoing

abbrev pub set_sockets : (ℕ → ℕ) → Entry → Entry
set_sockets f e = record e { sockets = f e.sockets }

unfoldable pub add_presence : Room → PresenceUser → List Entry → List Entry
add_presence room user p = elim (find_entry room user.user_id p) [
  | none ↦ p ++ record { room = room; user = user; sockets = 1 } ∷ []
  | some _ ↦ map (update_row (is_entry room user.user_id) (set_sockets (λ n. n + 1))) p
]

-- `strip` and `roomPresence`
unfoldable pub room_presence : Room → List Entry → List PresenceUser
room_presence room p = map (λ (e : Entry). e.user) (select (λ e. same_room e.room room) p)

abbrev pub has_room : Room → List Room → Bool
has_room r [] = false
has_room r (s ∷ rs) = same_room s r || has_room r rs

-- The presence part of `leaveRoom`, on the entry that is found.
unfoldable pub drop_socket : Room → RowId → List Entry → Option Entry → List Entry
drop_socket room user p none = p
drop_socket room user p (some e) =
    if leb (e.sockets - 1) 0
    then remove (is_entry room user) p
    else map (update_row (is_entry room user) (set_sockets (λ n. n - 1))) p

abbrev pub left : Room → RowId → Option Entry → List Outgoing
left room user none = []
left room user (some e) = if leb (e.sockets - 1) 0 then leave room user ∷ [] else []

unfoldable pub leave_presence : Room → RowId → Node → Node
unfolding drop_socket
leave_presence room user n = record {
  presence = drop_socket room user n.presence (find_entry room user n.presence);
  sent = n.sent ++ left room user (find_entry room user n.presence);
}

unfoldable pub leave_room : Room → SocketData × Node → SocketData × Node
leave_room room (client, n) = (
  record client { rooms = remove (λ r. same_room r room) client.rooms },
  leave_presence room client.user.user_id n,
)

-- `for (const room of client.data.rooms)`, over the rooms that were there at the start
unfoldable pub leave_rooms : List Room → SocketData × Node → SocketData × Node
leave_rooms [] s = s
leave_rooms (room ∷ rooms) s = leave_rooms rooms (leave_room room s)

unfoldable pub handle_disconnect : SocketData × Node → SocketData × Node
handle_disconnect s = leave_rooms s.0.rooms s

-- `room.endsWith(':project:' + projectId)`
abbrev pub rooms_of_project : RowId → List Room → List Room
rooms_of_project project rooms = select (λ r. r.project_id == project) rooms

unfoldable pub on_leave : RowId → SocketData × Node → SocketData × Node
on_leave project s = leave_rooms (rooms_of_project project s.0.rooms) s

-- `rooms.add(room)` of a set
abbrev pub add_room : Room → List Room → List Room
add_room r rs = if has_room r rs then rs else rs ++ r ∷ []

unfoldable pub enter_room : Room → SocketData × Node → SocketData × Node
enter_room room (client, n) =
    let p = add_presence room client.user n.presence in
    (
      record client { rooms = add_room room client.rooms },
      record {
        presence = p;
        sent = n.sent ++ sync (room_presence room p) ∷ join room client.user ∷ [];
      },
    )

-- A project that is unknown, or of an organization that the user is not in, is ignored.
unfoldable pub join_found :
    {db : Prisma} → World db → Option Project → SocketData × Node → SocketData × Node
join_found w none s = s
join_found {db} w (some p) s =
    elim (db.find_first
      (λ (m : Membership). m.organization_id == p.organization_id && m.user_id == s.0.user.user_id)
      w.memberships) [
        | none ↦ s
        | some _ ↦ enter_room (record { organization_id = p.organization_id; project_id = p.id }) s
      ]

unfoldable pub on_join : {db : Prisma} → World db → RowId → SocketData × Node → SocketData × Node
unfolding join_found
on_join {db} w project s =
    join_found w (db.find_first (λ (p : Project). p.id == project) w.projects) s

abbrev pub set_cursor : Option RowId → Entry → Entry
set_cursor issue e = record e { user = record (e.user) { cursor = issue } }

abbrev pub moved_cursor : Room → Option RowId → Option Entry → List Outgoing
moved_cursor room issue none = []
moved_cursor room issue (some e) = join room (set_cursor issue e).user ∷ []

unfoldable pub cursor_in : Room → RowId → Option RowId → Node → Node
cursor_in room user issue n = record {
  presence = map (update_row (is_entry room user) (set_cursor issue)) n.presence;
  sent = n.sent ++ moved_cursor room issue (find_entry room user n.presence);
}

unfoldable pub cursor_rooms : List Room → RowId → Option RowId → Node → Node
cursor_rooms [] user issue n = n
cursor_rooms (room ∷ rooms) user issue n =
    cursor_rooms rooms user issue (cursor_in room user issue n)

unfoldable pub on_cursor : RowId → Option RowId → SocketData × Node → SocketData × Node
on_cursor project issue (client, n) =
    (client, cursor_rooms (rooms_of_project project client.rooms) client.user.user_id issue n)
