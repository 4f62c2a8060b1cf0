-- ===== src/Realtime/Covers.antt =====
-- What the handlers of realtime.gateway.ts keep of the sockets that are counted.
use ai_saas_multi_tenant.Base.{
  ℕ, ◌+◌, ◌≤◌, ◌≡◌, refl, sym, ◌∙◌, ◌⊎◌, inl, inr, Bool, true, ◌&&◌, Option, none, some, List, [],
  ◌∷◌, arith, ◌==◌, Option-cases,
}
use mathlib.Core.Path.{subst}
use ai_saas_multi_tenant.Prisma.{Prisma}
use ai_saas_multi_tenant.Model.Data.{RowId, Project, Membership}
use ai_saas_multi_tenant.Model.World.{World}
use ai_saas_multi_tenant.Realtime.{
  Room, has_room, SocketData, Node, rooms_of_project, leave_room, leave_rooms, handle_disconnect,
  on_leave, enter_room, join_found, on_join, cursor_rooms, on_cursor,
}
use ai_saas_multi_tenant.Realtime.Rooms.{
  DistinctRooms, AllIn, has_room-add_room, has_room-left, remove-DistinctRooms,
  add_room-DistinctRooms, AllIn-remove, AllIn-refl, select-AllIn, select-DistinctRooms,
}
use ai_saas_multi_tenant.Realtime.Presence.{sockets_of}
use ai_saas_multi_tenant.Realtime.Counts.{
  one_if, add_presence-sockets, leave_presence-sockets, cursor_in-sockets,
}

-- A socket of the user that is in the room.
abbrev pub is_in : Room → RowId → SocketData → Bool
is_in r u c = has_room r c.rooms && c.user.user_id == u

abbrev pub sockets_in : Room → RowId → List SocketData → ℕ
sockets_in r u [] = 0
sockets_in r u (c ∷ cs) = one_if (is_in r u c) + sockets_in r u cs

-- The sockets of a user that are in a room are no more than are counted, also with those of `rest`.
abbrev pub Covers : ℕ → Room → RowId → SocketData × Node → Type 0
Covers rest r u s = one_if (is_in r u s.0) + rest ≤ sockets_of r u s.1.presence

module _ (r : Room) (u : RowId) (rest : ℕ) where
  leave_room-Covers :
      (room : Room) (c : SocketData) (n : Node)
      → has_room room c.rooms ≡ true
      → Covers rest r u (c, n)
      → Covers rest r u (leave_room room (c, n))
  unfolding leave_room
  leave_room-Covers room c n there h = omega (
    arith,
    h,
    leave_presence-sockets r u room c.user n,
    has_room-left r u room c.user.user_id c.rooms there,
  )

  enter_room-Covers :
      (room : Room) (c : SocketData) (n : Node)
      → Covers rest r u (c, n)
      → Covers rest r u (enter_room room (c, n))
  unfolding enter_room
  enter_room-Covers room c n h = omega (
    arith,
    h,
    add_presence-sockets r u room c.user n.presence,
    has_room-add_room r u room c.user.user_id c.rooms,
  )

module _ (r : Room) (u : RowId) (rest : ℕ) where
  leave_rooms-Covers :
      (rooms : List Room) (c : SocketData) (n : Node)
      → DistinctRooms rooms
      → AllIn rooms c.rooms
      → Covers rest r u (c, n)
      → Covers rest r u (leave_rooms rooms (c, n))
  unfolding leave_rooms leave_room
  leave_rooms-Covers [] c n once all h = h
  leave_rooms-Covers (room ∷ rooms) c n once all h =
      leave_rooms-Covers rooms (leave_room room (c, n)).0 (leave_room room (c, n)).1 once.1
        (AllIn-remove room rooms c.rooms once.0 all.1) (leave_room-Covers r u rest room c n all.0 h)

leave_rooms-DistinctRooms :
    (rooms : List Room) (c : SocketData) (n : Node)
    → DistinctRooms c.rooms
    → DistinctRooms (leave_rooms rooms (c, n)).0.rooms
unfolding leave_rooms leave_room
leave_rooms-DistinctRooms [] c n d = d
leave_rooms-DistinctRooms (room ∷ rooms) c n d =
    leave_rooms-DistinctRooms rooms (leave_room room (c, n)).0 (leave_room room (c, n)).1
      (remove-DistinctRooms room c.rooms d)

-- What a message of one client has to keep, whatever sockets there are beside it.
abbrev pub KeepsAll : SocketData × Node → SocketData × Node → Type 0
KeepsAll s t =
    DistinctRooms s.0.rooms
    → ((r : Room) (u : RowId) (rest : ℕ) → Covers rest r u s → Covers rest r u t)
      × DistinctRooms t.0.rooms

leave_rooms-KeepsAll :
    (rooms : List Room) (c : SocketData) (n : Node)
    → (DistinctRooms c.rooms → DistinctRooms rooms)
    → AllIn rooms c.rooms
    → KeepsAll (c, n) (leave_rooms rooms (c, n))
leave_rooms-KeepsAll rooms c n once all d = (
  λ r u rest h. leave_rooms-Covers r u rest rooms c n (once d) all h,
  leave_rooms-DistinctRooms rooms c n d,
)

pub handle_disconnect-KeepsAll :
    (c : SocketData) (n : Node) → KeepsAll (c, n) (handle_disconnect (c, n))
unfolding handle_disconnect
handle_disconnect-KeepsAll c n = leave_rooms-KeepsAll c.rooms c n (λ d. d) (AllIn-refl c.rooms)

pub on_leave-KeepsAll :
    (project : RowId) (c : SocketData) (n : Node) → KeepsAll (c, n) (on_leave project (c, n))
unfolding on_leave
on_leave-KeepsAll project c n =
    leave_rooms-KeepsAll _ c n (λ d. select-DistinctRooms _ c.rooms d) (select-AllIn _ c.rooms)

enter_room-KeepsAll :
    (room : Room) (c : SocketData) (n : Node) → KeepsAll (c, n) (enter_room room (c, n))
unfolding enter_room
enter_room-KeepsAll room c n d =
    (λ r u rest h. enter_room-Covers r u rest room c n h, add_room-DistinctRooms room c.rooms d)

-- A join is ignored, or enters one room.
join_found-cases :
    {db : Prisma} (w : World db) (found : Option Project) (s : SocketData × Node)
    → (join_found w found s ≡ s) ⊎ ((room : Room) × (join_found w found s ≡ enter_room room s))
unfolding join_found
join_found-cases w none s = inl refl
join_found-cases {db} w (some p) s =
    elim (Option-cases (
      db.find_first
        (λ (m : Membership).
          m.organization_id == p.organization_id && m.user_id == s.0.user.user_id)
        w.memberships)) [
          | inl stranger ↦ inl (rw (stranger, join_found) refl)
          | inr (m, known) ↦ inr (
            record { organization_id = p.organization_id; project_id = p.id },
            rw (known, join_found) refl,
          )
        ]

on_join-cases :
    {db : Prisma} (w : World db) (project : RowId) (s : SocketData × Node)
    → (on_join w project s ≡ s) ⊎ ((room : Room) × (on_join w project s ≡ enter_room room s))
unfolding on_join
on_join-cases w project s = join_found-cases w _ s

pub on_join-KeepsAll :
    {db : Prisma} (w : World db) (project : RowId) (c : SocketData) (n : Node)
    → KeepsAll (c, n) (on_join w project (c, n))
on_join-KeepsAll w project c n = elim (on_join-cases w project (c, n)) [
  | inl same ↦ subst (KeepsAll (c, n)) (sym same) (λ d. (λ r u rest h. h, d))
  | inr (room, enters) ↦ subst (KeepsAll (c, n)) (sym enters) (enter_room-KeepsAll room c n)
]

-- A join counts nobody less, also when its client is gone.
pub on_join-sockets :
    {db : Prisma} (w : World db) (project : RowId) (s : SocketData × Node) (r : Room) (u : RowId)
    → sockets_of r u s.1.presence ≤ sockets_of r u (on_join w project s).1.presence
unfolding enter_room
on_join-sockets w project s r u = elim (on_join-cases w project s) [
  | inl same ↦ rw same (omega arith)
  | inr (room, enters) ↦
      rw enters (omega (arith, add_presence-sockets r u room s.0.user s.1.presence))
]

cursor_rooms-sockets :
    (r : Room) (u : RowId) (rooms : List Room) (user : RowId) (issue : Option RowId) (n : Node)
    → sockets_of r u (cursor_rooms rooms user issue n).presence ≡ sockets_of r u n.presence
unfolding cursor_rooms
cursor_rooms-sockets r u [] user issue n = refl
cursor_rooms-sockets r u (room ∷ rooms) user issue n =
    cursor_rooms-sockets r u rooms user issue _ ∙ cursor_in-sockets r u room user issue n

pub on_cursor-KeepsAll :
    (project : RowId) (issue : Option RowId) (c : SocketData) (n : Node)
    → KeepsAll (c, n) (on_cursor project issue (c, n))
unfolding on_cursor
on_cursor-KeepsAll project issue c n d = (
  λ r u rest h. omega (
    arith,
    h,
    cursor_rooms-sockets r u (rooms_of_project project c.rooms) c.user.user_id issue n,
  ),
  d,
)
