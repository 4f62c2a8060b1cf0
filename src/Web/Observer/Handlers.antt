-- ===== src/Web/Observer/Handlers.antt =====
-- A tab that shows who is present, while the gateway handles the messages of other sockets.
use ai_saas_multi_tenant.Base.{
  inl, inr, ◌&&◌, Option, none, some, List, [], ◌∷◌, ◌==◌, Option-cases,
}
use ai_saas_multi_tenant.Prisma.{Prisma}
use ai_saas_multi_tenant.Model.Data.{RowId, Project, Membership}
use ai_saas_multi_tenant.Model.World.{World}
use ai_saas_multi_tenant.Realtime.{
  Room, SocketData, Node, leave_room, leave_rooms, handle_disconnect, rooms_of_project, on_leave,
  join_found, on_join, cursor_in, cursor_rooms, on_cursor,
}
use ai_saas_multi_tenant.Web.Observer.Rosters.{
  IsObserved, same-IsObserved, IsObserved-trans, enter_room-IsObserved, leave_presence-IsObserved,
  cursor_in-IsObserved,
}

module _ (room : Room) where
  leave_rooms-IsObserved :
      (rooms : List Room) (s : SocketData × Node) → IsObserved room s.1 (leave_rooms rooms s).1
  unfolding leave_rooms leave_room
  leave_rooms-IsObserved [] s = same-IsObserved room s.1
  leave_rooms-IsObserved (r ∷ rooms) s =
      IsObserved-trans room s.1 (leave_room r s).1 (leave_rooms rooms (leave_room r s)).1
        (leave_presence-IsObserved room r s.0.user.user_id s.1)
        (leave_rooms-IsObserved rooms (leave_room r s))

  cursor_rooms-IsObserved :
      (rooms : List Room) (user : RowId) (issue : Option RowId) (n : Node)
      → IsObserved room n (cursor_rooms rooms user issue n)
  unfolding cursor_rooms
  cursor_rooms-IsObserved [] user issue n = same-IsObserved room n
  cursor_rooms-IsObserved (r ∷ rooms) user issue n =
      IsObserved-trans room n (cursor_in r user issue n)
        (cursor_rooms rooms user issue (cursor_in r user issue n))
        (cursor_in-IsObserved room r user issue n)
        (cursor_rooms-IsObserved rooms user issue (cursor_in r user issue n))

  join_found-IsObserved :
      {db : Prisma} (w : World db) (o : Option Project) (s : SocketData × Node)
      → IsObserved room s.1 (join_found w o s).1
  unfolding join_found
  join_found-IsObserved w none s = same-IsObserved room s.1
  join_found-IsObserved {db} w (some p) s =
      elim (Option-cases (
        db.find_first
          (λ (m : Membership).
            m.organization_id == p.organization_id && m.user_id == s.0.user.user_id)
          w.memberships)) [
            | inl outside ↦ rw (outside, join_found) (same-IsObserved room s.1)
            | inr (m, inside) ↦
                rw (inside, join_found)
                  (enter_room-IsObserved room
                    (record { organization_id = p.organization_id; project_id = p.id }) s)
          ]

  -- A tab in a room that shows exactly the users with an entry there shows exactly them behind every
  -- message of another socket, once it has applied what is sent to the room: a join, a leave, a
  -- moved cursor and a disconnect.
  pub handlers-IsObserved :
      {db : Prisma} (w : World db) (project : RowId) (issue : Option RowId) (s : SocketData × Node)
      → IsObserved room s.1 (on_join w project s).1
        × IsObserved room s.1 (on_leave project s).1
        × IsObserved room s.1 (on_cursor project issue s).1
        × IsObserved room s.1 (handle_disconnect s).1
  unfolding on_join on_leave on_cursor handle_disconnect
  handlers-IsObserved {db} w project issue s = (
    join_found-IsObserved w (db.find_first (λ (p : Project). p.id == project) w.projects) s,
    leave_rooms-IsObserved (rooms_of_project project s.0.rooms) s,
    cursor_rooms-IsObserved (rooms_of_project project s.0.rooms) s.0.user.user_id issue s.1,
    leave_rooms-IsObserved s.0.rooms s,
  )
