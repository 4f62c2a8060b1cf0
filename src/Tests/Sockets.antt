-- ===== src/Tests/Sockets.antt =====
-- Two sockets of a user on a node: both join a board, and one leaves it again.
use ai_saas_multi_tenant.Base.{ℕ, inl, inr, ◌≤◌, ◌≡◌, refl, Option, none, some, [], ◌∷◌, Text}
use ai_saas_multi_tenant.Prisma.Memory.{memory}
use ai_saas_multi_tenant.Prisma.Rows.{In}
use ai_saas_multi_tenant.Model.Data.{RowId}
use ai_saas_multi_tenant.Realtime.{
  Room, PresenceUser, SocketData, Node, room_presence, on_join, join_found, enter_room, leave_rooms,
  on_leave, on_cursor, handle_disconnect,
}
use ai_saas_multi_tenant.Realtime.Presence.{sockets_of}
use ai_saas_multi_tenant.Realtime.Clients.{
  Handshake, handle_connection, handshake_token, connected_as, System, Step, Reach, with_client,
  idle,
}
use ai_saas_multi_tenant.Realtime.Covers.{sockets_in}
use ai_saas_multi_tenant.Realtime.Roster.{Reach-present}
use ai_saas_multi_tenant.Web.Observer.Rosters.{IsObserved}
use ai_saas_multi_tenant.Web.Observer.Handlers.{handlers-IsObserved}
use ai_saas_multi_tenant.Tests.Fixture.{env, ada, world}

abbrev handshake : Handshake
handshake = record { auth_token = some (97 ∷ []); authorization = none }

abbrev jwt_verify : Text → ℕ → Option RowId
jwt_verify token secret = some 1

abbrev client : SocketData
client = connected_as ada

accepted : handle_connection jwt_verify env world handshake ≡ some client
unfolding handle_connection handshake_token
accepted = refl

both : Reach memory (record { clients = client ∷ client ∷ []; node = idle.node })
both =
    Reach.later
      (Reach.later Reach.start (Step.connect jwt_verify env world handshake client accepted))
      (Step.connect jwt_verify env world handshake client accepted)

abbrev board : Room
board = record { organization_id = 4; project_id = 60 }

abbrev first_in : SocketData × Node
first_in = on_join world 60 (client, idle.node)

abbrev second_in : SocketData × Node
second_in = on_join world 60 (client, first_in.1)

abbrev one_left : System
one_left = with_client [] (first_in.0 ∷ []) (on_leave 60 second_in)

one_left_reached : Reach memory one_left
one_left_reached =
    Reach.later
      (Reach.later (Reach.later both (Step.join world 60 (client ∷ []) client []))
        (Step.join world 60 [] client (first_in.0 ∷ [])))
      (Step.leave 60 [] second_in.0 (first_in.0 ∷ []))

present_example :
    ((shown : PresenceUser) × In shown (room_presence board one_left.node.presence)
      × (shown.user_id ≡ 1))
    × (sockets_in board 1 one_left.clients ≤ sockets_of board 1 one_left.node.presence)
unfolding on_join join_found enter_room on_leave leave_rooms
present_example = Reach-present board first_in.0 one_left_reached (inr (inl refl)) refl

handlers_example :
    IsObserved board first_in.1 (on_join world 60 first_in).1
    × IsObserved board first_in.1 (on_leave 60 first_in).1
    × IsObserved board first_in.1 (on_cursor 60 (some 70) first_in).1
    × IsObserved board first_in.1 (handle_disconnect first_in).1
handlers_example = handlers-IsObserved board world 60 (some 70) first_in
