-- ===== src/Realtime/Roster.antt =====
-- The roster of a room against the clients that are in it, for every order of the events in realtime.gateway.ts.
use ai_saas_multi_tenant.Base.{
  ℕ, ◌+◌, ◌≤◌, ◌≡◌, refl, sym, ap, inl, inr, true, Option, none, some, List, [], ◌∷◌, ◌++◌, arith,
  Text, All, Bool-cases,
}
use mathlib.Core.Path.{subst}
use ai_saas_multi_tenant.Prisma.{Prisma}
use ai_saas_multi_tenant.Prisma.Rows.{In}
use ai_saas_multi_tenant.Model.Data.{RowId, User}
use ai_saas_multi_tenant.Model.World.{World}
use ai_saas_multi_tenant.Model.Platform.{Env}
use ai_saas_multi_tenant.Realtime.{
  Room, same_room, has_room, PresenceUser, Entry, is_entry, SocketData, Node, room_presence,
  handle_disconnect, on_leave, on_join, on_cursor,
}
use ai_saas_multi_tenant.Realtime.Rooms.{DistinctRooms}
use ai_saas_multi_tenant.Realtime.Covers.{
  is_in, sockets_in, Covers, KeepsAll, handle_disconnect-KeepsAll, on_leave-KeepsAll,
  on_join-KeepsAll, on_cursor-KeepsAll, on_join-sockets,
}
use ai_saas_multi_tenant.Realtime.Clients.{
  Handshake, handshake_token, connect_user, connect_subject, connect_token, handle_connection,
  System, Step, Reach, with_client, without_client,
}
use ai_saas_multi_tenant.Realtime.Presence.{sockets_of}
use ai_saas_multi_tenant.Realtime.Counts.{one_if}

-- The invariant: what is counted for a user in a room covers its sockets there, and the rooms of a socket differ.
abbrev pub Covered : System → Type 0
Covered s =
    ((r : Room) (u : RowId) → sockets_in r u s.clients ≤ sockets_of r u s.node.presence)
    × All (λ (c : SocketData). DistinctRooms c.rooms) s.clients

sockets_in-append :
    (r : Room) (u : RowId) (before : List SocketData) (c : SocketData) (after : List SocketData)
    → sockets_in r u (before ++ c ∷ after) ≡ one_if (is_in r u c) + sockets_in r u (before ++ after)
sockets_in-append r u [] c after = refl
sockets_in-append r u (b ∷ before) c after = omega (arith, sockets_in-append r u before c after)

module _ (P : SocketData → Type 0) where
  All-middle :
      (before : List SocketData) (c : SocketData) (after : List SocketData)
      → All P (before ++ c ∷ after)
      → P c
  All-middle [] c after h = h.0
  All-middle (b ∷ before) c after h = All-middle before c after h.1

  All-without :
      (before : List SocketData) (c : SocketData) (after : List SocketData)
      → All P (before ++ c ∷ after)
      → All P (before ++ after)
  All-without [] c after h = h.1
  All-without (b ∷ before) c after h = (h.0, All-without before c after h.1)

  All-with :
      (before : List SocketData) (c : SocketData) (after : List SocketData)
      → P c
      → All P (before ++ after)
      → All P (before ++ c ∷ after)
  All-with [] c after p h = (p, h)
  All-with (b ∷ before) c after p h = (h.0, All-with before c after p h.1)

module _ (before : List SocketData) (c : SocketData) (after : List SocketData) (n : Node)
    (t : SocketData × Node) where
  with_client-Covered :
      KeepsAll (c, n) t
      → Covered (with_client before after (c, n))
      → Covered (with_client before after t)
  with_client-Covered keep inv = (
    λ r u.
        let had : Covers (sockets_in r u (before ++ after)) r u (c, n) =
          omega (arith, inv.0 r u, sockets_in-append r u before c after) in
        let has : Covers (sockets_in r u (before ++ after)) r u t =
          (keep (All-middle _ before c after inv.1)).0 r u _ had in
        omega (arith, has, sockets_in-append r u before t.0 after),
    All-with _ before t.0 after (keep (All-middle _ before c after inv.1)).1
        (All-without _ before c after inv.1),
  )

  without_client-Covered :
      KeepsAll (c, n) t
      → Covered (with_client before after (c, n))
      → Covered (without_client before after t)
  without_client-Covered keep inv = (
    λ r u.
        let had : Covers (sockets_in r u (before ++ after)) r u (c, n) =
          omega (arith, inv.0 r u, sockets_in-append r u before c after) in
        let has : Covers (sockets_in r u (before ++ after)) r u t =
          (keep (All-middle _ before c after inv.1)).0 r u _ had in
        omega (arith, has),
    All-without _ before c after inv.1,
  )

module _ (jwt_verify : Text → ℕ → Option RowId) (env : Env) {db : Prisma} (w : World db) where
  connect_user-rooms :
      (found : Option User) (c : SocketData)
      → connect_user jwt_verify env w found ≡ some c
      → [] ≡ c.rooms
  connect_user-rooms none c e = cc
  connect_user-rooms (some u) c e = ap rooms_or_none e
    where
      rooms_or_none : Option SocketData → List Room
      rooms_or_none none = []
      rooms_or_none (some d) = d.rooms

  connect_subject-rooms :
      (sub : Option RowId) (c : SocketData)
      → connect_subject jwt_verify env w sub ≡ some c
      → [] ≡ c.rooms
  connect_subject-rooms none c e = cc
  connect_subject-rooms (some sub) c e = connect_user-rooms _ c e

  connect_token-rooms :
      (token : Option Text) (c : SocketData)
      → connect_token jwt_verify env w token ≡ some c
      → [] ≡ c.rooms
  connect_token-rooms none c e = cc
  connect_token-rooms (some []) c e = cc
  connect_token-rooms (some (k ∷ ks)) c e = connect_subject-rooms _ c e

  -- A client that has connected is in no room.
  connect-rooms :
      (h : Handshake) (c : SocketData)
      → handle_connection jwt_verify env w h ≡ some c
      → c.rooms ≡ []
  unfolding handle_connection
  connect-rooms h c e = sym (connect_token-rooms (handshake_token h) c e)

Step-Covered : {db : Prisma} {s t : System} → Step db s t → Covered s → Covered t
Step-Covered (Step.connect jwt_verify env w h c {s} e) inv =
    let fresh = connect-rooms jwt_verify env w h c e in
    (λ r u. rw fresh (omega (arith, inv.0 r u)), (rw fresh tt, inv.1))
Step-Covered (Step.disconnect before c after {n}) inv =
    without_client-Covered before c after n (handle_disconnect (c, n))
      (handle_disconnect-KeepsAll c n) inv
Step-Covered (Step.join w project before c after {n}) inv =
    with_client-Covered before c after n (on_join w project (c, n)) (on_join-KeepsAll w project c n)
      inv
Step-Covered (Step.leave project before c after {n}) inv =
    with_client-Covered before c after n (on_leave project (c, n)) (on_leave-KeepsAll project c n)
      inv
Step-Covered (Step.cursor project issue before c after {n}) inv =
    with_client-Covered before c after n (on_cursor project issue (c, n))
      (on_cursor-KeepsAll project issue c n) inv
Step-Covered (Step.late w project c {s}) inv =
    (λ r u. omega (arith, inv.0 r u, on_join-sockets w project (c, s.node) r u), inv.1)

Reach-Covered : {db : Prisma} {s : System} → Reach db s → Covered s
Reach-Covered Reach.start = (λ r u. omega arith, tt)
Reach-Covered (Reach.later before step) = Step-Covered step (Reach-Covered before)

found_in_roster :
    (r : Room) (u : RowId) (p : List Entry)
    → 1 ≤ sockets_of r u p
    → (shown : PresenceUser) × In shown (room_presence r p) × (shown.user_id ≡ u)
unfolding room_presence
found_in_roster r u [] some_sockets = absurd (omega (arith, some_sockets))
found_in_roster r u (e ∷ p) some_sockets = elim (Bool-cases (is_entry r u e)) [
  | inl mine ↦
      let here : same_room e.room r ≡ true = ground (arith, mine) in
      let theirs : e.user.user_id ≡ u = ground (arith, mine) in (e.user, rw here (inl refl), theirs)
  | inr other ↦
      let (shown, m, same) = found_in_roster r u p (rw other at some_sockets) in
      elim (Bool-cases (same_room e.room r)) [
        | inl here ↦ (shown, rw here (inr m), same)
        | inr elsewhere ↦ (shown, rw elsewhere m, same)
      ]
]

one_socket :
    (r : Room) (c : SocketData) (cs : List SocketData)
    → In c cs
    → has_room r c.rooms ≡ true
    → 1 ≤ sockets_in r c.user.user_id cs
one_socket r c [] m h = absurd m
one_socket r c (d ∷ cs) (inl e) h =
    let inside : is_in r c.user.user_id c ≡ true = rw h (ground arith) in
    let there : is_in r c.user.user_id d ≡ true =
      subst (λ k. is_in r c.user.user_id k ≡ true) e inside in
    rw there (omega arith)
one_socket r c (d ∷ cs) (inr m) h = omega (arith, one_socket r c cs m h)

-- After any sequence of connections, disconnections, joins, leaves and cursor moves of any clients, in any order, and
-- with joins that are carried out after their client is gone: where a socket is in a room, its user is on the roster of
-- that room, and the sockets of the user that are in the room are no more than the node counts for the user there.
pub Reach-present :
    {db : Prisma} {s : System} (r : Room) (c : SocketData)
    → Reach db s
    → In c s.clients
    → has_room r c.rooms ≡ true
    → ((shown : PresenceUser) × In shown (room_presence r s.node.presence)
        × (shown.user_id ≡ c.user.user_id))
      × (sockets_in r c.user.user_id s.clients ≤ sockets_of r c.user.user_id s.node.presence)
Reach-present {s = s} r c reached m inside =
    let covered = (Reach-Covered reached).0 r c.user.user_id in
    let at_least = one_socket r c s.clients m inside in
    (found_in_roster r c.user.user_id s.node.presence (omega (arith, at_least, covered)), covered)
