-- ===== src/Realtime/Presence.antt =====
-- The sockets that realtime.gateway.ts counts for a user in a room.
use ai_saas_multi_tenant.Base.{
  ℕ, ◌+◌, ◌-◌, ◌≡◌, refl, ◌∙◌, inl, inr, true, Option, none, some, List, [], ◌∷◌, ◌++◌, map, arith,
  leb, Bool-cases, Option-cases,
}
use mathlib.Core.Path.{subst}
use ai_saas_multi_tenant.Prisma.Rows.{update_row, remove}
use ai_saas_multi_tenant.Model.Data.{RowId}
use ai_saas_multi_tenant.Realtime.{
  Room, same_room, PresenceUser, Entry, is_entry, find_entry, set_sockets, SocketData, Node,
  add_presence, drop_socket, leave_presence, leave_room, leave_rooms, handle_disconnect, enter_room,
  add_room,
}

abbrev pub count_of : Option Entry → ℕ
count_of none = 0
count_of (some e) = e.sockets

-- The sockets that are counted for a user in a room; none without an entry.
abbrev pub sockets_of : Room → RowId → List Entry → ℕ
sockets_of room user p = count_of (find_entry room user p)

omega_last : (x : Entry) → leb (x.sockets - 1) 0 ≡ true → 0 ≡ x.sockets - 1
omega_last x last = ground arith

some_is_not_none : (e : Entry) → some e ≡ none → ⊥
some_is_not_none e h = cc

module _ (room : Room) (me : PresenceUser) where
  added :
      (p : List Entry)
      → find_entry room me.user_id p ≡ none
      → sockets_of room me.user_id (p ++ record { room = room; user = me; sockets = 1 } ∷ []) ≡ 1
  added [] h = ground arith
  added (x ∷ p) h = elim (Bool-cases (is_entry room me.user_id x)) [
    | inl hit ↦ absurd (some_is_not_none x (rw hit at h))
    | inr miss ↦ rw miss (added p (rw miss at h))
  ]

  mapped :
      (p : List Entry) (f : ℕ → ℕ) (e : Entry)
      → find_entry room me.user_id p ≡ some e
      → sockets_of room me.user_id (map (update_row (is_entry room me.user_id) (set_sockets f)) p)
        ≡ f e.sockets
  mapped [] f e h = cc
  mapped (x ∷ p) f e h = elim (Bool-cases (is_entry room me.user_id x)) [
    | inl hit ↦ ground (arith, hit, h)
    | inr miss ↦ rw (miss, miss) (mapped p f e (rw miss at h))
  ]

  removed :
      (p : List Entry) → find_entry room me.user_id (remove (is_entry room me.user_id) p) ≡ none
  removed [] = refl
  removed (x ∷ p) = elim (Bool-cases (is_entry room me.user_id x)) [
    | inl hit ↦ rw hit (removed p)
    | inr miss ↦ rw (miss, miss) (removed p)
  ]

  pub add_presence-new :
      (p : List Entry)
      → find_entry room me.user_id p ≡ none
      → add_presence room me p ≡ p ++ record { room = room; user = me; sockets = 1 } ∷ []
  unfolding add_presence
  add_presence-new p missing = rw (missing, add_presence)

  pub add_presence-old :
      (p : List Entry) (x : Entry)
      → find_entry room me.user_id p ≡ some x
      → add_presence room me p
        ≡ map (update_row (is_entry room me.user_id) (set_sockets (λ n. n + 1))) p
  unfolding add_presence
  add_presence-old p x found = rw (found, add_presence)

  pub add_presence-counts :
      (p : List Entry)
      → sockets_of room me.user_id (add_presence room me p) ≡ sockets_of room me.user_id p + 1
  add_presence-counts p = elim (Option-cases (find_entry room me.user_id p)) [
    | inl missing ↦ rw (missing, add_presence-new p missing, added p missing) (omega arith)
    | inr (x, found) ↦ rw (found, add_presence-old p x found, mapped p (λ n. n + 1) x found)
  ]

  pub drop_socket-counts :
      (p : List Entry)
      → sockets_of room me.user_id (drop_socket room me.user_id p (find_entry room me.user_id p))
        ≡ sockets_of room me.user_id p - 1
  unfolding drop_socket
  drop_socket-counts p = elim (Option-cases (find_entry room me.user_id p)) [
    | inl missing ↦ rw (missing, missing) refl
    | inr (x, found) ↦ elim (Bool-cases (leb (x.sockets - 1) 0)) [
      | inl last ↦ rw (found, last, removed p) (omega_last x last)
      | inr more ↦ rw (found, more, mapped p (λ n. n - 1) x found) refl
    ]
  ]

abbrev pub client_in : PresenceUser → List Room → SocketData
client_in me rooms = record { user = me; rooms = rooms }

same_room_refl : (r : Room) → same_room r r ≡ true
same_room_refl r = ground arith

module _ (room : Room) (me : PresenceUser) (n : Node) where
  abbrev pub counted : ℕ
  counted = sockets_of room me.user_id n.presence

module _ (room : Room) (me : PresenceUser) (n : Node) where
  disconnect_from :
      (rooms : List Room)
      → room ∷ [] ≡ rooms
      → counted room me (handle_disconnect (client_in me rooms, n)).1 ≡ counted room me n - 1
  unfolding handle_disconnect leave_rooms leave_room leave_presence
  disconnect_from rooms e =
      subst
        (λ rs. counted room me (handle_disconnect (client_in me rs, n)).1 ≡ counted room me n - 1) e
        (drop_socket-counts room me n.presence)

add_room_once : (room : Room) → room ∷ [] ≡ add_room room (room ∷ [])
add_room_once room = rw (same_room_refl room) refl

module _ (room : Room) (me : PresenceUser) (n : Node) where
  -- A client that joins one room and disconnects is counted in it no more than before it joined.
  pub enter-disconnect :
      counted room me (handle_disconnect (enter_room room (client_in me [], n))).1
      ≡ counted room me n
  unfolding enter_room
  enter-disconnect =
      disconnect_from room me _ (room ∷ []) refl
      ∙ omega (arith, add_presence-counts room me n.presence)

  -- A client that joins a room that it is in already, and then disconnects, stays counted in it: its
  -- first join is not taken back, although the room is the only one that it was in.
  pub rejoin_lingers :
      (k : ℕ)
      → counted room me n ≡ k
      → counted room me
          (handle_disconnect (enter_room room (enter_room room (client_in me [], n)))).1
        ≡ k + 1
  unfolding enter_room
  rejoin_lingers k e =
      disconnect_from room me _ _ (add_room_once room)
      ∙ omega (
        arith,
        e,
        add_presence-counts room me n.presence,
        add_presence-counts room me (add_presence room me n.presence),
      )
