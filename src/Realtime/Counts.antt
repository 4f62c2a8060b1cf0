-- ===== src/Realtime/Counts.antt =====
-- What each message does to the sockets that are counted for any user in any room.
use ai_saas_multi_tenant.Base.{
  ℕ, ◌+◌, ◌-◌, ◌≡◌, refl, sym, ap, ◌∙◌, inl, inr, Bool, true, false, ◌&&◌, Option, none, some, List,
  [], ◌∷◌, ◌++◌, map, arith, ◌==◌, leb, Bool-cases, Option-cases, if◌then◌else◌,
}
use ai_saas_multi_tenant.Prisma.Rows.{update_row, remove}
use ai_saas_multi_tenant.Model.Data.{RowId}
use ai_saas_multi_tenant.Realtime.{
  Room, same_room, PresenceUser, Entry, is_entry, find_entry, set_sockets, set_cursor, Node,
  add_presence, drop_socket, leave_presence, cursor_in,
}
use ai_saas_multi_tenant.Realtime.Presence.{
  sockets_of, add_presence-new, add_presence-old, add_presence-counts, drop_socket-counts,
}

-- One when the room and the user are the two asked for.
abbrev pub is_same : Room → RowId → Room → RowId → Bool
is_same r u room user = same_room room r && user == u

abbrev pub one_if : Bool → ℕ
one_if b = if b then 1 else 0

module _ (r : Room) (u : RowId) (room : Room) (user : RowId)
    (other : is_same r u room user ≡ false) where
  other_entry : (e : Entry) → is_entry room user e ≡ true → is_entry r u e ≡ false
  other_entry e hit = ground (arith, hit, other)

  map_other :
      (f : Entry → Entry) (p : List Entry)
      → ((e : Entry) → is_entry r u e ≡ is_entry r u (f e))
      → sockets_of r u (map (update_row (is_entry room user) f) p) ≡ sockets_of r u p
  map_other f [] same = refl
  map_other f (x ∷ p) same = elim (Bool-cases (is_entry room user x)) [
    | inl hit ↦
        let miss = other_entry x hit in
        let miss' : is_entry r u (f x) ≡ false = sym (same x) ∙ miss in
        rw (hit, miss, miss') (map_other f p same)
    | inr kept ↦ elim (Bool-cases (is_entry r u x)) [
      | inl mine ↦ rw (kept, mine) refl
      | inr miss ↦ rw (kept, miss) (map_other f p same)
    ]
  ]

  remove_other :
      (p : List Entry) → sockets_of r u (remove (is_entry room user) p) ≡ sockets_of r u p
  remove_other [] = refl
  remove_other (x ∷ p) = elim (Bool-cases (is_entry room user x)) [
    | inl hit ↦ let miss = other_entry x hit in rw (hit, miss) (remove_other p)
    | inr kept ↦ elim (Bool-cases (is_entry r u x)) [
      | inl mine ↦ rw (kept, mine) refl
      | inr miss ↦ rw (kept, miss) (remove_other p)
    ]
  ]

  append_other :
      (p : List Entry) (e : Entry)
      → is_entry r u e ≡ false
      → sockets_of r u (p ++ e ∷ []) ≡ sockets_of r u p
  append_other [] e miss = rw miss refl
  append_other (x ∷ p) e miss = elim (Bool-cases (is_entry r u x)) [
    | inl mine ↦ rw mine refl
    | inr skip ↦ rw skip (append_other p e miss)
  ]

  add_other :
      (p : List Entry) (me : PresenceUser)
      → me.user_id ≡ user
      → sockets_of r u (add_presence room me p) ≡ sockets_of r u p
  add_other p me e = elim (Option-cases (find_entry room me.user_id p)) [
    | inl missing ↦
        ap (sockets_of r u) (add_presence-new room me p missing)
        ∙ append_other p (record { room = room; user = me; sockets = 1 })
            (other_entry (record { room = room; user = me; sockets = 1 }) (is_entry_of me e))
    | inr (x, found) ↦
        ap (sockets_of r u) (add_presence-old room me p x found)
        ∙ ap (λ k. sockets_of r u (map (update_row (is_entry room k) (set_sockets (λ n. n + 1))) p))
            e
        ∙ map_other (set_sockets (λ n. n + 1)) p (λ k. refl)
  ]
    where
      is_entry_of :
          (me : PresenceUser)
          → me.user_id ≡ user
          → is_entry room user (record { room = room; user = me; sockets = 1 }) ≡ true
      is_entry_of me e = ground (arith, e)

  drop_other :
      (p : List Entry) (found : Option Entry)
      → sockets_of r u (drop_socket room user p found) ≡ sockets_of r u p
  unfolding drop_socket
  drop_other p none = refl
  drop_other p (some x) = elim (Bool-cases (leb (x.sockets - 1) 0)) [
    | inl last ↦ rw last (remove_other p)
    | inr more ↦ rw more (map_other (set_sockets (λ n. n - 1)) p (λ e. refl))
  ]

-- A cursor does not change who is counted.
map_cursor :
    (r : Room) (u : RowId) (q : Entry → Bool) (issue : Option RowId) (p : List Entry)
    → sockets_of r u (map (update_row q (set_cursor issue)) p) ≡ sockets_of r u p
map_cursor r u q issue [] = refl
map_cursor r u q issue (x ∷ p) = elim (Bool-cases (q x)) [
  | inl hit ↦ elim (Bool-cases (is_entry r u x)) [
    | inl mine ↦ rw (hit, mine) refl
    | inr miss ↦ rw (hit, miss) (map_cursor r u q issue p)
  ]
  | inr kept ↦ elim (Bool-cases (is_entry r u x)) [
    | inl mine ↦ rw (kept, mine) refl
    | inr miss ↦ rw (kept, miss) (map_cursor r u q issue p)
  ]
]

same_keys :
    (r : Room) (u : RowId) (room : Room) (user : RowId)
    → is_same r u room user ≡ true
    → (r ≡ room) × (u ≡ user)
same_keys r u room user h = (ground (arith, h), ground (arith, h))

is_same_refl : (r : Room) (u : RowId) → is_same r u r u ≡ true
is_same_refl r u = ground arith

pub add_presence-sockets :
    (r : Room) (u : RowId) (room : Room) (me : PresenceUser) (p : List Entry)
    → sockets_of r u (add_presence room me p)
      ≡ one_if (is_same r u room me.user_id) + sockets_of r u p
add_presence-sockets r u room me p = elim (Bool-cases (is_same r u room me.user_id)) [
  | inl same ↦
      let (e, f) = same_keys r u room me.user_id same in
      rw (e, f, is_same_refl room me.user_id) (add_presence-counts room me p ∙ omega arith)
  | inr other ↦ rw other (add_other r u room me.user_id other p me refl ∙ omega arith)
]

pub leave_presence-sockets :
    (r : Room) (u : RowId) (room : Room) (me : PresenceUser) (n : Node)
    → sockets_of r u (leave_presence room me.user_id n).presence
      ≡ sockets_of r u n.presence - one_if (is_same r u room me.user_id)
unfolding leave_presence
leave_presence-sockets r u room me n = elim (Bool-cases (is_same r u room me.user_id)) [
  | inl same ↦
      let (e, f) = same_keys r u room me.user_id same in
      rw (e, f, is_same_refl room me.user_id) (drop_socket-counts room me n.presence)
  | inr other ↦ rw other (
      drop_other r u room me.user_id other n.presence (find_entry room me.user_id n.presence)
      ∙ omega arith)
]

pub cursor_in-sockets :
    (r : Room) (u : RowId) (room : Room) (user : RowId) (issue : Option RowId) (n : Node)
    → sockets_of r u (cursor_in room user issue n).presence ≡ sockets_of r u n.presence
unfolding cursor_in
cursor_in-sockets r u room user issue n = map_cursor r u (is_entry room user) issue n.presence
