-- ===== src/Web/Observer/Rosters.antt =====
-- The presence list of a tab beside the entries of its room, under one join, leave or cursor.
use ai_saas_multi_tenant.Base.{
  ◌+◌, ◌-◌, ◌≡◌, refl, sym, ap, ◌∙◌, inl, inr, true, not, ◌&&◌, ◌||◌, Option, none, some, List, [],
  ◌∷◌, ◌++◌, append_assoc, append-nil, leb, arith, ◌==◌, Bool-cases, Option-cases,
}
use mathlib.Core.Path.{subst}
use ai_saas_multi_tenant.Prisma.Rows.{update_row, remove}
use ai_saas_multi_tenant.Model.Data.{RowId}
use ai_saas_multi_tenant.Realtime.{
  Room, same_room, PresenceUser, Entry, is_entry, find_entry, SocketData, Outgoing, sync, join,
  leave, Node, set_sockets, set_cursor, room_presence, add_presence, drop_socket, leave_presence,
  enter_room, moved_cursor, cursor_in,
}
use ai_saas_multi_tenant.Web.Observer.{
  on_presence, on_all, shows, has_user, is_present, shows-append, shows-remove, is_present-append,
  is_present-map, is_present-remove,
}

module _ (room : Room) where
  -- The tab shows who has an entry in the room.
  abbrev pub IsShown : List PresenceUser → List Entry → Type 0
  IsShown shown p = (user : RowId) → shows user shown ≡ is_present room user p

  -- What is sent between two states keeps it so.
  abbrev pub IsObserved : Node → Node → Type 0
  IsObserved n n' =
      (out : List Outgoing) × (n'.sent ≡ n.sent ++ out)
      × ((shown : List PresenceUser)
          → IsShown shown n.presence
          → IsShown (on_all room out shown) n'.presence)

  pub same-IsObserved : (n : Node) → IsObserved n n
  unfolding on_all
  same-IsObserved n = ([], sym (append-nil n.sent), λ shown h. h)

  on_all-append :
      (ms ks : List Outgoing) (shown : List PresenceUser)
      → on_all room (ms ++ ks) shown ≡ on_all room ks (on_all room ms shown)
  unfolding on_all
  on_all-append [] ks shown = refl
  on_all-append (m ∷ ms) ks shown = on_all-append ms ks (on_presence room m shown)

  pub IsObserved-trans : (l m n : Node) → IsObserved l m → IsObserved m n → IsObserved l n
  IsObserved-trans l m n (ms, sent, kept) (ks, sent', kept') = (
    ms ++ ks,
    sent' ∙ ap (λ o. o ++ ks) sent ∙ append_assoc l.sent ms ks,
    λ shown h.
        subst (λ s. IsShown s n.presence) (sym (on_all-append ms ks shown))
          (kept' (on_all room ms shown) (kept shown h)),
  )

  -- The same user in the same room.
  present_alike :
      (r : Room) (user gone : RowId) (es : List Entry)
      → (same_room r room && gone == user) ≡ true
      → is_present room user es ≡ is_present r gone es
  present_alike r user gone [] same = refl
  present_alike r user gone (e ∷ es) same =
      let here : is_entry room user e ≡ is_entry r gone e = ground (arith, same) in
      ground (arith, here, present_alike r user gone es same)

  is_present-add :
      (r : Room) (u : PresenceUser) (user : RowId) (p : List Entry)
      → is_present room user (add_presence r u p)
        ≡ (is_present room user p || (same_room r room && u.user_id == user))
  unfolding add_presence
  is_present-add r u user p = elim (Option-cases (find_entry r u.user_id p)) [
    | inl new ↦
        rw (new, add_presence)
          (is_present-append room user p (record { room = r; user = u; sockets = 1 }))
    | inr (e, known) ↦
        rw (known, add_presence)
          (is_present-map room user (update_row (is_entry r u.user_id) (set_sockets (λ n. n + 1))) p
              (λ d. ground arith)
            ∙ elim (Bool-cases (same_room r room && u.user_id == user)) [
              | inl same ↦ ground (arith, same, known, present_alike r user u.user_id p same)
              | inr other ↦ ground (arith, other)
            ])
  ]

  joined-shows :
      (r : Room) (u : PresenceUser) (user : RowId) (shown : List PresenceUser)
      → shows user (on_presence room (join r u) shown)
        ≡ (shows user shown || (same_room r room && u.user_id == user))
  unfolding on_presence
  joined-shows r u user shown = elim (Bool-cases (same_room r room)) [
    | inl same ↦ rw same (
        shows-append user (remove (has_user u.user_id) shown) u
        ∙ ground (arith, shows-remove user u.user_id shown))
    | inr other ↦ ground (arith, other)
  ]

  pub enter_room-IsObserved : (r : Room) (s : SocketData × Node) → IsObserved s.1 (enter_room r s).1
  unfolding enter_room on_all on_presence
  enter_room-IsObserved r (client, n) = (
    sync (room_presence r (add_presence r client.user n.presence)) ∷ join r client.user ∷ [],
    refl,
    λ shown h user.
        joined-shows r client.user user shown
        ∙ ap (λ b. b || (same_room r room && client.user.user_id == user)) (h user)
        ∙ sym (is_present-add r client.user user n.presence),
  )

  left-shows :
      (r : Room) (user who : RowId) (shown : List PresenceUser)
      → shows who (on_presence room (leave r user) shown)
        ≡ (shows who shown && not (same_room r room && user == who))
  unfolding on_presence
  left-shows r user who shown = elim (Bool-cases (same_room r room)) [
    | inl same ↦ rw same (shows-remove who user shown)
    | inr other ↦ ground (arith, other)
  ]

  -- A leaving user is hidden where the node drops the entry, and else nothing is sent.
  pub leave_presence-IsObserved :
      (r : Room) (user : RowId) (n : Node) → IsObserved n (leave_presence r user n)
  unfolding leave_presence drop_socket on_all
  leave_presence-IsObserved r user n = elim (Option-cases (find_entry r user n.presence)) [
    | inl absent ↦ (
      [],
      ground (arith, absent, append-nil n.sent),
      λ shown h who. h who ∙ ap (is_present room who) (ground (arith, absent)),
    )
    | inr (e, known) ↦ elim (Bool-cases (leb (e.sockets - 1) 0)) [
      | inl last ↦ (
        leave r user ∷ [],
        ground (arith, known, last),
        λ shown h who.
            left-shows r user who shown
            ∙ ap (λ b. b && not (same_room r room && user == who)) (h who)
            ∙ sym (is_present-remove room who r user n.presence)
            ∙ ap (is_present room who) (ground (arith, known, last)),
      )
      | inr others ↦ (
        [],
        ground (arith, known, others, append-nil n.sent),
        λ shown h who.
            h who
            ∙ sym (
                is_present-map room who (update_row (is_entry r user) (set_sockets (λ n. n - 1)))
                  n.presence (λ d. ground arith))
            ∙ ap (is_present room who) (ground (arith, known, others)),
      )
    ]
  ]

  -- An entry is found under its own key.
  find_entry-user :
      (r : Room) (user : RowId) (es : List Entry) (e : Entry)
      → find_entry r user es ≡ some e
      → e.user.user_id ≡ user
  find_entry-user r user [] e found = cc
  find_entry-user r user (d ∷ es) e found = elim (Bool-cases (is_entry r user d)) [
    | inl hit ↦
        let same : d ≡ e = ground (arith, hit, found) in
        subst (λ (x : Entry). x.user.user_id ≡ user) same (ground (arith, hit))
    | inr miss ↦ find_entry-user r user es e (ground (arith, miss, found))
  ]

  present_already :
      (r : Room) (user who : RowId) (es : List Entry) (e : Entry)
      → find_entry r user es ≡ some e
      → (is_present room who es || (same_room r room && user == who)) ≡ is_present room who es
  present_already r user who es e found = elim (Bool-cases (same_room r room && user == who)) [
    | inl same ↦ ground (arith, same, found, present_alike r who user es same)
    | inr other ↦ ground (arith, other)
  ]

  pub cursor_in-IsObserved :
      (r : Room) (user : RowId) (issue : Option RowId) (n : Node)
      → IsObserved n (cursor_in r user issue n)
  unfolding cursor_in on_all
  cursor_in-IsObserved r user issue n = (
    moved_cursor r issue (find_entry r user n.presence),
    refl,
    λ shown h who.
        by_entry (find_entry r user n.presence) refl shown h who
        ∙ sym (
            is_present-map room who (update_row (is_entry r user) (set_cursor issue)) n.presence
              (λ d. ground arith)),
  )
    where
      by_entry :
          (o : Option Entry)
          → find_entry r user n.presence ≡ o
          → (shown : List PresenceUser) → IsShown shown n.presence
          → (who : RowId)
          → shows who (on_all room (moved_cursor r issue o) shown) ≡ is_present room who n.presence
      by_entry none e shown h who = h who
      by_entry (some d) e shown h who =
          joined-shows r (set_cursor issue d).user who shown
          ∙ ap (λ b. b || (same_room r room && d.user.user_id == who)) (h who)
          ∙ ap (λ u. is_present room who n.presence || (same_room r room && u == who))
              (find_entry-user r user n.presence d e)
          ∙ present_already r user who n.presence d e
