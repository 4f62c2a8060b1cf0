-- ===== src/Realtime/Rooms.antt =====
-- The set of rooms of a socket in realtime.gateway.ts.
use ai_saas_multi_tenant.Base.{
  ◌+◌, ◌≤◌, ◌≡◌, refl, ap, ◌∙◌, inl, inr, Bool, true, false, ◌&&◌, ◌||◌, List, [], ◌∷◌, ◌++◌, arith,
  ◌==◌, All, Bool-cases,
}
use ai_saas_multi_tenant.Prisma.Rows.{All-weaken, remove, select}
use ai_saas_multi_tenant.Model.Data.{RowId}
use ai_saas_multi_tenant.Realtime.{Room, same_room, has_room, add_room}
use ai_saas_multi_tenant.Realtime.Counts.{is_same, one_if}

-- The rooms of a socket are a set.
abbrev pub DistinctRooms : List Room → Type 0
DistinctRooms [] = Unit
DistinctRooms (r ∷ rs) = (has_room r rs ≡ false) × DistinctRooms rs

-- The rooms of the first list are in the second.
abbrev pub AllIn : List Room → List Room → Type 0
AllIn rooms of = All (λ r. has_room r of ≡ true) rooms

has_room-remove_other :
    (r room : Room) (rs : List Room)
    → same_room room r ≡ false
    → has_room r (remove (λ s. same_room s room) rs) ≡ has_room r rs
has_room-remove_other r room [] other = refl
has_room-remove_other r room (s ∷ rs) other = elim (Bool-cases (same_room s room)) [
  | inl hit ↦
      let miss : same_room s r ≡ false = ground (arith, hit, other) in
      rw (hit, miss) (has_room-remove_other r room rs other)
  | inr kept ↦ rw kept (ap (λ b. same_room s r || b) (has_room-remove_other r room rs other))
]

has_room-remove :
    (room : Room) (rs : List Room) → has_room room (remove (λ s. same_room s room) rs) ≡ false
has_room-remove room [] = refl
has_room-remove room (s ∷ rs) = elim (Bool-cases (same_room s room)) [
  | inl hit ↦ rw hit (has_room-remove room rs)
  | inr kept ↦ rw (kept, kept) (has_room-remove room rs)
]

-- A room that is in no list that lacks it stays out when another room is removed.
pub remove-DistinctRooms :
    (room : Room) (rs : List Room)
    → DistinctRooms rs
    → DistinctRooms (remove (λ s. same_room s room) rs)
remove-DistinctRooms room [] d = tt
remove-DistinctRooms room (s ∷ rs) d = elim (Bool-cases (same_room s room)) [
  | inl hit ↦ rw hit (remove-DistinctRooms room rs d.1)
  | inr kept ↦ rw kept (
    has_room-remove_other s room rs (ground (arith, kept)) ∙ d.0,
    remove-DistinctRooms room rs d.1,
  )
]

has_room-append :
    (r room : Room) (rs : List Room)
    → has_room r (rs ++ room ∷ []) ≡ (has_room r rs || same_room room r)
has_room-append r room [] = ground arith
has_room-append r room (s ∷ rs) = elim (Bool-cases (same_room s r)) [
  | inl hit ↦ rw hit refl
  | inr miss ↦ rw miss (has_room-append r room rs)
]

append-DistinctRooms :
    (room : Room) (rs : List Room)
    → has_room room rs ≡ false
    → DistinctRooms rs
    → DistinctRooms (rs ++ room ∷ [])
append-DistinctRooms room [] out d = (refl, tt)
append-DistinctRooms room (s ∷ rs) out d = elim (Bool-cases (same_room s room)) [
  | inl hit ↦ absurd (ground (arith, hit, out))
  | inr miss ↦
      let other : same_room room s ≡ false = ground (arith, miss) in
      (
        has_room-append s room rs ∙ ground (arith, d.0, other),
        append-DistinctRooms room rs (rw miss at out) d.1,
      )
]

pub add_room-DistinctRooms :
    (room : Room) (rs : List Room) → DistinctRooms rs → DistinctRooms (add_room room rs)
add_room-DistinctRooms room rs d = elim (Bool-cases (has_room room rs)) [
  | inl there ↦ rw there d
  | inr out ↦ rw out (append-DistinctRooms room rs out d)
]

pub has_room-add_room :
    (r : Room) (u : RowId) (room : Room) (me : RowId) (rs : List Room)
    → one_if (has_room r (add_room room rs) && me == u)
      ≤ one_if (is_same r u room me) + one_if (has_room r rs && me == u)
has_room-add_room r u room me rs = elim (Bool-cases (has_room room rs)) [
  | inl there ↦ rw there (omega arith)
  | inr out ↦
      rw (out, has_room-append r room rs) (bound (has_room r rs) (same_room room r) (me == u))
]
  where
    bound : (a b c : Bool) → one_if ((a || b) && c) ≤ one_if (b && c) + one_if (a && c)
    bound a b c = ground arith

pub has_room-left :
    (r : Room) (u : RowId) (room : Room) (me : RowId) (rs : List Room)
    → has_room room rs ≡ true
    → one_if (has_room r (remove (λ s. same_room s room) rs) && me == u)
        + one_if (is_same r u room me)
      ≤ one_if (has_room r rs && me == u)
has_room-left r u room me rs there = elim (Bool-cases (same_room room r)) [
  | inl hit ↦
      let e : r ≡ room = ground (arith, hit) in
      rw (e, has_room-remove room rs, there) (ground arith)
  | inr miss ↦ rw (has_room-remove_other r room rs miss, miss) (omega arith)
]

-- Rooms that are in a list stay in it when one that is not among them is removed.
pub AllIn-remove :
    (room : Room) (rooms of : List Room)
    → has_room room rooms ≡ false
    → AllIn rooms of
    → AllIn rooms (remove (λ s. same_room s room) of)
AllIn-remove room [] of out all = tt
AllIn-remove room (s ∷ rooms) of out all = elim (Bool-cases (same_room s room)) [
  | inl hit ↦ absurd (ground (arith, hit, out))
  | inr miss ↦ (
    has_room-remove_other s room of (ground (arith, miss)) ∙ all.0,
    AllIn-remove room rooms of (rw miss at out) all.1,
  )
]

AllIn-cons : (s : Room) (rooms of : List Room) → AllIn rooms of → AllIn rooms (s ∷ of)
AllIn-cons s rooms of all =
    All-weaken (λ r. has_room r of ≡ true) (λ r. has_room r (s ∷ of) ≡ true) rooms
      (λ r e. ground (arith, e)) all

pub AllIn-refl : (rooms : List Room) → AllIn rooms rooms
AllIn-refl [] = tt
AllIn-refl (s ∷ rooms) = (ground arith, AllIn-cons s rooms rooms (AllIn-refl rooms))

pub select-AllIn : (p : Room → Bool) (rooms : List Room) → AllIn (select p rooms) rooms
select-AllIn p [] = tt
select-AllIn p (s ∷ rooms) = elim (Bool-cases (p s)) [
  | inl hit ↦ rw hit (ground arith, AllIn-cons s (select p rooms) rooms (select-AllIn p rooms))
  | inr miss ↦ rw miss (AllIn-cons s (select p rooms) rooms (select-AllIn p rooms))
]

has_room-select :
    (p : Room → Bool) (r : Room) (rooms : List Room)
    → has_room r rooms ≡ false
    → has_room r (select p rooms) ≡ false
has_room-select p r [] out = refl
has_room-select p r (s ∷ rooms) out =
    let miss : same_room s r ≡ false = ground (arith, out) in
    let rest = has_room-select p r rooms (rw miss at out) in
    elim (Bool-cases (p s)) [ inl hit ↦ rw (hit, miss) rest | inr skip ↦ rw skip rest ]

pub select-DistinctRooms :
    (p : Room → Bool) (rooms : List Room) → DistinctRooms rooms → DistinctRooms (select p rooms)
select-DistinctRooms p [] d = tt
select-DistinctRooms p (s ∷ rooms) d = elim (Bool-cases (p s)) [
  | inl hit ↦ rw hit (has_room-select p s rooms d.0, select-DistinctRooms p rooms d.1)
  | inr miss ↦ rw miss (select-DistinctRooms p rooms d.1)
]
