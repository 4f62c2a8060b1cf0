-- ===== src/Api/Live/Orders.antt =====
-- The handlers of apps/web/lib/use-board-realtime.ts on caches that differ in the order of their cards.
use ai_saas_multi_tenant.Base.{
  ◌≡◌, refl, sym, ap, ◌∙◌, inl, inr, Bool, ◌||◌, List, [], ◌∷◌, ◌==◌, arith, Bool-cases,
  if◌then◌else◌,
}
use mathlib.Core.List.{Perm, Permᴰ}
use mathlib.Core.List.Permᴰ
use mathlib.Core.Logic.{∥∥₁_map}
use ai_saas_multi_tenant.Prisma.Rows.{update_row, remove}
use ai_saas_multi_tenant.Model.Data.{RowId, IssueRow, BoardEvent, Emission}
use ai_saas_multi_tenant.Web.Cache.{has_id, place_row, apply_event}
use ai_saas_multi_tenant.Api.Live.{in_room, apply_all}

kept_or_not :
    {R : Type 0} (p : R → Bool) {x y : R} {xs ys : List R}
    → x ≡ y
    → Permᴰ xs ys
    → Permᴰ (if p x then xs else x ∷ xs) (if p y then ys else y ∷ ys)
kept_or_not p {x} {y} e d = elim (Bool-cases (p x)) [
  | inl hit ↦ rw (hit, sym (ap p e) ∙ hit) d
  | inr miss ↦ rw (miss, sym (ap p e) ∙ miss) (Permᴰ.cons e d)
]

remove-append_two :
    {R : Type 0} (p : R → Bool) (x y : R) (xs : List R)
    → Permᴰ (remove p (x ∷ y ∷ xs)) (remove p (y ∷ x ∷ xs))
remove-append_two p x y xs = elim (Bool-cases (p x)) [
  | inl a ↦ elim (Bool-cases (p y)) [
    | inl b ↦ rw (a, b) (Permᴰ.refl (remove p xs))
    | inr b ↦ rw (a, b) (Permᴰ.refl (y ∷ remove p xs))
  ]
  | inr a ↦ elim (Bool-cases (p y)) [
    | inl b ↦ rw (a, b) (Permᴰ.refl (x ∷ remove p xs))
    | inr b ↦ rw (a, b) (Permᴰ.swap refl refl)
  ]
]

remove-Permᴰ :
    {R : Type 0} (p : R → Bool) {xs ys : List R} → Permᴰ xs ys → Permᴰ (remove p xs) (remove p ys)
remove-Permᴰ p Permᴰ.nil = Permᴰ.nil
remove-Permᴰ p (Permᴰ.cons e d) = kept_or_not p e (remove-Permᴰ p d)
remove-Permᴰ p (Permᴰ.swap {a} {b} {a'} {b'} {l} e f) =
    Permᴰ.trans (remove-append_two p a b l)
      (kept_or_not p f (kept_or_not p e (Permᴰ.refl (remove p l))))
remove-Permᴰ p (Permᴰ.trans d d') = Permᴰ.trans (remove-Permᴰ p d) (remove-Permᴰ p d')

has_id-Permᴰ : (id : RowId) {xs ys : List IssueRow} → Permᴰ xs ys → has_id id xs ≡ has_id id ys
has_id-Permᴰ id Permᴰ.nil = refl
has_id-Permᴰ id (Permᴰ.cons e d) = λ i. (e i).id == id || has_id-Permᴰ id d i
has_id-Permᴰ id (Permᴰ.swap {a} {b} {a'} {b'} {l} e f) =
    turned (a.id == id) (b.id == id) (has_id id l)
    ∙ (λ i. (f i).id == id || ((e i).id == id || has_id id l))
  where
    turned : (p q r : Bool) → (p || (q || r)) ≡ (q || (p || r))
    turned p q r = ground arith
has_id-Permᴰ id (Permᴰ.trans d d') = has_id-Permᴰ id d ∙ has_id-Permᴰ id d'

apply_event-Permᴰ :
    (event : BoardEvent) {xs ys : List IssueRow}
    → Permᴰ xs ys
    → Permᴰ (apply_event event xs) (apply_event event ys)
unfolding apply_event
apply_event-Permᴰ (BoardEvent.created r) {xs} {ys} d = elim (Bool-cases (has_id r.id xs)) [
  | inl known ↦ rw (known, sym (has_id-Permᴰ r.id d) ∙ known) d
  | inr new ↦ rw (new, sym (has_id-Permᴰ r.id d) ∙ new) (Permᴰ.append_right (r ∷ []) d)
]
apply_event-Permᴰ (BoardEvent.updated r) d = Permᴰ.map (update_row (λ i. i.id == r.id) (λ _. r)) d
apply_event-Permᴰ (BoardEvent.moved id status rank) d =
    Permᴰ.map (update_row (λ i. i.id == id) (place_row status rank)) d
apply_event-Permᴰ (BoardEvent.deleted id) d = remove-Permᴰ (λ i. i.id == id) d

apply_all-Permᴰ :
    (org project : RowId) (es : List Emission) {xs ys : List IssueRow}
    → Permᴰ xs ys
    → Permᴰ (apply_all org project es xs) (apply_all org project es ys)
unfolding apply_all
apply_all-Permᴰ org project [] d = d
apply_all-Permᴰ org project (e ∷ es) d = elim (Bool-cases (in_room org project e)) [
  | inl inside ↦ rw inside (apply_all-Permᴰ org project es (apply_event-Permᴰ e.event d))
  | inr outside ↦ rw outside (apply_all-Permᴰ org project es d)
]

-- Caches with the same cards, each as often, have so after the same events.
pub apply_all-Perm :
    (org project : RowId) (es : List Emission) {xs ys : List IssueRow}
    → Perm xs ys
    → Perm (apply_all org project es xs) (apply_all org project es ys)
apply_all-Perm org project es {xs} {ys} p =
    ∥∥₁_map {B = Permᴰ (apply_all org project es xs) (apply_all org project es ys)} p
      (apply_all-Permᴰ org project es)
