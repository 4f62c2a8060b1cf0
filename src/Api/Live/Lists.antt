-- ===== src/Api/Live/Lists.antt =====
-- Lists of rows under a patch that meets none of them, or meets them alike.
use ai_saas_multi_tenant.Base.{
  ◌≡◌, refl, ap, ◌∙◌, inl, inr, Bool, true, false, List, [], ◌∷◌, ◌++◌, map, arith, ◌==◌,
  Bool-cases, if◌then◌else◌,
}
use ai_saas_multi_tenant.Prisma.Rows.{In, update_row, remove, select}
use ai_saas_multi_tenant.Model.Data.{RowId, Issue}
use ai_saas_multi_tenant.Services.Issues.{selected}
use ai_saas_multi_tenant.Web.Cache.{has_id}

module _ {R : Type 0} (p : R → Bool) where
  pub map_untouched :
      (f : R → R) (xs : List R) → ((r : R) → In r xs → p r ≡ false) → map (update_row p f) xs ≡ xs
  map_untouched f [] miss = refl
  map_untouched f (x ∷ xs) miss =
      rw (miss x (inl refl)) (ap (λ ys. x ∷ ys) (map_untouched f xs (λ r m. miss r (inr m))))

  pub remove_untouched : (xs : List R) → ((r : R) → In r xs → p r ≡ false) → remove p xs ≡ xs
  remove_untouched [] miss = refl
  remove_untouched (x ∷ xs) miss =
      rw (miss x (inl refl)) (ap (λ ys. x ∷ ys) (remove_untouched xs (λ r m. miss r (inr m))))

  pub map_alike :
      (f g : R → R) (xs : List R)
      → ((r : R) → In r xs → p r ≡ true → f r ≡ g r)
      → map (update_row p f) xs ≡ map (update_row p g) xs
  map_alike f g [] same = refl
  map_alike f g (x ∷ xs) same = elim (Bool-cases (p x)) [
    | inl hit ↦ rw hit (
        ap (λ y. y ∷ map (update_row p f) xs) (same x (inl refl) hit)
        ∙ ap (λ ys. g x ∷ ys) (map_alike f g xs (λ r m. same r (inr m))))
    | inr miss ↦ rw miss (ap (λ ys. x ∷ ys) (map_alike f g xs (λ r m. same r (inr m))))
  ]

  pub select-append :
      (xs : List R) (r : R)
      → select p (xs ++ r ∷ []) ≡ (if p r then select p xs ++ r ∷ [] else select p xs)
  select-append [] r = refl
  select-append (x ∷ xs) r = elim (Bool-cases (p x)) [
    | inl hit ↦ elim (Bool-cases (p r)) [
      | inl last ↦ rw (hit, last) (ap (λ ys. x ∷ ys) (rw last at (select-append xs r)))
      | inr other ↦ rw (hit, other) (ap (λ ys. x ∷ ys) (rw other at (select-append xs r)))
    ]
    | inr miss ↦ elim (Bool-cases (p r)) [
      | inl last ↦ rw (miss, last) (rw last at (select-append xs r))
      | inr other ↦ rw (miss, other) (rw other at (select-append xs r))
    ]
  ]

pub has_id-false :
    (id : RowId) (is : List Issue)
    → ((i : Issue) → In i is → (i.id == id) ≡ false)
    → has_id id (map selected is) ≡ false
has_id-false id [] miss = refl
has_id-false id (i ∷ is) miss =
    ground (arith, miss i (inl refl), has_id-false id is (λ j m. miss j (inr m)))
