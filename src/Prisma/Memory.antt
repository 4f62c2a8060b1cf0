-- ===== src/Prisma/Memory.antt =====
-- Tables that are lists of rows, as an instance of the client's interface.
use ai_saas_multi_tenant.Base.{
  ◌≡◌, refl, inl, inr, Bool, true, false, Option, none, some, List, [], ◌∷◌, ◌++◌, map, arith,
  if◌then◌else◌, All, Bool-cases, Option-cases, Text, text_ltb, sym,
}
use mathlib.Core.Path.{subst}
use ai_saas_multi_tenant.Prisma.{Prisma}
use ai_saas_multi_tenant.Prisma.Rows.{In, update_row, remove, All-weaken}

text_ltb_irrefl : (a : Text) → text_ltb a a ≡ false
text_ltb_irrefl [] = refl
text_ltb_irrefl (x ∷ a) = ground (arith, text_ltb_irrefl a)

text_ge_trans : (a b c : Text) → text_ltb a b ≡ false → text_ltb b c ≡ false → text_ltb a c ≡ false
text_ge_trans a b [] h k = ge_nil a
  where
    ge_nil : (t : Text) → text_ltb t [] ≡ false
    ge_nil [] = refl
    ge_nil (x ∷ t) = refl
text_ge_trans a [] (z ∷ c) h k = cc
text_ge_trans [] (y ∷ b) (z ∷ c) h k = cc
text_ge_trans (x ∷ a) (y ∷ b) (z ∷ c) h k = ground (arith, text_ge_trans a b c)

text_lt_asymm : (a b : Text) → text_ltb a b ≡ true → text_ltb b a ≡ false
text_lt_asymm [] [] h = cc
text_lt_asymm [] (y ∷ b) h = refl
text_lt_asymm (x ∷ a) [] h = cc
text_lt_asymm (x ∷ a) (y ∷ b) h = ground (arith, text_lt_asymm a b)

some_is_not_none : {A : Type 0} (a : A) → some a ≡ none → ⊥
some_is_not_none a e = cc

module _ {R : Type 0} where
  abbrev pub first : (R → Bool) → List R → Option R
  first p [] = none
  first p (x ∷ xs) = if p x then some x else first p xs

  abbrev pub better : (R → Text) → R → Option R → Option R
  better column x none = some x
  better column x (some y) = if text_ltb (column x) (column y) then some y else some x

  abbrev pub greatest : (R → Text) → (R → Bool) → List R → Option R
  greatest column p [] = none
  greatest column p (x ∷ xs) =
      let rest = greatest column p xs in if p x then better column x rest else rest

  here_or_later :
      (p : R → Bool) (x r : R) (xs : List R) → In r xs × (p r ≡ true) → In r (x ∷ xs) × (p r ≡ true)
  here_or_later p x r xs (m, q) = (inr m, q)

  pub first-some :
      (p : R → Bool) (xs : List R) (r : R) → first p xs ≡ some r → In r xs × (p r ≡ true)
  first-some p [] r e = cc
  first-some p (x ∷ xs) r e = elim (Bool-cases (p x)) [
    | inl h ↦ let same : x ≡ r = ground arith in (inl (sym same), subst (λ y. p y ≡ true) same h)
    | inr h ↦ here_or_later p x r xs (first-some p xs r (rw h at e))
  ]

  pub first-none : (p : R → Bool) (xs : List R) → first p xs ≡ none → All (λ r. p r ≡ false) xs
  first-none p [] e = tt
  first-none p (x ∷ xs) e = elim (Bool-cases (p x)) [
    | inl h ↦ absurd (some_is_not_none x (rw h at e))
    | inr h ↦ (h, first-none p xs (rw h at e))
  ]

  pub greatest-none :
      (column : R → Text) (p : R → Bool) (xs : List R)
      → greatest column p xs ≡ none
      → All (λ r. p r ≡ false) xs
  greatest-none column p [] e = tt
  greatest-none column p (x ∷ xs) e = elim (Bool-cases (p x)) [
    | inl h ↦ absurd (some_found (greatest column p xs) (rw h at e))
    | inr h ↦ (h, greatest-none column p xs (rw h at e))
  ]
    where
      some_found : (o : Option R) → better column x o ≡ none → ⊥
      some_found none e' = cc
      some_found (some y) e' = ground arith

  abbrev pub IsGreatest : (R → Text) → (R → Bool) → List R → R → Type 0
  IsGreatest column p xs r =
      In r xs × (p r ≡ true) × All (λ s. p s ≡ true → text_ltb (column r) (column s) ≡ false) xs

  pub greatest-some :
      (column : R → Text) (p : R → Bool) (xs : List R) (r : R)
      → greatest column p xs ≡ some r
      → IsGreatest column p xs r
  greatest-some column p [] r e = cc
  greatest-some column p (x ∷ xs) r e = elim (Bool-cases (p x)) [
    | inr h ↦
        let (m, q, above) = greatest-some column p xs r (rw h at e) in
        (inr m, q, (λ k. absurd (ground arith), above))
    | inl h ↦ elim (Option-cases (greatest column p xs)) [
      | inl empty ↦
          let same : x ≡ r = ground arith in
          let others = greatest-none column p xs empty in
          subst (IsGreatest column p (x ∷ xs)) same (
            inl refl,
            h,
            (
              λ k. text_ltb_irrefl (column x),
              All-weaken _ _ xs (λ s no k. absurd (ground arith)) others,
            ),
          )
      | inr (y, found) ↦
          let (m, q, above) = greatest-some column p xs y found in
          elim (Bool-cases (text_ltb (column x) (column y))) [
            | inl lower ↦
                let same : y ≡ r = ground arith in
                subst (IsGreatest column p (x ∷ xs)) same
                  (inr m, q, (λ k. text_lt_asymm (column x) (column y) lower, above))
            | inr upper ↦
                let same : x ≡ r = ground arith in
                subst (IsGreatest column p (x ∷ xs)) same (
                  inl refl,
                  h,
                  (
                    λ k. text_ltb_irrefl (column x),
                    All-weaken _ _ xs
                        (λ s ge k. text_ge_trans (column x) (column y) (column s) upper (ge k))
                        above,
                  ),
                )
          ]
    ]
  ]

abbrev pub memory : Prisma
memory = record {
  Table = List;
  rows = λ t. t;
  find_first = first;
  collate = text_ltb;
  find_greatest = greatest;
  create = λ r t. t ++ r ∷ [];
  update_many = λ p f t. map (update_row p f) t;
  delete_many = remove;
  find_first-some = λ p t e. first-some p t _ e;
  find_first-none = first-none;
  find_greatest-some = λ column p t e. greatest-some column p t _ e;
  find_greatest-none = greatest-none;
  rows-create = λ r t. refl;
  rows-update_many = λ p f t. refl;
  rows-delete_many = λ p t. refl;
}
