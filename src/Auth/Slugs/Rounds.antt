-- ===== src/Auth/Slugs/Rounds.antt =====
-- The rounds of the loop that looks for a free slug in `createOrgForUser`.
use ai_saas_multi_tenant.Base.{
  ℕ, zero, suc, ◌+◌, ◌-◌, ◌*◌, ◌/◌, ◌≤◌, ◌<◌, ◌≡◌, ◌≢◌, refl, sym, ap, ◌∙◌, ◌⊎◌, inl, inr, Bool,
  true, false, some, List, [], ◌∷◌, ◌++◌, ltb, arith, Text, Bool-cases, length, tail,
}
use Prim.Native.Nat.{◌%◌}
use native.Mathlib.Decide.{ℕ_discrete}
use mathlib.Core.Path.{subst}
use ai_saas_multi_tenant.Prisma.Rows.{In}
use ai_saas_multi_tenant.Auth.Slugs.{decimal_in, decimal, candidate, free_slug}

-- The number that a text of digits stands for, behind a number that is read already.
value_from : ℕ → Text → ℕ
value_from n [] = n
value_from n (c ∷ cs) = value_from (n * 10 + (c - 48)) cs

value_from-append : (n : ℕ) (s t : Text) → value_from n (s ++ t) ≡ value_from (value_from n s) t
unfolding value_from
value_from-append n [] t = refl
value_from-append n (c ∷ s) t = value_from-append (n * 10 + (c - 48)) s t

value-decimal_in : (fuel n : ℕ) → n < fuel → value_from 0 (decimal_in fuel n) ≡ n
unfolding decimal_in value_from
value-decimal_in zero n h = absurd (omega arith)
value-decimal_in (suc fuel) n h = elim (Bool-cases (ltb n 10)) [
  | inl small ↦ rw small (omega arith)
  | inr large ↦
      let front = value-decimal_in fuel (n / 10) (ground arith) in
      rw (large, value_from-append 0 (decimal_in fuel (n / 10)) ((48 + n % 10) ∷ []), front)
        (omega arith)
]

decimal-injective : (m n : ℕ) → decimal m ≡ decimal n → m ≡ n
unfolding decimal
decimal-injective m n e =
    sym (value-decimal_in (suc m) m (omega arith))
    ∙ ap (value_from 0) e
    ∙ value-decimal_in (suc n) n (omega arith)

append_cancel : (s t u : Text) → s ++ t ≡ s ++ u → t ≡ u
append_cancel [] t u e = e
append_cancel (c ∷ s) t u e = append_cancel s t u (ap tail e)

append_longer : (s t : Text) (c : ℕ) → s ≢ s ++ c ∷ t
append_longer [] t c e = cc
append_longer (d ∷ s) t c e = append_longer s t c (ap tail e)

pub candidate-injective : (base : Text) (i j : ℕ) → candidate base i ≡ candidate base j → i ≡ j
unfolding candidate
candidate-injective base zero zero e = refl
candidate-injective base zero (suc j) e = absurd (append_longer base (decimal (suc j)) _ e)
candidate-injective base (suc i) zero e = absurd (append_longer base (decimal (suc i)) _ (sym e))
candidate-injective base (suc i) (suc j) e =
    decimal-injective (suc i) (suc j) (ap tail (append_cancel base _ _ e))

-- The loop ends at a round whose candidate is free, or every round in its fuel found it taken.
pub free_slug_cases :
    (taken : Text → Bool) (base : Text) (fuel i : ℕ)
    → ((j : ℕ) × (free_slug taken base fuel i ≡ some (candidate base j))
        × (taken (candidate base j) ≡ false))
      ⊎ ((j : ℕ) → i ≤ j → j < i + fuel → taken (candidate base j) ≡ true)
unfolding free_slug
free_slug_cases taken base zero i = inr (λ j low high. absurd (omega arith))
free_slug_cases taken base (suc fuel) i = elim (Bool-cases (taken (candidate base i))) [
  | inr unused ↦ inl (i, rw unused, unused)
  | inl hit ↦ elim (free_slug_cases taken base fuel (suc i)) [
    | inl (j, e, unused) ↦ inl (j, rw hit e, unused)
    | inr all ↦ inr (λ j low high. first_or j low high all hit)
  ]
]
  where
    first_or :
        (j : ℕ)
        → i ≤ j
        → j < i + suc fuel
        → ((k : ℕ) → suc i ≤ k → k < suc i + fuel → taken (candidate base k) ≡ true)
        → taken (candidate base i) ≡ true
        → taken (candidate base j) ≡ true
    first_or j low high all hit = elim (ℕ_discrete i j) [
      | yes same ↦ subst (λ k. taken (candidate base k) ≡ true) same hit
      | no other ↦ all j (omega arith) (omega arith)
    ]

module _ {R : Type 0} where
  drop_at : (xs : List R) (r : R) → In r xs → List R
  drop_at (x ∷ xs) r (inl e) = xs
  drop_at (x ∷ xs) r (inr m) = x ∷ drop_at xs r m
  drop_at [] r m = []

  length-drop_at : (xs : List R) (r : R) (m : In r xs) → length xs ≡ suc (length (drop_at xs r m))
  unfolding drop_at
  length-drop_at (x ∷ xs) r (inl e) = refl
  length-drop_at (x ∷ xs) r (inr m) = ap suc (length-drop_at xs r m)
  length-drop_at [] r m = absurd m

  In-drop_at : (xs : List R) (r s : R) (m : In r xs) → In s xs → s ≢ r → In s (drop_at xs r m)
  unfolding drop_at
  In-drop_at (x ∷ xs) r s (inl e) (inl f) other = absurd (other (f ∙ sym e))
  In-drop_at (x ∷ xs) r s (inl e) (inr n) other = n
  In-drop_at (x ∷ xs) r s (inr m) (inl f) other = inl f
  In-drop_at (x ∷ xs) r s (inr m) (inr n) other = inr (In-drop_at xs r s m n other)
  In-drop_at [] r s m n other = absurd m

  -- So many different names, each of a row, are no more than the rows.
  pub no_more_names :
      (name : R → Text) (base : Text) (count i : ℕ) (xs : List R)
      → ((j : ℕ) → i ≤ j → j < i + count → (r : R) × In r xs × (name r ≡ candidate base j))
      → count ≤ length xs
  no_more_names name base zero i xs named = omega arith
  no_more_names name base (suc count) i xs named =
      let (r, m, e) = named i (omega arith) (omega arith) in
      let others : (j : ℕ)
          → suc i ≤ j
          → j < suc i + count
          → (s : R) × In s (drop_at xs r m) × (name s ≡ candidate base j) =
        λ j low high.
          let (s, n, f) = named j (omega arith) (omega arith) in
          (
            s,
            In-drop_at xs r s m n (λ same.
                omega (arith, candidate-injective base i j (sym e ∙ ap name (sym same) ∙ f), low)),
            f,
          ) in
      let rest = no_more_names name base count (suc i) (drop_at xs r m) others in
      omega (arith, length-drop_at xs r m, rest)
