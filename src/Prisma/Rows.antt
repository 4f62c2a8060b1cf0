-- ===== src/Prisma/Rows.antt =====
-- Lists of rows: membership, and what survives an update, an insertion or a deletion.
use ai_saas_multi_tenant.Base.{
  ◌≡◌, refl, ◌⊎◌, inl, inr, Bool, true, false, List, [], ◌∷◌, ◌++◌, map, if◌then◌else◌, All,
  Bool-cases, sym,
}
use mathlib.Core.Path.{subst}

module _ {R : Type 0} where
  abbrev pub In : R → List R → Type 0
  In r [] = ⊥
  In r (x ∷ xs) = (r ≡ x) ⊎ In r xs

  -- The columns that `data` sets, in the rows that `where` selects.
  abbrev pub update_row : (R → Bool) → (R → R) → R → R
  update_row p f r = if p r then f r else r

  abbrev pub remove : (R → Bool) → List R → List R
  remove p [] = []
  remove p (x ∷ xs) = let rest = remove p xs in if p x then rest else x ∷ rest

  -- `findMany` with a `where`, in the order of creation
  abbrev pub select : (R → Bool) → List R → List R
  select p [] = []
  select p (x ∷ xs) = let rest = select p xs in if p x then x ∷ rest else rest

  pub All_lookup : (P : R → Type 0) (xs : List R) {r : R} → All P xs → In r xs → P r
  All_lookup P (x ∷ xs) h (inl e) = subst P (sym e) h.0
  All_lookup P (x ∷ xs) h (inr m) = All_lookup P xs h.1 m
  All_lookup P [] h m = absurd m

  pub All-map :
      (P Q : R → Type 0) (f : R → R) (xs : List R)
      → ((r : R) → P r → Q (f r))
      → All P xs
      → All Q (map f xs)
  All-map P Q f [] g h = tt
  All-map P Q f (x ∷ xs) g h = (g x h.0, All-map P Q f xs g h.1)

  pub All-weaken : (P Q : R → Type 0) (xs : List R) → ((r : R) → P r → Q r) → All P xs → All Q xs
  All-weaken P Q [] g h = tt
  All-weaken P Q (x ∷ xs) g h = (g x h.0, All-weaken P Q xs g h.1)

  -- The same, where the step may use that the row is one of the list.
  pub All-map_in :
      (Q : R → Type 0) (f : R → R) (xs : List R) → ((r : R) → In r xs → Q (f r)) → All Q (map f xs)
  All-map_in Q f [] g = tt
  All-map_in Q f (x ∷ xs) g = (g x (inl refl), All-map_in Q f xs (λ r m. g r (inr m)))

  pub All-in : (Q : R → Type 0) (xs : List R) → ((r : R) → In r xs → Q r) → All Q xs
  All-in Q [] g = tt
  All-in Q (x ∷ xs) g = (g x (inl refl), All-in Q xs (λ r m. g r (inr m)))

  pub All-append : (P : R → Type 0) (xs : List R) {r : R} → All P xs → P r → All P (xs ++ r ∷ [])
  All-append P [] h p = (p, tt)
  All-append P (x ∷ xs) h p = (h.0, All-append P xs h.1 p)

  pub All-remove : (P : R → Type 0) (p : R → Bool) (xs : List R) → All P xs → All P (remove p xs)
  All-remove P p [] h = tt
  All-remove P p (x ∷ xs) h = elim (Bool-cases (p x)) [
    | inl e ↦ rw e (All-remove P p xs h.1)
    | inr e ↦ rw e (h.0, All-remove P p xs h.1)
  ]

  pub In_append_last : (xs : List R) (r : R) → In r (xs ++ r ∷ [])
  In_append_last [] r = inl refl
  In_append_last (x ∷ xs) r = inr (In_append_last xs r)

  pub In_append : (xs : List R) (s r : R) → In s xs → In s (xs ++ r ∷ [])
  In_append (x ∷ xs) s r (inl e) = inl e
  In_append (x ∷ xs) s r (inr m) = inr (In_append xs s r m)
  In_append [] s r m = absurd m

  pub append-In : (xs : List R) {s r : R} → In s (xs ++ r ∷ []) → In s xs ⊎ (s ≡ r)
  append-In [] (inl e) = inr e
  append-In [] (inr m) = absurd m
  append-In (x ∷ xs) (inl e) = inl (inl e)
  append-In (x ∷ xs) (inr m) = elim (append-In xs m) [ inl n ↦ inl (inr n) | inr e ↦ inr e ]

  pub In_map : (f : R → R) (xs : List R) (r : R) → In r xs → In (f r) (map f xs)
  In_map f (x ∷ xs) r (inl e) = inl (λ i. f (e i))
  In_map f (x ∷ xs) r (inr m) = inr (In_map f xs r m)
  In_map f [] r m = absurd m

  pub map-In : (f : R → R) (xs : List R) {s : R} → In s (map f xs) → (r : R) × In r xs × (s ≡ f r)
  map-In f (x ∷ xs) (inl e) = (x, inl refl, e)
  map-In f (x ∷ xs) (inr m) = let (r, n, e) = map-In f xs m in (r, inr n, e)
  map-In f [] m = absurd m

  kept_In :
      (p : R → Bool) (x : R) (xs ys : List R) (r : R)
      → p x ≡ false
      → (In r ys → In r xs × (p r ≡ false))
      → In r (x ∷ ys)
      → In r (x ∷ xs) × (p r ≡ false)
  kept_In p x xs ys r e later (inl same) = (inl same, subst (λ y. p y ≡ false) (sym same) e)
  kept_In p x xs ys r e later (inr n) = let (m, q) = later n in (inr m, q)

  pub remove-In :
      (p : R → Bool) (xs : List R) (r : R) → In r (remove p xs) → In r xs × (p r ≡ false)
  remove-In p [] r m = absurd m
  remove-In p (x ∷ xs) r m = elim (Bool-cases (p x)) [
    | inl e ↦ let (n, q) = remove-In p xs r (rw e at m) in (inr n, q)
    | inr e ↦ kept_In p x xs (remove p xs) r e (λ n. remove-In p xs r n) (rw e at m)
  ]

  pub In_remove : (p : R → Bool) (xs : List R) (r : R) → In r xs → p r ≡ false → In r (remove p xs)
  In_remove p [] r m miss = absurd m
  In_remove p (x ∷ xs) r (inl e) miss = rw (subst (λ y. p y ≡ false) e miss) (inl e)
  In_remove p (x ∷ xs) r (inr m) miss = elim (Bool-cases (p x)) [
    | inl hit ↦ rw hit (In_remove p xs r m miss)
    | inr kept ↦ rw kept (inr (In_remove p xs r m miss))
  ]

module _ {R : Type 0} (p : R → Bool) where
  pub All-select : (P : R → Type 0) (xs : List R) → All P xs → All P (select p xs)
  All-select P [] h = tt
  All-select P (x ∷ xs) h = elim (Bool-cases (p x)) [
    | inl hit ↦ rw hit (h.0, All-select P xs h.1)
    | inr miss ↦ rw miss (All-select P xs h.1)
  ]

  pub In-select : (xs : List R) (r : R) → In r (select p xs) → In r xs × (p r ≡ true)
  In-select [] r m = absurd m
  In-select (x ∷ xs) r m = elim (Bool-cases (p x)) [
    | inl hit ↦ elim (rw hit at m) [
      | inl e ↦ (inl e, subst (λ y. p y ≡ true) (sym e) hit)
      | inr n ↦ let (k, q) = In-select xs r n in (inr k, q)
    ]
    | inr miss ↦ let (k, q) = In-select xs r (rw miss at m) in (inr k, q)
  ]

  pub select-In : (xs : List R) (r : R) → In r xs → p r ≡ true → In r (select p xs)
  select-In [] r m h = absurd m
  select-In (x ∷ xs) r (inl e) h = rw (subst (λ y. p y ≡ true) e h) (inl e)
  select-In (x ∷ xs) r (inr m) h = elim (Bool-cases (p x)) [
    | inl hit ↦ rw hit (inr (select-In xs r m h))
    | inr miss ↦ rw miss (select-In xs r m h)
  ]
