-- ===== src/Auth/Slugs/Form.antt =====
-- The characters of the slugs that `createOrgForUser` tries, beside the pattern of `createOrgSchema`.
use ai_saas_multi_tenant.Base.{
  take, length-take, ℕ, zero, suc, ◌/◌, ◌≤◌, ◌≡◌, refl, inl, inr, Bool, true, false, ◌||◌, [], ◌∷◌,
  ◌++◌, ltb, arith, Text, Bool-cases, length, All,
}
use ai_saas_multi_tenant.Model.Platform.{External}
use ai_saas_multi_tenant.Auth.Slugs.{
  is_white, is_slug_char, is_dash, strip_front, strip_back, keep_before, dash_runs, slugify, or_org,
  base_slug, decimal_in, decimal, candidate,
}

-- A character of `[a-z0-9-]`.
abbrev pub IsSlugChar : ℕ → Type 0
IsSlugChar c = (is_slug_char c || is_dash c) ≡ true

-- Not empty, made of `[a-z0-9-]`, and not begun by a dash.
abbrev pub IsSlug : Text → Type 0
IsSlug [] = ⊥
IsSlug (c ∷ cs) = (is_slug_char c ≡ true) × All IsSlugChar cs

module _ (P : ℕ → Type 0) where
  All-append : (s t : Text) → All P s → All P t → All P (s ++ t)
  All-append [] t h k = k
  All-append (c ∷ s) t h k = (h.0, All-append s t h.1 k)

  All-strip_back : (drop : ℕ → Bool) (t : Text) → All P t → All P (strip_back drop t)
  unfolding strip_back
  All-strip_back drop [] h = tt
  All-strip_back drop (c ∷ t) h = before (strip_back drop t) (All-strip_back drop t h.1)
    where
      before : (s : Text) → All P s → All P (keep_before drop c s)
      before [] k = elim (Bool-cases (drop c)) [ inl e ↦ rw e tt | inr e ↦ rw e (h.0, tt) ]
      before (d ∷ s) k = (h.0, k)

  All-strip_front : (drop : ℕ → Bool) (t : Text) → All P t → All P (strip_front drop t)
  unfolding strip_front
  All-strip_front drop [] h = tt
  All-strip_front drop (c ∷ t) h = elim (Bool-cases (drop c)) [
    | inl e ↦ rw e (All-strip_front drop t h.1)
    | inr e ↦ rw e h
  ]

  All-take : (n : ℕ) (t : Text) → All P t → All P (take n t)
  All-take zero t h = tt
  All-take (suc n) [] h = tt
  All-take (suc n) (c ∷ t) h = (h.0, All-take n t h.1)

dash_runs-All : (in_run : Bool) (t : Text) → All IsSlugChar (dash_runs in_run t)
unfolding dash_runs
dash_runs-All in_run [] = tt
dash_runs-All in_run (c ∷ t) = elim (Bool-cases (is_slug_char c)) [
  | inl e ↦ rw e (ground arith, dash_runs-All false t)
  | inr e ↦ elim (Bool-cases in_run) [
    | inl inside ↦ rw (e, inside) (dash_runs-All true t)
    | inr outside ↦ rw (e, outside) (refl, dash_runs-All true t)
  ]
]

-- What the text starts with is not to drop.
abbrev StartsKept : (ℕ → Bool) → Text → Type 0
StartsKept drop [] = Unit
StartsKept drop (c ∷ cs) = drop c ≡ false

strip_front-StartsKept : (drop : ℕ → Bool) (t : Text) → StartsKept drop (strip_front drop t)
unfolding strip_front
strip_front-StartsKept drop [] = tt
strip_front-StartsKept drop (c ∷ t) = elim (Bool-cases (drop c)) [
  | inl e ↦ rw e (strip_front-StartsKept drop t)
  | inr e ↦ rw e e
]

strip_back-StartsKept :
    (drop : ℕ → Bool) (t : Text) → StartsKept drop t → StartsKept drop (strip_back drop t)
unfolding strip_back
strip_back-StartsKept drop [] h = tt
strip_back-StartsKept drop (c ∷ t) h = before (strip_back drop t)
  where
    before : (s : Text) → StartsKept drop (keep_before drop c s)
    before [] = rw h h
    before (d ∷ s) = h

take-StartsKept :
    (drop : ℕ → Bool) (n : ℕ) (t : Text) → StartsKept drop t → StartsKept drop (take n t)
take-StartsKept drop zero t h = tt
take-StartsKept drop (suc n) [] h = tt
take-StartsKept drop (suc n) (c ∷ t) h = h

or_org-IsSlug : (t : Text) → All IsSlugChar t → StartsKept is_dash t → IsSlug (or_org t)
or_org-IsSlug [] h k = (refl, (refl, (refl, tt)))
or_org-IsSlug (c ∷ t) h k = (ground arith, h.1)

length-or_org : (t : Text) → length t ≤ 40 → length (or_org t) ≤ 40
length-or_org [] h = omega arith
length-or_org (c ∷ t) h = h

-- Whatever the name of an organization is, the base of its slug is not empty, has only characters of
-- `[a-z0-9-]`, no dash in front, and at most 40 characters.
pub base_slug-IsSlug :
    (x : External) (name : Text) → IsSlug (base_slug x name) × (length (base_slug x name) ≤ 40)
unfolding base_slug slugify
base_slug-IsSlug x name =
    let runs = dash_runs false (strip_back is_white (strip_front is_white (x.lower_text name))) in
    let body = strip_back is_dash (strip_front is_dash runs) in
    (
      or_org-IsSlug (take 40 body)
          (All-take IsSlugChar 40 body (
            All-strip_back IsSlugChar is_dash (strip_front is_dash runs)
              (All-strip_front IsSlugChar is_dash runs (dash_runs-All false _))))
          (take-StartsKept is_dash 40 body
            (strip_back-StartsKept is_dash _ (strip_front-StartsKept is_dash runs))),
      length-or_org (take 40 body) (length-take 40 body),
    )

decimal_in-All : (fuel n : ℕ) → All IsSlugChar (decimal_in fuel n)
unfolding decimal_in
decimal_in-All zero n = tt
decimal_in-All (suc fuel) n = elim (Bool-cases (ltb n 10)) [
  | inl small ↦ rw small (ground arith, tt)
  | inr large ↦ rw large (
      All-append IsSlugChar (decimal_in fuel (n / 10)) _ (decimal_in-All fuel (n / 10))
        (ground arith, tt))
]

-- The candidate of each round is such a slug too.
pub candidate-IsSlug : (base : Text) (i : ℕ) → IsSlug base → IsSlug (candidate base i)
unfolding candidate decimal
candidate-IsSlug base zero h = h
candidate-IsSlug [] (suc i) h = absurd h
candidate-IsSlug (c ∷ base) (suc i) h =
    (h.0, All-append IsSlugChar base _ h.1 (refl, decimal_in-All (suc (suc i)) (suc i)))
