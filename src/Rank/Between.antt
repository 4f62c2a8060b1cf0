-- ===== src/Rank/Between.antt =====
-- The bounds of `rankBetween` in packages/types/src/rank.ts.
use ai_saas_multi_tenant.Base.{
  ℕ, zero, suc, ◌+◌, ◌/◌, ◌<◌, ◌≤◌, ◌||◌, max, if◌then◌else◌, ◌≡◌, refl, sym, ◌∙◌, ◌⊎◌, inl, inr,
  Bool, true, false, Option, none, some, [], ◌∷◌, ◌++◌, arith, ltb, Bool-cases, length, tail, Text,
  text_ltb,
}
use mathlib.Core.Path.{subst}
use ai_saas_multi_tenant.Rank.{
  base, char, digit_at, rank, inverted, is_none, between_loop, or_empty, is_inverted, rank_between,
  first_rank,
}
use ai_saas_multi_tenant.Rank.Digits.{char-IsDigit, digit-lt}
use ai_saas_multi_tenant.Rank.Loop.{
  EndsNonzero, IsRank, Returns, prepend, one_digit, open_loop, closed_loop,
}

digit_at_lt : (a : Text) → digit_at a 0 < 62
unfolding digit_at
digit_at_lt [] = omega arith
digit_at_lt (c ∷ a) = digit-lt c

ceiling_le : (b : Text) (upper_open : Bool) → (if upper_open then base else digit_at b base) ≤ 62
unfolding digit_at
ceiling_le b true = omega arith
ceiling_le [] false = omega arith
ceiling_le (c ∷ b) false = omega (arith, digit-lt c)

length-tail : (a : Text) (n : ℕ) → length a < suc (suc n) → length (tail a) < suc n
length-tail [] n h = omega arith
length-tail (c ∷ a) n h = omega arith

-- Whatever the characters are, the loop ends within its fuel and returns a rank.
loop_total :
    (fuel : ℕ) (a b result : Text) (upper_open : Bool)
    → length a < fuel
    → length b < fuel
    → Returns (between_loop fuel a b upper_open result) result (λ _. Unit {0})
unfolding between_loop
loop_total zero a b result upper_open na nb = absurd (omega arith)
loop_total (suc zero) [] [] result true na nb = ended
  where
    ended : Returns (between_loop 1 [] [] true result) result (λ _. Unit {0})
    ended = unfold digit_at in (char 31 ∷ [], refl, one_digit 31 (omega arith) (omega arith), tt)
loop_total (suc zero) [] [] result false na nb = ended
  where
    ended : Returns (between_loop 1 [] [] false result) result (λ _. Unit {0})
    ended = unfold digit_at in (char 31 ∷ [], refl, one_digit 31 (omega arith) (omega arith), tt)
loop_total (suc zero) (c ∷ a) b result upper_open na nb = absurd (omega arith)
loop_total (suc zero) [] (e ∷ b) result upper_open na nb = absurd (omega arith)
loop_total (suc (suc fuel)) a b result upper_open na nb =
    let da = digit_at a 0 in
    let db = if upper_open then base else digit_at b base in
    let mid = (da + db) / 2 in
    let small : mid < 62 = omega (arith, digit_at_lt a, ceiling_le b upper_open) in
    elim (Bool-cases (ltb da mid)) [
      | inl stop ↦ (char mid ∷ [], rw stop, one_digit mid (ground arith) small, tt)
      | inr deeper ↦ rw deeper (
          prepend result (char da) (char-IsDigit da (digit_at_lt a)) (λ t p. tt)
            (loop_total (suc fuel) (tail a) (tail b) (result ++ char da ∷ [])
              (upper_open || ltb da db) (length-tail a fuel na) (length-tail b fuel nb)))
    ]

not_empty : (b : Text) → EndsNonzero b → text_ltb [] b ≡ true
not_empty [] ends = absurd ends
not_empty (c ∷ b) ends = refl

-- A null bound does not restrict.
abbrev pub Above : Option Text → Text → Type 0
Above none t = Unit
Above (some a) t = text_ltb a t ≡ true

abbrev pub Below : Option Text → Text → Type 0
Below none t = Unit
Below (some b) t = text_ltb t b ≡ true

abbrev pub IsBound : Option Text → Type 0
IsBound none = Unit
IsBound (some a) = IsRank a

-- For any two strings and nulls, `rankBetween` throws exactly when both bounds are given and the
-- lower does not sort before the upper, and otherwise returns a rank, within the fuel.
pub rank_between_total :
    (a b : Option Text)
    → ((is_inverted a b ≡ true) × (rank_between a b ≡ inverted))
      ⊎ ((is_inverted a b ≡ false) × ((t : Text) × (rank_between a b ≡ rank t) × IsRank t))
unfolding rank_between
rank_between_total a b =
    let x = or_empty a in
    let y = or_empty b in
    let (t, e, is_rank, _) =
      loop_total (suc (max (length x) (length y))) x y [] (is_none b) (omega arith) (omega arith) in
    elim (Bool-cases (is_inverted a b)) [
      | inl bad ↦ inl (bad, rw bad)
      | inr good ↦ inr (good, (t, rw good e, is_rank))
    ]

-- Between ranks of the stored form, the lower sorting before the upper where both are given,
-- `rankBetween` returns a rank of the stored form that sorts strictly between the two bounds.
pub rank_between_sound :
    (a b : Option Text)
    → IsBound a
    → IsBound b
    → is_inverted a b ≡ false
    → (t : Text) × (rank_between a b ≡ rank t) × IsRank t × Above a t × Below b t
unfolding rank_between
rank_between_sound none none ha hb good =
    let (t, e, is_rank, _) = open_loop 1 [] [] [] tt (omega arith) in (t, e, is_rank, tt, tt)
rank_between_sound (some a) none ha hb good =
    let (t, e, is_rank, p) = open_loop (suc (max (length a) 0)) a [] [] ha.0 (omega arith) in
    (t, e, is_rank, p, tt)
rank_between_sound none (some b) ha (hb, ends) good =
    let (t, e, is_rank, p) =
      closed_loop (suc (max 0 (length b))) [] b [] tt hb ends (not_empty b ends) (omega arith)
        (omega arith) in
    (t, e, is_rank, tt, p.1)
rank_between_sound (some a) (some b) ha (hb, ends) good =
    let (t, e, is_rank, p) =
      closed_loop (suc (max (length a) (length b))) a b [] ha.0 hb ends (ground arith) (omega arith)
        (omega arith) in
    (t, rw good e, is_rank, p.0, p.1)

pub first_rank-IsRank : IsRank first_rank
unfolding first_rank
first_rank-IsRank = one_digit 31 (omega arith) (omega arith)

rank-injective : {s t : Text} → rank s ≡ rank t → s ≡ t
rank-injective e = cc

pub rank_between-IsRank : (a b : Option Text) (t : Text) → rank_between a b ≡ rank t → IsRank t
rank_between-IsRank a b t e = elim (rank_between_total a b) [
  | inl (_, bad) ↦ absurd (inverted_is_not_rank t (sym bad ∙ e))
  | inr (_, (s, e', is_rank)) ↦ subst IsRank (rank-injective (sym e' ∙ e)) is_rank
]
  where
    inverted_is_not_rank : (s : Text) → inverted ≡ rank s → ⊥
    inverted_is_not_rank s e'' = cc

-- What a returned rank satisfies, for bounds of the stored form.
pub rank_between_bounds :
    (a b : Option Text) (t : Text)
    → IsBound a
    → IsBound b
    → rank_between a b ≡ rank t
    → Above a t × Below b t
rank_between_bounds a b t ha hb e = elim (rank_between_total a b) [
  | inl (_, bad) ↦ absurd (inverted_is_not_rank t (sym bad ∙ e))
  | inr (good, _) ↦
      let (s, e', is_rank, above, below) = rank_between_sound a b ha hb good in
      let same : s ≡ t = rank-injective (sym e' ∙ e) in
      (subst (Above a) same above, subst (Below b) same below)
]
  where
    inverted_is_not_rank : (s : Text) → inverted ≡ rank s → ⊥
    inverted_is_not_rank s e'' = cc
