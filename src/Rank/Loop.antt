-- ===== src/Rank/Loop.antt =====
-- The loop of `rankBetween` in packages/types/src/rank.ts.
use ai_saas_multi_tenant.Base.{
  ℕ, zero, suc, ◌+◌, ◌/◌, ◌<◌, ◌≡◌, refl, sym, ◌∙◌, ap, inl, inr, true, false, [], ◌∷◌, ◌++◌, arith,
  append_assoc, ltb, Bool-cases, length, tail, All, Text, text_ltb,
}
use ai_saas_multi_tenant.Rank.{digit, char, digit_at, Ranked, rank, between_loop}
use ai_saas_multi_tenant.Rank.Digits.{
  IsDigit, digit-char, char-IsDigit, lt_of_digit-lt, digit-lt_of_lt,
}

-- The text is not empty, and its last digit is not '0'.
abbrev pub EndsNonzero : Text → Type 0
EndsNonzero [] = ⊥
EndsNonzero (c ∷ []) = 0 < digit c
EndsNonzero (c ∷ d ∷ cs) = EndsNonzero (d ∷ cs)

-- The form of the ranks that the program stores.
abbrev pub IsRank : Text → Type 0
IsRank t = All IsDigit t × EndsNonzero t

EndsNonzero-cons : (c : ℕ) (t : Text) → EndsNonzero t → EndsNonzero (c ∷ t)
EndsNonzero-cons c [] h = absurd h
EndsNonzero-cons c (d ∷ t) h = h

EndsNonzero-tail : (c d : ℕ) (t : Text) → EndsNonzero (c ∷ d ∷ t) → EndsNonzero (d ∷ t)
EndsNonzero-tail c d t h = h

text_ltb-cons : (c : ℕ) (a b : Text) → text_ltb (c ∷ a) (c ∷ b) ≡ text_ltb a b
text_ltb-cons c a b = ground arith

text_ltb_of_lt : (c d : ℕ) (a b : Text) → c < d → text_ltb (c ∷ a) (d ∷ b) ≡ true
text_ltb_of_lt c d a b h = ground arith

-- The loop returns `result` followed by some rank that `P` holds of.
abbrev pub Returns : Ranked → Text → (Text → Type 0) → Type 0
Returns r result P = (t : Text) × (r ≡ rank (result ++ t)) × IsRank t × P t

pub one_digit : (i : ℕ) → 0 < i → i < 62 → IsRank (char i ∷ [])
one_digit i p h = ((char-IsDigit i h, tt), ground (arith, digit-char i h))

more_digits : (c : ℕ) (t : Text) → IsDigit c → IsRank t → IsRank (c ∷ t)
more_digits c t d (all, ends) = ((d, all), EndsNonzero-cons c t ends)

-- A digit that is put in front of what a deeper round returns.
pub prepend :
    {r : Ranked} {P Q : Text → Type 0} (result : Text) (c : ℕ)
    → IsDigit c
    → ((t : Text) → P t → Q (c ∷ t))
    → Returns r (result ++ c ∷ []) P
    → Returns r result Q
prepend result c d f (t, e, is_rank, p) =
    (c ∷ t, e ∙ ap rank (append_assoc result (c ∷ []) t), more_digits c t d is_rank, f t p)

module _ (c i : ℕ) (a : Text) (d : IsDigit c) (in_base : i < 62) where
  above_digit : digit c < i → text_ltb (c ∷ a) (char i ∷ []) ≡ true
  above_digit lt =
      text_ltb_of_lt c (char i) a []
        (lt_of_digit-lt c (char i) d (char-IsDigit i in_base) (rw (digit-char i in_base) lt))

  below_digit : i < digit c → text_ltb (char i ∷ []) (c ∷ a) ≡ true
  below_digit lt =
      text_ltb_of_lt (char i) c [] a
        (lt_of_digit-lt (char i) c (char-IsDigit i in_base) d (rw (digit-char i in_base) lt))

-- With no ceiling the result lies above `a`.
pub open_loop :
    (fuel : ℕ) (a b result : Text)
    → All IsDigit a
    → length a < fuel
    → Returns (between_loop fuel a b true result) result (λ t. text_ltb a t ≡ true)
unfolding between_loop digit_at
open_loop zero a b result h lt = absurd (omega arith)
open_loop (suc fuel) [] b result h lt =
    (char 31 ∷ [], refl, one_digit 31 (omega arith) (omega arith), refl)
open_loop (suc fuel) (c ∷ a) b result (d, h) lt =
    let mid = (digit c + 62) / 2 in
    let below_base : mid < 62 = omega (arith, d.0) in
    elim (Bool-cases (ltb (digit c) mid)) [
      | inl stop ↦ (
        char mid ∷ [],
        rw stop,
        one_digit mid (omega arith) below_base,
        above_digit c mid a d below_base (ground arith),
      )
      | inr deeper ↦
          rw (deeper, d.1)
            (prepend result c d (λ t p. text_ltb-cons c a t ∙ p)
              (open_loop fuel a (tail b) (result ++ c ∷ []) h (omega arith)))
    ]

abbrev pub IsBetween : Text → Text → Text → Type 0
IsBetween a b t = (text_ltb a t ≡ true) × (text_ltb t b ≡ true)

-- The rest of a ceiling whose first digit is used up is still a ceiling.
ceiling_tail : (e : ℕ) (a b : Text) → text_ltb a b ≡ true → EndsNonzero (e ∷ b) → EndsNonzero b
ceiling_tail e [] [] lt ends = cc
ceiling_tail e (c ∷ a) [] lt ends = cc
ceiling_tail e a (d ∷ b) lt ends = ends

zero_ceiling : (e : ℕ) (b : Text) → EndsNonzero (e ∷ b) → digit e ≡ 0 → text_ltb [] b ≡ true
zero_ceiling e [] ends z = absurd (omega arith)
zero_ceiling e (d ∷ b) ends z = refl

same_digit :
    (c e : ℕ) (a b : Text)
    → IsDigit c
    → IsDigit e
    → text_ltb (c ∷ a) (e ∷ b) ≡ true
    → ltb (digit c) (digit e) ≡ false
    → (c ≡ e) × (text_ltb a b ≡ true)
same_digit c e a b d k lt no_gap = ground (arith, digit-lt_of_lt c e d k)

-- The digit `c` of `a` is kept under a greater digit of the ceiling.
under :
    (c e : ℕ) (a b t : Text)
    → IsDigit c
    → IsDigit e
    → digit c < digit e
    → text_ltb a t ≡ true
    → IsBetween (c ∷ a) (e ∷ b) (c ∷ t)
under c e a b t d k gap p =
    (text_ltb-cons c a t ∙ p, text_ltb_of_lt c e t b (lt_of_digit-lt c e d k gap))

zero_IsDigit : IsDigit (char 0)
zero_IsDigit = char-IsDigit 0 (omega arith)

under_zero : (e : ℕ) (b t : Text) → IsDigit e → 0 < digit e → IsBetween [] (e ∷ b) (char 0 ∷ t)
under_zero e b t k gap = (
  refl,
  text_ltb_of_lt (char 0) e t b
      (lt_of_digit-lt (char 0) e zero_IsDigit k (rw (digit-char 0 (omega arith)) gap)),
)

at_zero :
    (e : ℕ) (b t : Text)
    → IsDigit e
    → digit e ≡ 0
    → text_ltb t b ≡ true
    → IsBetween [] (e ∷ b) (char 0 ∷ t)
at_zero e b t k z p =
    let same : char 0 ≡ e = ap char (sym z) ∙ k.1 in
    (refl, rw (← same) (text_ltb-cons (char 0) t b ∙ p))

along : (c e : ℕ) (a b t : Text) → c ≡ e → IsBetween a b t → IsBetween (c ∷ a) (e ∷ b) (c ∷ t)
along c e a b t same (p, q) = (text_ltb-cons c a t ∙ p, rw (← same) (text_ltb-cons c t b ∙ q))

-- Below the ceiling `b` the result lies strictly between.
pub closed_loop :
    (fuel : ℕ) (a b result : Text)
    → All IsDigit a
    → All IsDigit b
    → EndsNonzero b
    → text_ltb a b ≡ true
    → length a < fuel
    → length b < fuel
    → Returns (between_loop fuel a b false result) result (IsBetween a b)
unfolding between_loop digit_at
closed_loop zero a b result ha hb ends lt na nb = absurd (omega arith)
closed_loop (suc fuel) [] [] result ha hb ends lt na nb = absurd ends
closed_loop (suc fuel) [] (e ∷ b) result ha (k, hb) ends lt na nb =
    let mid = (0 + digit e) / 2 in
    let below_base : mid < 62 = omega (arith, k.0) in
    elim (Bool-cases (ltb 0 mid)) [
      | inl stop ↦ (
        char mid ∷ [],
        rw stop,
        one_digit mid (ground arith) below_base,
        (refl, below_digit e mid b k below_base (ground arith)),
      )
      | inr deeper ↦ elim (Bool-cases (ltb 0 (digit e))) [
        | inl gap ↦
            rw (deeper, gap)
              (prepend result (char 0) zero_IsDigit (λ t p. under_zero e b t k (ground arith))
                (open_loop fuel [] b (result ++ char 0 ∷ []) tt (omega arith)))
        | inr level ↦
            let z : digit e ≡ 0 = ground arith in
            let first = zero_ceiling e b ends z in
            rw (deeper, level)
              (prepend result (char 0) zero_IsDigit (λ t p. at_zero e b t k z p.1)
                (closed_loop fuel [] b (result ++ char 0 ∷ []) tt hb
                  (ceiling_tail e [] b first ends) first (omega arith) (omega arith)))
      ]
    ]
closed_loop (suc fuel) (c ∷ a) [] result ha hb ends lt na nb = cc
closed_loop (suc fuel) (c ∷ a) (e ∷ b) result (d, ha) (k, hb) ends lt na nb =
    let mid = (digit c + digit e) / 2 in
    elim (Bool-cases (ltb (digit c) (digit e))) [
      | inl gap ↦ elim (Bool-cases (ltb (digit c) mid)) [
        | inl stop ↦
            let below_base : mid < 62 = omega (arith, d.0, k.0) in
            (
              char mid ∷ [],
              rw stop,
              one_digit mid (ground arith) below_base,
              (
                above_digit c mid a d below_base (ground arith),
                below_digit e mid b k below_base (ground arith),
              ),
            )
        | inr deeper ↦
            rw (deeper, gap, d.1)
              (prepend result c d (λ t p. under c e a b t d k (ground arith) p)
                (open_loop fuel a b (result ++ c ∷ []) ha (omega arith)))
      ]
      | inr level ↦
          let (same, rest) = same_digit c e a b d k lt level in
          let stuck : ltb (digit c) mid ≡ false = ground arith in
          rw (stuck, level, d.1)
            (prepend result c d (λ t p. along c e a b t same p)
              (closed_loop fuel a b (result ++ c ∷ []) ha hb (ceiling_tail e a b rest ends) rest
                (omega arith) (omega arith)))
    ]
