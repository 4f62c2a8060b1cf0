-- ===== src/Rank.antt =====
-- Fractional ranks for drag and drop: packages/types/src/rank.ts. A string is the list of its
-- code units, and the loop reads `a` and `b` by the suffixes that are left at index `i`.
pub mod Digits
pub mod Loop
pub mod Between
pub mod Zeros
mod Tests
use ai_saas_multi_tenant.Base.{
  ℕ, zero, suc, ◌+◌, ◌/◌, max, Bool, true, false, not, ◌||◌, Option, none, some, List, [], ◌∷◌,
  ◌++◌, ltb, ◌==◌, if◌then◌else◌, length, get_or, tail, Text, codes, text_ltb,
}

abbrev pub digits : Text
digits = codes "0123456789ABCDEFGHIJKLMNOPQRSTUVWXYZabcdefghijklmnopqrstuvwxyz"

abbrev pub base : ℕ
base = 62

-- `indexOf` of one character, and `i < 0 ? 0 : i`
abbrev pub index_from : ℕ → ℕ → Text → ℕ
index_from i c [] = 0
index_from i c (x ∷ xs) = if x == c then i else index_from (suc i) c xs

unfoldable pub digit : ℕ → ℕ
digit c = index_from 0 c digits

-- `DIGITS[i]`
unfoldable pub char : ℕ → ℕ
char i = get_or digits i 0

-- `i < a.length ? digit(a[i]) : otherwise`
unfoldable pub digit_at : Text → ℕ → ℕ
digit_at [] otherwise = otherwise
digit_at (c ∷ cs) otherwise = digit c

pub data Ranked : Type 0 where
  rank : Text → Ranked
  inverted : Ranked
  out_of_fuel : Ranked

-- The body of `for (;;)`. `a` and `b` are what is left of them at index `i`.
unfoldable pub between_loop : ℕ → Text → Text → Bool → Text → Ranked
between_loop zero a b upper_open result = out_of_fuel
between_loop (suc fuel) a b upper_open result =
    let da = digit_at a 0 in
    let db = if upper_open then base else digit_at b base in
    let mid = (da + db) / 2 in
    let deeper =
      between_loop fuel (tail a) (tail b) (upper_open || ltb da db) (result ++ char da ∷ []) in
    if ltb da mid then rank (result ++ char mid ∷ []) else deeper

-- A null bound reads as an exhausted one.
abbrev pub or_empty : Option Text → Text
or_empty none = []
or_empty (some a) = a

abbrev pub is_none {ℓ} : {A : Type ℓ} → Option A → Bool
is_none none = true
is_none (some _) = false

-- `a !== null && b !== null && a >= b`
abbrev pub is_inverted : Option Text → Option Text → Bool
is_inverted (some a) (some b) = not (text_ltb a b)
is_inverted _ _ = false

unfoldable pub rank_between : Option Text → Option Text → Ranked
rank_between a b =
    if is_inverted a b
    then inverted
    else between_loop (suc (max (length (or_empty a)) (length (or_empty b)))) (or_empty a)
        (or_empty b) (is_none b) []

unfoldable pub first_rank : Text
first_rank = char (base / 2) ∷ []
