-- ===== src/Rank/Digits.antt =====
-- The digit table of rank.ts: 62 characters in the order of their codes.
use ai_saas_multi_tenant.Base.{
  ℕ, zero, suc, ◌+◌, ◌<◌, ◌≤◌, ◌≡◌, refl, inl, inr, Bool, true, false, Bool-cases, if◌then◌else◌,
  [], ◌∷◌, arith, ltb, leb, ◌==◌, ==_iff, ◌||◌, Text, length,
}
use mathlib.Core.Path.{subst}
use ai_saas_multi_tenant.Rank.{digits, digit, char, base, index_from}

-- The test passes at each of the next `count` positions of the table.
passes_from : (ℕ → Bool) → ℕ → ℕ → Bool
passes_from test start zero = true
passes_from test start (suc count) =
    if test start then passes_from test (suc start) count else false

passes_from-at :
    (test : ℕ → Bool) (start count i : ℕ)
    → start ≤ i
    → i < start + count
    → passes_from test start count ≡ true
    → test i ≡ true
unfolding passes_from
passes_from-at test start zero i low high all = absurd (omega arith)
passes_from-at test start (suc count) i low high all = elim (Bool-cases (start == i)) [
  | inl here ↦ subst (λ n. test n ≡ true) ((==_iff start i).0 here) (ground arith)
  | inr later ↦ passes_from-at test (suc start) count i (ground arith) (omega arith) (ground arith)
]

digit-char_table : passes_from (λ i. digit (char i) == i) 0 62 ≡ true
unfolding passes_from digit char
digit-char_table = refl

char_table : passes_from (λ i. passes_from (λ j. leb j i || ltb (char i) (char j)) 0 62) 0 62 ≡ true
unfolding passes_from char
char_table = refl

-- A character of the table.
abbrev pub IsDigit : ℕ → Type 0
IsDigit c = (digit c < base) × (char (digit c) ≡ c)

pub digit-char : (i : ℕ) → i < base → digit (char i) ≡ i
digit-char i h = (==_iff _ i).0 (passes_from-at _ 0 62 i (omega arith) h digit-char_table)

pub char-IsDigit : (i : ℕ) → i < base → IsDigit (char i)
char-IsDigit i h = (ground (arith, digit-char i h), ground (arith, digit-char i h))

char_mono : (i j : ℕ) → i < j → j < base → char i < char j
char_mono i j h k =
    let row = passes_from-at _ 0 62 i (omega arith) (omega arith) char_table in
    let entry = passes_from-at _ 0 62 j (omega arith) k row in ground (arith, entry)

-- The table is in the order of the codes.
pub lt_of_digit-lt : (c d : ℕ) → IsDigit c → IsDigit d → digit c < digit d → c < d
lt_of_digit-lt c d h k lt = ground (arith, char_mono (digit c) (digit d) lt k.0)

pub digit-lt_of_lt : (c d : ℕ) → IsDigit c → IsDigit d → c < d → digit c < digit d
digit-lt_of_lt c d h k lt = ground (arith, char_mono (digit d) (digit c))

index_from-lt : (i c : ℕ) (t : Text) → i + length t ≤ base → index_from i c t < base
index_from-lt i c [] h = omega arith
index_from-lt i c (x ∷ t) h = ground (arith, index_from-lt (suc i) c t)

-- Every character reads as a digit, one that is not in the table as 0.
pub digit-lt : (c : ℕ) → digit c < base
unfolding digit
digit-lt c = index_from-lt 0 c digits (omega arith)
