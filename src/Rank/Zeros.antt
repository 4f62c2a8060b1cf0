-- ===== src/Rank/Zeros.antt =====
-- `rankBetween` with an upper bound that is made of zeros only.
use ai_saas_multi_tenant.Base.{
  ℕ, zero, suc, ◌<◌, max, ◌≡◌, refl, ◌∙◌, ap, false, none, some, [], ◌∷◌, ◌++◌, arith, append_assoc,
  length, Text, text_ltb,
}
use ai_saas_multi_tenant.Rank.{digit, char, digit_at, rank, between_loop, rank_between}

-- A string of '0's.
abbrev pub zeros : ℕ → Text
zeros zero = []
zeros (suc n) = b'0' ∷ zeros n

length-zeros : (n : ℕ) → length (zeros n) ≡ n
length-zeros zero = refl
length-zeros (suc n) = ap suc (length-zeros n)

zeros_loop :
    (fuel n : ℕ) (result : Text)
    → n < fuel
    → between_loop fuel [] (zeros n) false result ≡ rank (result ++ (zeros n ++ b'V' ∷ []))
unfolding between_loop digit_at digit char
zeros_loop zero n result h = absurd (omega arith)
zeros_loop (suc fuel) zero result h = refl
zeros_loop (suc fuel) (suc n) result h =
    zeros_loop fuel n (result ++ b'0' ∷ []) (omega arith)
    ∙ ap rank (append_assoc result (b'0' ∷ []) (zeros n ++ b'V' ∷ []))

zeros_above : (n : ℕ) → text_ltb (zeros n ++ b'V' ∷ []) (zeros n) ≡ false
zeros_above zero = refl
zeros_above (suc n) = zeros_above n

-- With a null lower bound and an upper bound of one or more '0's, `rankBetween` does not throw, and
-- what it returns does not sort before the upper bound.
pub rank_between-zeros :
    (n : ℕ)
    → (t : Text) × (rank_between none (some (zeros (suc n))) ≡ rank t)
      × (text_ltb t (zeros (suc n)) ≡ false)
unfolding rank_between
rank_between-zeros n = (
  zeros (suc n) ++ b'V' ∷ [],
  zeros_loop (suc (max 0 (suc (length (zeros n))))) (suc n) [] (omega (arith, length-zeros n)),
  zeros_above (suc n),
)
