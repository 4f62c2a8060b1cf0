-- ===== src/Base/Texts.antt =====
-- Equality of texts, as JavaScript decides it, and the length of a first part.
use mathlib.Core.Path.{◌≡◌, refl, ap, subst}
use Prim.Native.Nat.{ℕ, zero, suc, ◌≤◌}
use mathlib.Core.Bool.{true}
use mathlib.Core.List.{List, [], ◌∷◌}
use native.Mathlib.Omega.{arith}
use ai_saas_multi_tenant.Base.Lists.{length, take, Text, text_eq}

pub text_eq-≡ : (s t : Text) → text_eq s t ≡ true → s ≡ t
text_eq-≡ [] [] e = refl
text_eq-≡ [] (d ∷ t) e = cc
text_eq-≡ (c ∷ s) [] e = cc
text_eq-≡ (c ∷ s) (d ∷ t) e =
    let same : c ≡ d = ground (arith, e) in
    let rest = text_eq-≡ s t (ground (arith, e)) in
    subst (λ z. c ∷ s ≡ z ∷ t) same (ap (λ u. c ∷ u) rest)

pub text_eq_refl : (s : Text) → text_eq s s ≡ true
text_eq_refl [] = refl
text_eq_refl (c ∷ s) = ground (arith, text_eq_refl s)

module _ {ℓ} {A : Type ℓ} where
  pub length-take : (n : ℕ) (xs : List A) → length (take n xs) ≤ n
  length-take zero xs = omega arith
  length-take (suc n) [] = omega arith
  length-take (suc n) (x ∷ xs) = omega (arith, length-take n xs)
