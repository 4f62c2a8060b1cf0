-- ===== src/Rank/Tests.antt =====
-- Runs of `rankBetween`.
use ai_saas_multi_tenant.Base.{◌≡◌, refl, none, some, codes}
use ai_saas_multi_tenant.Rank.{
  digit, char, digit_at, rank, inverted, between_loop, rank_between, first_rank,
}

runs :
    (rank_between (some (codes "A")) (some (codes "C")) ≡ rank (codes "B"))
    × (rank_between (some (codes "A")) (some (codes "B")) ≡ rank (codes "AV"))
    × (rank_between (some (codes "C")) (some (codes "A")) ≡ inverted)
    × (rank_between none (some (codes "0")) ≡ rank (codes "0V"))
    × (first_rank ≡ codes "V")
unfolding rank_between between_loop digit_at digit char first_rank
runs = (refl, refl, refl, refl, refl)
