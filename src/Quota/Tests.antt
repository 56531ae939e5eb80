-- ===== src/Quota/Tests.antt =====
-- Thresholds on small inputs.
use camelmailer.Base.{
  ℕ, ◌≡◌, refl, not, some, List, [], ◌∷◌, ◌==◌, ◌&&◌, leb, any, pos, ◌-ℤ◌, arith,
}
use camelmailer.Limit.{organization_allowance, allows}
use camelmailer.Text.{codes}
use camelmailer.Quota.Month.{label, parse_month, parse_month-label}
use camelmailer.Quota.{reached_thresholds}
use camelmailer.Quota.Laws.{reached_thresholds-allows}

four_fifths : reached_thresholds (pos 80) (some (pos 100)) ≡ 80 ∷ []
unfolding reached_thresholds camelmailer.Base.◌*ℤ◌
four_fifths = refl

reached_thresholds-allows_full :
    any (λ t. t == 100) (reached_thresholds (pos 100) (some (pos 100)))
    ≡ not (allows (organization_allowance (some (pos 100)) (pos 100)) (pos 1))
unfolding ◌-ℤ◌
reached_thresholds-allows_full =
    reached_thresholds-allows (pos 100) (pos 100) (omega arith) (omega arith)

parse_month-label_example :
    parse_month (λ y m. leb 1 m && leb m 12) (label (record { year = pos 2026; month = 10 }))
    ≡ some (record { year = pos 2026; month = 10 })
parse_month-label_example =
    parse_month-label (λ y m. leb 1 m && leb m 12) 2026 10 (omega arith) (omega arith) refl

-- A sign is read where a digit is meant.
signed_month :
    parse_month (λ y m. leb 1 m && leb m 12) (codes "2026-+1")
    ≡ some (record { year = pos 2026; month = 1 })
unfolding parse_month codes
signed_month = refl
