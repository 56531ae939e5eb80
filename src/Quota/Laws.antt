-- ===== src/Quota/Laws.antt =====
-- The thresholds agree with the allowance that enforces the limit.
use camelmailer.Base.{
  ◌≡◌, not, some, ◌==◌, any, ℤ, pos, ◌-ℤ◌, ◌*ℤ◌, ◌≤ℤ◌, IsI64, wrap_i64_id, arith,
}
use camelmailer.Limit.{organization_allowance, allows, remaining}
use camelmailer.Quota.{reached_thresholds}

-- For a positive limit, where the difference of limit and usage is an `i64`, the threshold of 100
-- percent is reached exactly when the organization's allowance admits no further message.
pub reached_thresholds-allows :
    (sent limit : ℤ)
    → pos 1 ≤ℤ limit
    → IsI64 (limit -ℤ sent)
    → any (λ t. t == 100) (reached_thresholds sent (some limit))
      ≡ not (allows (organization_allowance (some limit) sent) (pos 1))
unfolding reached_thresholds allows remaining organization_allowance ◌-ℤ◌ ◌*ℤ◌
reached_thresholds-allows sent limit p h = ground (arith, wrap_i64_id (limit -ℤ sent) h)
