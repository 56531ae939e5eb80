-- ===== src/Quota.antt =====
-- crates/camelmailer-core/src/quota.rs: the thresholds of an organization's monthly limit, and the
-- months that it is counted in.
pub mod Laws
pub mod Month
mod Tests
use camelmailer.Base.{
  ℕ, suc, ◌+◌, ◌-◌, Bool, true, false, Option, none, some, List, [], ◌∷◌, ◌==◌, if◌then◌else◌,
  filter, ℤ, pos, ◌+ℤ◌, ◌*ℤ◌, ltb_ℤ, leb_ℤ,
}

abbrev pub usage_thresholds : List ℕ
usage_thresholds = 80 ∷ 100 ∷ []

-- The products are of `i128`, which those of two `i64` and these thresholds fit.
unfoldable pub reached_thresholds : ℤ → Option ℤ → List ℕ
reached_thresholds sent none = []
reached_thresholds sent (some limit) =
    if ltb_ℤ (pos 0) limit
    then filter (λ threshold. leb_ℤ (limit *ℤ pos threshold) (sent *ℤ pos 100)) usage_thresholds
    else []

pub record UsageMonth : Type 0 where
  pub year : ℤ
  pub month : ℕ

-- A year and a month by the calendar of the date library: `none` is the panic of `expect`.
module _ {Date : Type 0} (from_ymd_opt : ℤ → ℕ → ℕ → Option Date) where
  unfoldable pub first_day : UsageMonth → Option Date
  first_day m = from_ymd_opt m.year m.month 1

  unfoldable pub next_first_day : UsageMonth → Option Date
  unfolding ◌+ℤ◌
  next_first_day m =
      if m.month == 12
      then from_ymd_opt (m.year +ℤ pos 1) 1 1
      else from_ymd_opt m.year (m.month + 1) 1
