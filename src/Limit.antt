-- ===== src/Limit.antt =====
-- crates/camelmailer-core/src/send_limit.rs: how much of a send limit is left, the server's and the
-- organization's, and the stricter of the two.
pub mod Laws
mod Tests
use camelmailer.Base.{
  Bool, true, false, ◌||◌, Option, none, some, ◌++◌, String, if◌then◌else◌, ℤ, pos, ◌-ℤ◌, wrap_i64,
  ltb_ℤ, leb_ℤ, map_option,
}
use camelmailer.Text.{Text, codes}
use camelmailer.Text.Format.{decimal_i64}

pub data LimitScope : Type 0 where
  server organization : LimitScope

pub record SendAllowance : Type 0 where
  pub limit : Option ℤ
  pub used : ℤ
  pub scope : LimitScope

unfoldable pub unlimited : SendAllowance
unlimited = record { limit = none; used = pos 0; scope = server }

unfoldable pub server_allowance : Option ℤ → ℤ → SendAllowance
server_allowance limit used = record { limit = limit; used = used; scope = server }

unfoldable pub organization_allowance : Option ℤ → ℤ → SendAllowance
organization_allowance limit used = record { limit = limit; used = used; scope = organization }

-- `.max(0)` of an `i64`
unfoldable pub max_zero : ℤ → ℤ
max_zero a = if ltb_ℤ a (pos 0) then pos 0 else a

-- The subtraction of `i64` wraps in a release build.
unfoldable pub remaining : SendAllowance → Option ℤ
unfolding max_zero
remaining a = map_option (λ limit. max_zero (wrap_i64 (limit -ℤ a.used))) a.limit

abbrev is_organization : LimitScope → Bool
is_organization organization = true
is_organization server = false

-- The last two arms of the match in `stricter`, on the two remainders.
stricter_of : SendAllowance → SendAllowance → Option ℤ → Option ℤ → SendAllowance
stricter_of self other none r = other
stricter_of self other (some a) none = self
stricter_of self other (some a) (some b) =
    if ltb_ℤ a b
    then self
    else if ltb_ℤ b a
    then other
    else if is_organization self.scope
    then self
    else other

unfoldable pub stricter : SendAllowance → SendAllowance → SendAllowance
unfolding stricter_of
stricter self other = stricter_of self other (remaining self) (remaining other)

unfoldable pub error_code : SendAllowance → String
error_code a = elim a.scope [
  | server ↦ "SendLimitExceeded"
  | organization ↦ "OrganizationQuotaExceeded"
]

allows_of : Option ℤ → ℤ → Bool
allows_of none count = true
allows_of (some r) count = leb_ℤ count (pos 0) || leb_ℤ count r

unfoldable pub allows : SendAllowance → ℤ → Bool
unfolding allows_of
allows a count = allows_of (remaining a) count

rejection_of : LimitScope → Option ℤ → ℤ → Text
rejection_of server none used = codes "This mail server has no send limit"
rejection_of server (some limit) used =
    codes "This mail server has reached its send limit of "
    ++ decimal_i64 limit
    ++ codes " messages per 30 days ("
    ++ decimal_i64 used
    ++ codes " used)"
rejection_of organization none used = codes "This organization has no monthly send limit"
rejection_of organization (some limit) used =
    codes "This organization has reached its monthly send limit of "
    ++ decimal_i64 limit
    ++ codes " messages ("
    ++ decimal_i64 used
    ++ codes " used this month); it resets on the first day of the next month (UTC)"

unfoldable pub rejection_message : SendAllowance → Text
unfolding rejection_of
rejection_message a = rejection_of a.scope a.limit a.used
