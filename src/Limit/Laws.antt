-- ===== src/Limit/Laws.antt =====
-- What an allowance promises.
use camelmailer.Base.{
  ◌≡◌, ◌&&◌, ◌↔◌, true, arith, some, ℤ, pos, ◌≤ℤ◌, ◌+ℤ◌, ◌-ℤ◌, IsI64, wrap_i64_id,
}
use camelmailer.Limit.{SendAllowance, LimitScope, stricter, allows, remaining}

-- Exactly what both allowances admit is admitted by the stricter of them.
pub allows-stricter :
    (self other : SendAllowance) (count : ℤ)
    → allows (stricter self other) count ≡ (allows self count && allows other count)
unfolding stricter allows
allows-stricter self other count = ground arith

-- Where the difference of limit and usage is an `i64`, a positive number of messages is admitted
-- exactly if usage and messages together stay within the limit.
pub allows-limit :
    (limit used count : ℤ) (scope : LimitScope)
    → IsI64 (limit -ℤ used)
    → pos 1 ≤ℤ count
    → (allows (record { limit = some limit; used = used; scope = scope }) count ≡ true)
      ↔ (used +ℤ count ≤ℤ limit)
unfolding allows remaining ◌+ℤ◌ ◌-ℤ◌
allows-limit limit used count scope h k = ground (arith, wrap_i64_id (limit -ℤ used) h)
