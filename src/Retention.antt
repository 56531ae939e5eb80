-- ===== src/Retention.antt =====
-- crates/camelmailer-core/src/retention.rs: the retention periods of an installation and the overrides
-- of an organization. A period is a number of days, a `u32`; `none` keeps the data forever.
pub mod Laws
mod Tests
use camelmailer.Base.{ℕ, Bool, not, Option, none, some, ltb, if◌then◌else◌, ◌&&◌, is_some}

pub record RetentionPeriods : Type 0 where
  pub message_content_days : Option ℕ
  pub message_metadata_days : Option ℕ
  pub webhook_log_days : Option ℕ
  pub dmarc_report_days : Option ℕ

-- `none` inherits, and `some 0` keeps forever.
pub record RetentionOverrides : Type 0 where
  pub message_content_days : Option ℕ
  pub message_metadata_days : Option ℕ
  pub webhook_log_days : Option ℕ
  pub dmarc_report_days : Option ℕ

unfoldable pub is_empty : RetentionOverrides → Bool
is_empty o =
    not (is_some o.message_content_days)
    && not (is_some o.message_metadata_days)
    && not (is_some o.webhook_log_days)
    && not (is_some o.dmarc_report_days)

unfoldable pub days : ℕ → Option ℕ
days value = if ltb 0 value then some value else none

-- `Ord::min`
unfoldable pub min : ℕ → ℕ → ℕ
min a b = if ltb b a then b else a

-- The content period under a metadata period.
unfoldable pub capped : Option ℕ → Option ℕ → Option ℕ
unfolding min
capped content none = content
capped none (some metadata) = some metadata
capped (some content) (some metadata) = some (min content metadata)

unfoldable pub normalized : RetentionPeriods → RetentionPeriods
unfolding capped
normalized p = record p {
  message_content_days = capped p.message_content_days p.message_metadata_days;
}

unfoldable pub from_days : ℕ → ℕ → ℕ → ℕ → RetentionPeriods
unfolding days normalized
from_days content metadata webhook_log dmarc = normalized (record {
  message_content_days = days content;
  message_metadata_days = days metadata;
  webhook_log_days = days webhook_log;
  dmarc_report_days = days dmarc;
})

unfoldable pub pick : Option ℕ → Option ℕ → Option ℕ
unfolding days
pick default none = default
pick default (some value) = days value

unfoldable pub with_overrides : RetentionPeriods → RetentionOverrides → RetentionPeriods
unfolding pick normalized
with_overrides p o = normalized (record {
  message_content_days = pick p.message_content_days o.message_content_days;
  message_metadata_days = pick p.message_metadata_days o.message_metadata_days;
  webhook_log_days = pick p.webhook_log_days o.webhook_log_days;
  dmarc_report_days = pick p.dmarc_report_days o.dmarc_report_days;
})
