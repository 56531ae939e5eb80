-- ===== src/Retention/Tests.antt =====
-- Retention at concrete periods.
use camelmailer.Base.{◌≡◌, refl, none, some}
use camelmailer.Retention.{RetentionOverrides, from_days, with_overrides}

abbrev short_metadata : RetentionOverrides
short_metadata = record {
  message_content_days = none;
  message_metadata_days = some 10;
  webhook_log_days = none;
  dmarc_report_days = none;
}

-- The content goes with the row.
content_follows :
    (with_overrides (from_days 30 365 90 180) short_metadata).message_content_days
    ≡ (with_overrides (from_days 30 365 90 180) short_metadata).message_metadata_days
unfolding with_overrides from_days
content_follows = refl
