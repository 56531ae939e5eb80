-- ===== src/Retention/Laws.antt =====
-- Message content never outlives the row of its message, whatever the configuration and the overrides
-- say; and an organization without overrides has the installation's periods.
use camelmailer.Base.{ℕ, ◌≤◌, ◌≡◌, refl, true, Option, none, some, arith}
use camelmailer.Retention.{
  RetentionPeriods, RetentionOverrides, is_empty, capped, normalized, from_days, with_overrides,
  pick, days,
}

-- The first period ends no later than the second.
abbrev pub IsWithin : Option ℕ → Option ℕ → Type 0
IsWithin content none = Unit
IsWithin none (some metadata) = ⊥
IsWithin (some content) (some metadata) = content ≤ metadata

capped-IsWithin : (content metadata : Option ℕ) → IsWithin (capped content metadata) metadata
unfolding capped
capped-IsWithin content none = tt
capped-IsWithin none (some m) = omega arith
capped-IsWithin (some c) (some m) = ground arith

capped_within :
    (content metadata : Option ℕ) → IsWithin content metadata → capped content metadata ≡ content
unfolding capped
capped_within content none h = refl
capped_within none (some m) h = absurd h
capped_within (some c) (some m) h = ground arith

-- After an organization's overrides, message content is kept no longer than the row of its message,
-- whatever the installation's periods were.
pub with_overrides-IsWithin :
    (p : RetentionPeriods) (o : RetentionOverrides)
    → IsWithin (with_overrides p o).message_content_days (with_overrides p o).message_metadata_days
unfolding with_overrides normalized
with_overrides-IsWithin p o =
    capped-IsWithin (pick p.message_content_days o.message_content_days)
      (pick p.message_metadata_days o.message_metadata_days)

-- An organization without overrides has the periods of an installation that were read from its
-- configuration.
pub with_overrides-from_days :
    (content metadata webhook_log dmarc : ℕ) (o : RetentionOverrides)
    → is_empty o ≡ true
    → with_overrides (from_days content metadata webhook_log dmarc) o
      ≡ from_days content metadata webhook_log dmarc
unfolding with_overrides from_days normalized is_empty pick
with_overrides-from_days content metadata webhook_log dmarc o h = ground (
  arith,
  capped_within (capped (days content) (days metadata)) (days metadata)
      (capped-IsWithin (days content) (days metadata)),
)
