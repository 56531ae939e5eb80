-- ===== src/Memory/Count.antt =====
-- `count_outgoing` of crates/camelmailer-core/src/store.rs: the counters of a stored outgoing message,
-- and the usage thresholds that it crosses.
pub mod Once
pub mod Laws
pub mod Events
use camelmailer.Base.{
  ℕ, ◌/◌, ◌&&◌, Bool, Option, none, some, List, [], ◌∷◌, ◌++◌, ◌==◌, if◌then◌else◌, any, unwrap_or,
  ◌>>=◌, ℤ, pos, ◌+ℤ◌, wrap_i64, map_get, map_insert,
}
use camelmailer.Model.{EntityId, Organization, Server, OrganizationPolicy}
use camelmailer.Quota.{UsageMonth, reached_thresholds}
use camelmailer.Memory.{MemoryStore, UsageEvent, id_eq, month_eq, day_key_eq, month_key_eq}

-- `at.date_naive()`, as the number of a day
unfoldable pub day_of : ℕ → ℕ
day_of at = at / 86400

-- `*map.entry(key).or_insert(0) += 1`, which wraps in a release build
unfoldable pub bump : {K : Type 0} → (K → K → Bool) → K → List (K × ℤ) → List (K × ℤ)
unfolding map_get map_insert wrap_i64 ◌+ℤ◌
bump eq k counters =
    map_insert eq k (wrap_i64 (unwrap_or (pos 0) (map_get eq k counters) +ℤ pos 1)) counters

unfoldable pub alert_eq : EntityId × UsageMonth × ℕ → EntityId × UsageMonth × ℕ → Bool
unfolding month_eq
alert_eq a b = a.0 == b.0 && month_eq a.1 b.1 && a.2 == b.2

-- A threshold that was not announced yet is, with its event.
unfoldable pub announce : Organization → UsageMonth → ℤ → Option ℤ → ℕ → MemoryStore → MemoryStore
unfolding alert_eq
announce organization month sent limit threshold db =
    if any (alert_eq (organization.id, month, threshold)) db.usage_alerts then db else record db {
      usage_alerts = (organization.id, month, threshold) ∷ db.usage_alerts;
      lifecycle_events =
          db.lifecycle_events
          ++ record {
            organization = organization;
            month = month;
            threshold = threshold;
            sent = sent;
            limit = unwrap_or (pos 0) limit;
          }
            ∷ [];
    }

unfoldable pub announce_all :
    Organization → UsageMonth → ℤ → Option ℤ → List ℕ → MemoryStore → MemoryStore
unfolding announce
announce_all organization month sent limit [] db = db
announce_all organization month sent limit (t ∷ ts) db =
    announce_all organization month sent limit ts (announce organization month sent limit t db)

-- The counter of the organization's month, and the thresholds of its value.
unfoldable pub count_month : Organization → UsageMonth → MemoryStore → MemoryStore
unfolding bump announce_all reached_thresholds map_get month_key_eq id_eq
count_month organization month db =
    let counters = bump month_key_eq (organization.id, month) db.organization_send_counters in
    let sent = unwrap_or (pos 0) (map_get month_key_eq (organization.id, month) counters) in
    let limit =
      map_get id_eq organization.id db.organization_policies >>= λ (p : OrganizationPolicy).
      p.monthly_send_limit in
    announce_all organization month sent limit (reached_thresholds sent limit)
      (record db { organization_send_counters = counters })

-- `month_of` is the calendar: the month of a day.
unfoldable pub count_outgoing : (ℕ → UsageMonth) → EntityId → ℕ → MemoryStore → MemoryStore
unfolding bump day_of day_key_eq count_month map_get id_eq
count_outgoing month_of server_id at db =
    let counted = record db {
      send_counters = bump day_key_eq (server_id, day_of at) db.send_counters;
    } in
    elim (map_get id_eq server_id db.servers >>= λ (s : Server).
    map_get id_eq s.organization_id db.organizations) [
      | none ↦ counted
      | some organization ↦ count_month organization (month_of (day_of at)) counted
    ]
