-- ===== src/Memory/Count/Events.antt =====
-- What a counted message adds: to the counter of its organization's month, to the alerts and to the
-- lifecycle events.
use camelmailer.Base.{
  ℕ, ◌≡◌, refl, sym, ap, ◌∙◌, true, false, not, Option, none, some, List, [], ◌∷◌, ◌++◌, map,
  append_assoc, append-nil, any, all, filter, ◌==◌, unwrap_or, ℤ, pos, ◌+ℤ◌, wrap_i64, arith,
  Bool-cases, inl, inr,
}
use camelmailer.Model.{Organization}
use camelmailer.Quota.{UsageMonth, reached_thresholds}
use camelmailer.Memory.{MemoryStore, UsageEvent}
use camelmailer.Memory.Lookup.{organization_month_usage}
use camelmailer.Memory.Count.Once.{counters_after, limit_of, sent_after}
use camelmailer.Memory.Count.{alert_eq, announce, announce_all, count_month}
use camelmailer.Memory.Count.Laws.{
  is_announced, announced, announce_all_complete, announce_all-counters, bump_lem,
}

-- What a client is told of a threshold.
abbrev pub event_of : Organization → UsageMonth → ℤ → Option ℤ → ℕ → UsageEvent
event_of o month sent limit t = record {
  organization = o;
  month = month;
  threshold = t;
  sent = sent;
  limit = unwrap_or (pos 0) limit;
}

-- The thresholds that have no alert yet.
abbrev pub unannounced : Organization → UsageMonth → MemoryStore → List ℕ → List ℕ
unannounced o month db ts = filter (λ t. not (is_announced o month db t)) ts

abbrev Differ : List ℕ → Type 0
Differ [] = Unit
Differ (t ∷ ts) = (any (λ u. u == t) ts ≡ false) × Differ ts

alert_eq_other :
    (o : Organization) (month : UsageMonth) (t u : ℕ)
    → (u == t) ≡ false
    → alert_eq (o.id, month, u) (o.id, month, t) ≡ false
unfolding alert_eq
alert_eq_other o month t u h = ground arith

unannounced-announce :
    (o : Organization) (month : UsageMonth) (sent : ℤ) (limit : Option ℤ) (t : ℕ) (ts : List ℕ)
    (db : MemoryStore)
    → any (λ u. u == t) ts ≡ false
    → unannounced o month (announce o month sent limit t db) ts ≡ unannounced o month db ts
unannounced-announce o month sent limit t [] db h = refl
unannounced-announce o month sent limit t (u ∷ ts) db h =
    let same : is_announced o month (announce o month sent limit t db) u
        ≡ is_announced o month db u =
      announced o month sent limit t (o.id, month, u) db
      ∙ ground (arith, alert_eq_other o month t u) in
    rw (same, unannounced-announce o month sent limit t ts db (ground arith)) refl

announce-none :
    (o : Organization) (month : UsageMonth) (sent : ℤ) (limit : Option ℤ) (t : ℕ) (db : MemoryStore)
    → is_announced o month db t ≡ true
    → (announce o month sent limit t db).lifecycle_events ≡ db.lifecycle_events
unfolding announce
announce-none o month sent limit t db h = rw h refl

announce-event :
    (o : Organization) (month : UsageMonth) (sent : ℤ) (limit : Option ℤ) (t : ℕ) (db : MemoryStore)
    → is_announced o month db t ≡ false
    → (announce o month sent limit t db).lifecycle_events
      ≡ db.lifecycle_events ++ event_of o month sent limit t ∷ []
unfolding announce
announce-event o month sent limit t db h = rw h refl

-- The events of thresholds that differ: one for each that had no alert, in order.
announce_all-events :
    (o : Organization) (month : UsageMonth) (sent : ℤ) (limit : Option ℤ) (ts : List ℕ)
    (db : MemoryStore)
    → Differ ts
    → (announce_all o month sent limit ts db).lifecycle_events
      ≡ db.lifecycle_events ++ map (event_of o month sent limit) (unannounced o month db ts)
unfolding announce_all
announce_all-events o month sent limit [] db d = sym (append-nil db.lifecycle_events)
announce_all-events o month sent limit (t ∷ ts) db d =
    let event = event_of o month sent limit in
    let next = announce o month sent limit t db in
    let rest =
      announce_all-events o month sent limit ts next d.1
      ∙ ap (λ us. next.lifecycle_events ++ map event us)
          (unannounced-announce o month sent limit t ts db d.0) in
    elim (Bool-cases (is_announced o month db t)) [
      | inl old ↦
          let skipped : unannounced o month db (t ∷ ts) ≡ unannounced o month db ts = rw old refl in
          rest
          ∙ (ap (λ es. es ++ map event (unannounced o month db ts))
                (announce-none o month sent limit t db old)
              ∙ ap (λ us. db.lifecycle_events ++ map event us) (sym skipped))
      | inr new ↦
          let taken : unannounced o month db (t ∷ ts) ≡ t ∷ unannounced o month db ts =
            rw new refl in
          rest
          ∙ (ap (λ es. es ++ map event (unannounced o month db ts))
                (announce-event o month sent limit t db new)
              ∙ (append_assoc db.lifecycle_events (event t ∷ [])
                    (map event (unannounced o month db ts))
                  ∙ ap (λ us. db.lifecycle_events ++ map event us) (sym taken)))
    ]

reached_thresholds-Differ : (sent : ℤ) (limit : Option ℤ) → Differ (reached_thresholds sent limit)
unfolding reached_thresholds
reached_thresholds-Differ sent none = tt
reached_thresholds-Differ sent (some limit) = ground arith

-- To count a message adds one to what its organization has sent in the month. Every threshold which
-- that number reaches under the organization's limit then has its alert, and the lifecycle events gain
-- one for each of these thresholds that had no alert before, in order, with the number, and no other.
pub count_month_complete :
    (o : Organization) (month : UsageMonth) (db : MemoryStore)
    → let e = count_month o month db in
      let sent = organization_month_usage month e o.id in
      let reached = reached_thresholds sent (limit_of o db) in
      (sent ≡ wrap_i64 (organization_month_usage month db o.id +ℤ pos 1))
      × (all (is_announced o month e) reached ≡ true)
      × (e.lifecycle_events
          ≡ db.lifecycle_events
            ++ map (event_of o month sent (limit_of o db)) (unannounced o month db reached))
unfolding count_month organization_month_usage
count_month_complete o month db =
    let after = record db { organization_send_counters = counters_after o month db } in
    let reached = reached_thresholds (sent_after o month db) (limit_of o db) in
    let same : (announce_all o month (sent_after o month db) (limit_of o db) reached
          after).organization_send_counters
        ≡ counters_after o month db =
      announce_all-counters o month (sent_after o month db) (limit_of o db) reached after in
    (
      rw (same, bump_lem (o.id, month) db.organization_send_counters) refl,
      rw same (announce_all_complete o month (sent_after o month db) (limit_of o db) reached after),
      rw same (
          announce_all-events o month (sent_after o month db) (limit_of o db) reached after
            (reached_thresholds-Differ (sent_after o month db) (limit_of o db))),
    )
