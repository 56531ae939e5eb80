-- ===== src/Memory/Count/Once.antt =====
-- No usage threshold is announced twice.
use camelmailer.Base.{
  ℕ, ◌≡◌, refl, ap, true, false, Option, none, some, List, [], ◌∷◌, ◌++◌, leb_ℤ, any, all,
  any-append, all-append, unwrap_or, ◌>>=◌, ℤ, pos, map_get, arith, Bool-cases, inl, inr,
}
use camelmailer.Model.{EntityId, Organization, Server, OrganizationPolicy}
use camelmailer.Quota.{UsageMonth, reached_thresholds}
use camelmailer.Memory.{MemoryStore, UsageEvent, id_eq, month_eq, day_key_eq, month_key_eq}
use camelmailer.Memory.Count.{
  bump, day_of, alert_eq, announce, announce_all, count_month, count_outgoing,
}

-- What an event announces.
abbrev pub key_of : UsageEvent → EntityId × UsageMonth × ℕ
key_of e = (e.organization.id, e.month, e.threshold)

-- No two of the events announce one thing.
abbrev pub AreDistinct : List UsageEvent → Type 0
AreDistinct [] = Unit
AreDistinct (e ∷ es) = (any (λ f. alert_eq (key_of e) (key_of f)) es ≡ false) × AreDistinct es

-- No threshold of an organization and month was announced twice, and each event has its alert.
pub record IsAnnouncedOnce (db : MemoryStore) : Type 0 where
  pub distinct : AreDistinct db.lifecycle_events
  pub alerted : all (λ e. any (alert_eq (key_of e)) db.usage_alerts) db.lifecycle_events ≡ true

leb_ℤ-antisym : (a b : ℤ) → leb_ℤ a b ≡ true → leb_ℤ b a ≡ true → a ≡ b
leb_ℤ-antisym a b h k = ground arith

month_eq→eq : (a b : UsageMonth) → month_eq a b ≡ true → a ≡ b
unfolding month_eq
month_eq→eq a b h = ground (arith, leb_ℤ-antisym a.year b.year)

pub alert_eq→eq : (a b : EntityId × UsageMonth × ℕ) → alert_eq a b ≡ true → a ≡ b
unfolding alert_eq
alert_eq→eq a b h = ground (arith, month_eq→eq a.1 b.1)

pub leb_ℤ_refl : (a : ℤ) → leb_ℤ a a ≡ true
leb_ℤ_refl a = ground arith

pub alert_eq_refl : (a : EntityId × UsageMonth × ℕ) → alert_eq a a ≡ true
unfolding alert_eq month_eq
alert_eq_refl a = ground (arith, leb_ℤ_refl (a.1).year)

AreDistinct-append :
    (es : List UsageEvent) (e : UsageEvent)
    → AreDistinct es
    → any (λ f. alert_eq (key_of f) (key_of e)) es ≡ false
    → AreDistinct (es ++ e ∷ [])
AreDistinct-append [] e d h = (refl, tt)
AreDistinct-append (f ∷ es) e d h = (
  ground (arith, any-append (λ g. alert_eq (key_of f) (key_of g)) es (e ∷ [])),
  AreDistinct-append es e d.1 (ground arith),
)

-- An event of what no alert has is new.
none_of :
    (alerts : List (EntityId × UsageMonth × ℕ)) (k : EntityId × UsageMonth × ℕ)
    (es : List UsageEvent)
    → any (alert_eq k) alerts ≡ false
    → all (λ e. any (alert_eq (key_of e)) alerts) es ≡ true
    → any (λ e. alert_eq (key_of e) k) es ≡ false
none_of alerts k [] h a = refl
none_of alerts k (e ∷ es) h a = elim (Bool-cases (alert_eq (key_of e) k)) [
  | inl same ↦
      let moved : any (alert_eq (key_of e)) alerts ≡ any (alert_eq k) alerts =
        ap (λ x. any (alert_eq x) alerts) (alert_eq→eq (key_of e) k same) in
      ground arith
  | inr other ↦ rw other (none_of alerts k es h (ground arith))
]

all-more :
    (a : EntityId × UsageMonth × ℕ) (alerts : List (EntityId × UsageMonth × ℕ))
    (es : List UsageEvent)
    → all (λ e. any (alert_eq (key_of e)) alerts) es ≡ true
    → all (λ e. any (alert_eq (key_of e)) (a ∷ alerts)) es ≡ true
all-more a alerts [] h = refl
all-more a alerts (e ∷ es) h = ground (arith, all-more a alerts es)

announce-IsAnnouncedOnce :
    (o : Organization) (month : UsageMonth) (sent : ℤ) (limit : Option ℤ) (t : ℕ) (db : MemoryStore)
    → IsAnnouncedOnce db
    → IsAnnouncedOnce (announce o month sent limit t db)
unfolding announce
announce-IsAnnouncedOnce o month sent limit t db v =
    elim (Bool-cases (any (alert_eq (o.id, month, t)) db.usage_alerts)) [
      | inl old ↦ rw (announce, old) v
      | inr new ↦
          let e : UsageEvent = record {
            organization = o;
            month = month;
            threshold = t;
            sent = sent;
            limit = unwrap_or (pos 0) limit;
          } in
          rw (announce, new)
            (record {
              distinct =
                  AreDistinct-append db.lifecycle_events e v.distinct
                    (none_of db.usage_alerts (key_of e) db.lifecycle_events new v.alerted);
              alerted = ground (
                arith,
                all-append (λ f. any (alert_eq (key_of f)) ((o.id, month, t) ∷ db.usage_alerts))
                    db.lifecycle_events (e ∷ []),
                all-more (o.id, month, t) db.usage_alerts db.lifecycle_events v.alerted,
                alert_eq_refl (o.id, month, t),
              );
            })
    ]

announce_all-IsAnnouncedOnce :
    (o : Organization) (month : UsageMonth) (sent : ℤ) (limit : Option ℤ) (ts : List ℕ)
    (db : MemoryStore)
    → IsAnnouncedOnce db
    → IsAnnouncedOnce (announce_all o month sent limit ts db)
unfolding announce_all
announce_all-IsAnnouncedOnce o month sent limit [] db v = v
announce_all-IsAnnouncedOnce o month sent limit (t ∷ ts) db v =
    announce_all-IsAnnouncedOnce o month sent limit ts (announce o month sent limit t db)
      (announce-IsAnnouncedOnce o month sent limit t db v)

-- What the organization has sent in the month once a message is counted, and its limit.
abbrev pub counters_after :
    Organization → UsageMonth → MemoryStore → List ((EntityId × UsageMonth) × ℤ)
counters_after o month db = bump month_key_eq (o.id, month) db.organization_send_counters

abbrev pub sent_after : Organization → UsageMonth → MemoryStore → ℤ
sent_after o month db =
    unwrap_or (pos 0) (map_get month_key_eq (o.id, month) (counters_after o month db))

abbrev pub limit_of : Organization → MemoryStore → Option ℤ
limit_of o db =
    map_get id_eq o.id db.organization_policies >>= λ (p : OrganizationPolicy). p.monthly_send_limit

count_month-IsAnnouncedOnce :
    (o : Organization) (month : UsageMonth) (db : MemoryStore)
    → IsAnnouncedOnce db
    → IsAnnouncedOnce (count_month o month db)
unfolding count_month
count_month-IsAnnouncedOnce o month db v =
    announce_all-IsAnnouncedOnce o month (sent_after o month db) (limit_of o db)
      (reached_thresholds (sent_after o month db) (limit_of o db))
      (record db { organization_send_counters = counters_after o month db })
      (record { distinct = v.distinct; alerted = v.alerted })

counted_for-IsAnnouncedOnce :
    (o : Option Organization) (month : UsageMonth) (db : MemoryStore)
    → IsAnnouncedOnce db
    → IsAnnouncedOnce (elim o [ none ↦ db | some organization ↦ count_month organization month db ])
counted_for-IsAnnouncedOnce none month db v = v
counted_for-IsAnnouncedOnce (some o) month db v = count_month-IsAnnouncedOnce o month db v

-- The counters of a message announce no threshold again.
pub count_outgoing-IsAnnouncedOnce :
    (month_of : ℕ → UsageMonth) (server_id : EntityId) (at : ℕ) (db : MemoryStore)
    → IsAnnouncedOnce db
    → IsAnnouncedOnce (count_outgoing month_of server_id at db)
unfolding count_outgoing
count_outgoing-IsAnnouncedOnce month_of server_id at db v =
    counted_for-IsAnnouncedOnce
      (map_get id_eq server_id db.servers >>= λ (s : Server).
        map_get id_eq s.organization_id db.organizations)
      (month_of (day_of at))
      (record db { send_counters = bump day_key_eq (server_id, day_of at) db.send_counters })
      (record { distinct = v.distinct; alerted = v.alerted })
