-- ===== src/Memory/Count/Laws.antt =====
-- The counters and the alerts of a counted message.
use camelmailer.Base.{
  ℕ, ◌≡◌, refl, ap, ◌∙◌, Bool, true, ◌||◌, Option, some, List, [], ◌∷◌, any, all, unwrap_or, ℤ, pos,
  ◌+ℤ◌, wrap_i64, map_get, map_get-map_insert, arith, Bool-cases, inl, inr,
}
use camelmailer.Model.{EntityId, Organization}
use camelmailer.Quota.{UsageMonth}
use camelmailer.Memory.{MemoryStore, month_eq, month_key_eq}
use camelmailer.Memory.Count.Once.{alert_eq_refl, alert_eq→eq, leb_ℤ_refl}
use camelmailer.Memory.Count.{bump, alert_eq, announce, announce_all}

-- What the alerts are after a threshold is announced.
pub announced :
    (o : Organization) (month : UsageMonth) (sent : ℤ) (limit : Option ℤ) (t : ℕ)
    (k : EntityId × UsageMonth × ℕ) (db : MemoryStore)
    → any (alert_eq k) (announce o month sent limit t db).usage_alerts
      ≡ (any (alert_eq k) db.usage_alerts || alert_eq k (o.id, month, t))
unfolding announce
announced o month sent limit t k db = elim (Bool-cases (alert_eq k (o.id, month, t))) [
  | inl same ↦
      let moved : any (alert_eq k) db.usage_alerts
          ≡ any (alert_eq (o.id, month, t)) db.usage_alerts =
        ap (λ x. any (alert_eq x) db.usage_alerts) (alert_eq→eq k (o.id, month, t) same) in
      ground arith
  | inr other ↦ ground arith
]

-- An alert stays while more are announced.
announce_all_keeps :
    (o : Organization) (month : UsageMonth) (sent : ℤ) (limit : Option ℤ) (ts : List ℕ)
    (k : EntityId × UsageMonth × ℕ) (db : MemoryStore)
    → any (alert_eq k) db.usage_alerts ≡ true
    → any (alert_eq k) (announce_all o month sent limit ts db).usage_alerts ≡ true
unfolding announce_all
announce_all_keeps o month sent limit [] k db h = h
announce_all_keeps o month sent limit (t ∷ ts) k db h =
    announce_all_keeps o month sent limit ts k (announce o month sent limit t db)
      (announced o month sent limit t k db ∙ ap (λ b. b || alert_eq k (o.id, month, t)) h)

-- Whether the alerts have a threshold.
abbrev pub is_announced : Organization → UsageMonth → MemoryStore → ℕ → Bool
is_announced o month db t = any (alert_eq (o.id, month, t)) db.usage_alerts

pub announce_all_complete :
    (o : Organization) (month : UsageMonth) (sent : ℤ) (limit : Option ℤ) (ts : List ℕ)
    (db : MemoryStore)
    → all (is_announced o month (announce_all o month sent limit ts db)) ts ≡ true
unfolding announce_all
announce_all_complete o month sent limit [] db = refl
announce_all_complete o month sent limit (t ∷ ts) db =
    let first : any (alert_eq (o.id, month, t)) (announce o month sent limit t db).usage_alerts
        ≡ true =
      announced o month sent limit t (o.id, month, t) db
      ∙ ground (arith, alert_eq_refl (o.id, month, t)) in
    ground (
      arith,
      announce_all_keeps o month sent limit ts (o.id, month, t) (announce o month sent limit t db)
          first,
      announce_all_complete o month sent limit ts (announce o month sent limit t db),
    )

announce-counters :
    (o : Organization) (month : UsageMonth) (sent : ℤ) (limit : Option ℤ) (t : ℕ) (db : MemoryStore)
    → (announce o month sent limit t db).organization_send_counters ≡ db.organization_send_counters
unfolding announce
announce-counters o month sent limit t db = ground arith

pub announce_all-counters :
    (o : Organization) (month : UsageMonth) (sent : ℤ) (limit : Option ℤ) (ts : List ℕ)
    (db : MemoryStore)
    → (announce_all o month sent limit ts db).organization_send_counters
      ≡ db.organization_send_counters
unfolding announce_all
announce_all-counters o month sent limit [] db = refl
announce_all-counters o month sent limit (t ∷ ts) db =
    announce_all-counters o month sent limit ts (announce o month sent limit t db)
    ∙ announce-counters o month sent limit t db

month_key_eq_refl : (a : EntityId × UsageMonth) → month_key_eq a a ≡ true
unfolding month_key_eq month_eq
month_key_eq_refl a = ground (arith, leb_ℤ_refl (a.1).year)

pub bump_lem :
    (k : EntityId × UsageMonth) (counters : List ((EntityId × UsageMonth) × ℤ))
    → map_get month_key_eq k (bump month_key_eq k counters)
      ≡ some (wrap_i64 (unwrap_or (pos 0) (map_get month_key_eq k counters) +ℤ pos 1))
unfolding bump
bump_lem k counters =
    map_get-map_insert month_key_eq k
      (wrap_i64 (unwrap_or (pos 0) (map_get month_key_eq k counters) +ℤ pos 1)) counters
      month_key_eq_refl
