-- ===== src/Memory/Send/Valid.antt =====
-- The store stays well formed: message ids ascend below the next one, and no threshold is announced
-- twice.
use camelmailer.Base.{
  ltb_ℤ, pos, length, length-append, i64_half, wrap_i64_id, ◌+◌, ◌≤◌, ◌<◌, ◌%◌, ap, ℕ, suc, ◌≡◌,
  refl, ◌∙◌, Bool, true, false, Option, none, some, List, [], ◌∷◌, ◌++◌, if◌then◌else◌, all,
  all-append, ℤ, map_get, arith, ◌>>=◌,
}
use camelmailer.Model.{EntityId, Organization, Server}
use camelmailer.Quota.{UsageMonth, reached_thresholds}
use camelmailer.Message.{QueuedMessage, IdempotencyRequest, is_outgoing}
use camelmailer.Memory.{MessageRecord, MemoryStore, SendOperationResult, id_eq, day_key_eq}
use camelmailer.Memory.Count.{bump, day_of, announce, announce_all, count_month, count_outgoing}
use camelmailer.Memory.Count.Once.{
  counters_after, sent_after, limit_of, IsAnnouncedOnce, count_outgoing-IsAnnouncedOnce,
}
use camelmailer.Memory.Send.{
  SendPlanMessage, SendPlanItem, plan_messages, plan_error, PendingUnsubscribeToken, fresh, replay,
  clash, IdempotencyLookup, idempotency_result, Tools, build_message_record, insert_message_record,
  add_token, store_messages, store_item, store_plan, remember, forget, insert_send_operation,
}

-- The ids of the messages ascend.
abbrev pub IsAscending : List MessageRecord → Type 0
IsAscending [] = Unit
IsAscending (m ∷ ms) = (all (λ x. ltb_ℤ m.id x.id) ms ≡ true) × IsAscending ms

pub record IsNumbered (db : MemoryStore) : Type 0 where
  pub ascending : IsAscending db.messages
  pub below : all (λ m. ltb_ℤ m.id (pos db.next_id)) db.messages ≡ true

IsAscending-append :
    (ms : List MessageRecord) (r : MessageRecord)
    → IsAscending ms
    → all (λ m. ltb_ℤ m.id r.id) ms ≡ true
    → IsAscending (ms ++ r ∷ [])
IsAscending-append [] r a b = (refl, tt)
IsAscending-append (m ∷ ms) r a b = (
  ground (arith, all-append (λ x. ltb_ℤ m.id x.id) ms (r ∷ [])),
  IsAscending-append ms r a.1 (ground arith),
)

ltb_ℤ-suc : (a : ℤ) (n : ℕ) → ltb_ℤ a (pos n) ≡ true → ltb_ℤ a (pos (suc n)) ≡ true
ltb_ℤ-suc a n h = ground arith

all-suc :
    (n : ℕ) (ms : List MessageRecord)
    → all (λ m. ltb_ℤ m.id (pos n)) ms ≡ true
    → all (λ m. ltb_ℤ m.id (pos (suc n))) ms ≡ true
all-suc n [] h = refl
all-suc n (m ∷ ms) h = ground (arith, ltb_ℤ-suc m.id n, all-suc n ms)

-- A store in which the ids ascend and no threshold was announced twice.
pub record IsSound (db : MemoryStore) : Type 0 where
  pub numbered : IsNumbered db
  pub announced : IsAnnouncedOnce db

-- From `d` to `e` the store only grows, takes one id for each message that it gains, and stays sound as
-- long as these ids are below 2 ^ 63, where an `i64` turns negative.
pub record Grows (d e : MemoryStore) : Type 0 where
  pub longer : length d.messages ≤ length e.messages
  pub keeps :
      d.next_id + length e.messages < i64_half + length d.messages
      → IsSound d
      → IsSound e × (e.next_id + length d.messages ≡ d.next_id + length e.messages)

pub Grows-refl : (d : MemoryStore) → Grows d d
Grows-refl d = record { longer = omega arith; keeps = λ b v. (v, refl) }

pub Grows-trans : (d e f : MemoryStore) → Grows d e → Grows e f → Grows d f
Grows-trans d e f g h = record {
  longer = omega (arith, g.longer, h.longer);
  keeps = λ b v.
      let (ve, ee) = g.keeps (omega (arith, h.longer, b)) v in
      let (vf, ef) = h.keeps (omega (arith, ee, b)) ve in (vf, omega (arith, ee, ef));
}

-- What leaves messages, ids, alerts and events alone.
pub Grows-same :
    (d e : MemoryStore)
    → length e.messages ≡ length d.messages
    → e.next_id ≡ d.next_id
    → (IsSound d → IsSound e)
    → Grows d e
Grows-same d e l n k = record {
  longer = omega (arith, l);
  keeps = λ b v. (k v, omega (arith, l, n));
}

-- What an operation that leaves the messages, the next id and the idempotency records alone does.
abbrev pub Keeps : MemoryStore → MemoryStore → Type 0
Keeps db db' =
    (db'.messages ≡ db.messages)
    × (db'.next_id ≡ db.next_id)
    × (db'.idempotency_requests ≡ db.idempotency_requests)

announce-Keeps :
    (o : Organization) (month : UsageMonth) (sent : ℤ) (limit : Option ℤ) (t : ℕ) (db : MemoryStore)
    → Keeps db (announce o month sent limit t db)
unfolding announce
announce-Keeps o month sent limit t db = (ground arith, ground arith, ground arith)

announce_all-Keeps :
    (o : Organization) (month : UsageMonth) (sent : ℤ) (limit : Option ℤ) (ts : List ℕ)
    (db : MemoryStore)
    → Keeps db (announce_all o month sent limit ts db)
unfolding announce_all
announce_all-Keeps o month sent limit [] db = (refl, refl, refl)
announce_all-Keeps o month sent limit (t ∷ ts) db =
    let (a, b, r) = announce_all-Keeps o month sent limit ts (announce o month sent limit t db) in
    let (c, d, q) = announce-Keeps o month sent limit t db in (a ∙ c, b ∙ d, r ∙ q)

counted_for-Keeps :
    (o : Option Organization) (month : UsageMonth) (db : MemoryStore)
    → Keeps db (elim o [ none ↦ db | some organization ↦ count_month organization month db ])
unfolding count_month
counted_for-Keeps none month db = (refl, refl, refl)
counted_for-Keeps (some o) month db =
    announce_all-Keeps o month (sent_after o month db) (limit_of o db)
      (reached_thresholds (sent_after o month db) (limit_of o db))
      (record db { organization_send_counters = counters_after o month db })

count_outgoing-Keeps :
    (month_of : ℕ → UsageMonth) (server_id : EntityId) (at : ℕ) (db : MemoryStore)
    → Keeps db (count_outgoing month_of server_id at db)
unfolding count_outgoing
count_outgoing-Keeps month_of server_id at db =
    counted_for-Keeps
      (map_get id_eq server_id db.servers >>= λ (s : Server).
        map_get id_eq s.organization_id db.organizations)
      (month_of (day_of at))
      (record db { send_counters = bump day_key_eq (server_id, day_of at) db.send_counters })

module _ (tools : Tools) (now : ℕ) where
  -- A numbered store with one message more, of the id that was next.
  added-IsNumbered :
      (db db' : MemoryStore) (message : QueuedMessage)
      → db.next_id < i64_half
      → IsNumbered db
      → db'.messages ≡ db.messages
      → db'.next_id ≡ suc db.next_id
      → IsNumbered (record db' {
        messages = db'.messages ++ build_message_record tools now message db.next_id ∷ [];
      })
  added-IsNumbered db db' message b v m n =
      let r = build_message_record tools now message db.next_id in
      let i : r.id ≡ pos db.next_id =
        unfold build_message_record in wrap_i64_id (pos db.next_id) b in
      let k : ltb_ℤ r.id (pos (suc db.next_id)) ≡ true = rw i (ground arith) in
      rw m (record {
        ascending = IsAscending-append db.messages r v.ascending (rw i v.below);
        below = rw n (
            all-append (λ x. ltb_ℤ x.id (pos (suc db.next_id))) db.messages (r ∷ [])
            ∙ ground (arith, all-suc db.next_id db.messages v.below, k));
      })

  pub counted-Keeps :
      (b : Bool) (server_id : EntityId) (db : MemoryStore)
      → Keeps db (if b then count_outgoing tools.month_of server_id now db else db)
  counted-Keeps true server_id db = count_outgoing-Keeps tools.month_of server_id now db
  counted-Keeps false server_id db = (refl, refl, refl)

  counted-IsAnnouncedOnce :
      (b : Bool) (server_id : EntityId) (db : MemoryStore)
      → IsAnnouncedOnce db
      → IsAnnouncedOnce (if b then count_outgoing tools.month_of server_id now db else db)
  counted-IsAnnouncedOnce true server_id db v =
      count_outgoing-IsAnnouncedOnce tools.month_of server_id now db v
  counted-IsAnnouncedOnce false server_id db v = v

  added-Grows :
      (db db' : MemoryStore) (message : QueuedMessage)
      → db'.messages ≡ db.messages
      → db'.next_id ≡ suc db.next_id % 18446744073709551616
      → (IsAnnouncedOnce db → IsAnnouncedOnce db')
      → Grows db (record db' {
        messages = db'.messages ++ build_message_record tools now message db.next_id ∷ [];
      })
  added-Grows db db' message m n a =
      let r = build_message_record tools now message db.next_id in
      let l : length (db'.messages ++ r ∷ []) ≡ length db.messages + 1 =
        length-append db'.messages (r ∷ []) ∙ ap (λ (x : List MessageRecord). length x + 1) m in
      record {
        longer = omega (arith, l);
        keeps = λ b v.
            let room : suc db.next_id < 9223372036854775809 = omega (arith, l, b) in
            let n' : db'.next_id ≡ suc db.next_id = n ∙ omega (arith, room) in
            let v' = a v.announced in
            (
              record {
                numbered = added-IsNumbered db db' message (omega (arith, room)) v.numbered m n';
                announced = record { distinct = v'.distinct; alerted = v'.alerted };
              },
              omega (arith, l, n'),
            );
      }

  insert_message_record-Grows :
      (message : QueuedMessage) (db : MemoryStore)
      → Grows db (insert_message_record tools now message db).1
  unfolding insert_message_record
  insert_message_record-Grows message db =
      let taken = record db { next_id = suc db.next_id % 18446744073709551616 } in
      let (m, n, _) = counted-Keeps (is_outgoing message.scope) message.server_id taken in
      added-Grows db
        (if is_outgoing message.scope
          then count_outgoing tools.month_of message.server_id now taken
          else taken)
        message m n
        (λ a.
          counted-IsAnnouncedOnce (is_outgoing message.scope) message.server_id taken
            (record { distinct = a.distinct; alerted = a.alerted }))

  add_token-Grows :
      (server_id : EntityId) (t : Option PendingUnsubscribeToken) (db : MemoryStore)
      → Grows db (add_token tools now server_id t db)
  unfolding add_token
  add_token-Grows server_id none db = Grows-refl db
  add_token-Grows server_id (some t) db = Grows-same db _ refl refl (λ v. record {
    numbered = record { ascending = v.numbered.ascending; below = v.numbered.below };
    announced = record { distinct = v.announced.distinct; alerted = v.announced.alerted };
  })

  store_messages-Grows :
      (server_id : EntityId) (ms : List SendPlanMessage) (db : MemoryStore)
      → Grows db (store_messages tools now server_id ms db).1
  unfolding store_messages
  store_messages-Grows server_id [] db = Grows-refl db
  store_messages-Grows server_id (p ∷ ms) db =
      let d = add_token tools now server_id p.unsubscribe_token db in
      let e = (insert_message_record tools now p.message d).1 in
      Grows-trans db d (store_messages tools now server_id ms e).1
        (add_token-Grows server_id p.unsubscribe_token db)
        (Grows-trans d e (store_messages tools now server_id ms e).1
          (insert_message_record-Grows p.message d) (store_messages-Grows server_id ms e))

  store_item-Grows :
      (server_id : EntityId) (item : SendPlanItem) (db : MemoryStore)
      → Grows db (store_item tools now server_id item db).1
  unfolding store_item
  store_item-Grows server_id (plan_messages ms) db = store_messages-Grows server_id ms db
  store_item-Grows server_id (plan_error code text) db = Grows-refl db

  store_plan-Grows :
      (server_id : EntityId) (plan : List SendPlanItem) (db : MemoryStore)
      → Grows db (store_plan tools now server_id plan db).1
  unfolding store_plan
  store_plan-Grows server_id [] db = Grows-refl db
  store_plan-Grows server_id (item ∷ plan) db =
      let e = (store_item tools now server_id item db).1 in
      Grows-trans db e (store_plan tools now server_id plan e).1
        (store_item-Grows server_id item db) (store_plan-Grows server_id plan e)

  remember-Grows :
      (server_id : EntityId) (request : Option IdempotencyRequest)
      (r : SendOperationResult × MemoryStore)
      → Grows r.1 (remember tools now server_id request r).1
  unfolding remember
  remember-Grows server_id none (response, db) = Grows-refl db
  remember-Grows server_id (some request) (response, db) = Grows-same db _ refl refl (λ v. record {
    numbered = record { ascending = v.numbered.ascending; below = v.numbered.below };
    announced = record { distinct = v.announced.distinct; alerted = v.announced.alerted };
  })

  forget-Grows :
      (server_id : EntityId) (request : IdempotencyRequest) (db : MemoryStore)
      → Grows db (forget tools now server_id request db)
  unfolding forget
  forget-Grows server_id request db = Grows-same db _ refl refl (λ v. record {
    numbered = record { ascending = v.numbered.ascending; below = v.numbered.below };
    announced = record { distinct = v.announced.distinct; alerted = v.announced.alerted };
  })

  stored-Grows :
      (server_id : EntityId) (plan : List SendPlanItem) (request : Option IdempotencyRequest)
      (db : MemoryStore)
      → Grows db (remember tools now server_id request (store_plan tools now server_id plan db)).1
  stored-Grows server_id plan request db =
      let r = store_plan tools now server_id plan db in
      Grows-trans db r.1 (remember tools now server_id request r).1
        (store_plan-Grows server_id plan db) (remember-Grows server_id request r)

  sent-Grows :
      (l : IdempotencyLookup) (server_id : EntityId) (plan : List SendPlanItem)
      (request : IdempotencyRequest) (db : MemoryStore)
      → idempotency_result now db server_id request ≡ l
      → Grows db (insert_send_operation tools now server_id plan (some request) db).1
  unfolding insert_send_operation
  sent-Grows fresh server_id plan request db e =
      let d = forget tools now server_id request db in
      rw (insert_send_operation, e)
        (Grows-trans db d _ (forget-Grows server_id request db)
          (stored-Grows server_id plan (some request) d))
  sent-Grows (replay response) server_id plan request db e =
      rw (insert_send_operation, e) (Grows-refl db)
  sent-Grows clash server_id plan request db e = rw (insert_send_operation, e) (Grows-refl db)

  -- A send grows the store.
  pub insert_send_operation-Grows :
      (server_id : EntityId) (plan : List SendPlanItem) (request : Option IdempotencyRequest)
      (db : MemoryStore)
      → Grows db (insert_send_operation tools now server_id plan request db).1
  unfolding insert_send_operation
  insert_send_operation-Grows server_id plan none db = stored-Grows server_id plan none db
  insert_send_operation-Grows server_id plan (some request) db =
      sent-Grows (idempotency_result now db server_id request) server_id plan request db refl
