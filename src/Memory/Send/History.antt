-- ===== src/Memory/Send/History.antt =====
-- Any history of sends, requeues and prunings keeps the store well formed.
use camelmailer.Base.{
  ℤ, pos, ltb_ℤ, length, i64_half, ◌+◌, ◌<◌, ℕ, ◌≡◌, refl, ◌∙◌, Bool, Option, List, [], ◌∷◌, all,
  arith, Bool-cases, inl, inr,
}
use camelmailer.Text.{codes}
use camelmailer.Model.{EntityId}
use camelmailer.Message.{IdempotencyRequest}
use camelmailer.Memory.{MessageRecord, MemoryStore}
use camelmailer.Memory.Send.Valid.{
  IsAscending, IsSound, Grows, Grows-refl, Grows-trans, Grows-same, insert_send_operation-Grows,
}
use camelmailer.Memory.Inbound.{waiting, update_first, requeue_inbound}
use camelmailer.Memory.Send.{
  SendPlanItem, Tools, insert_send_operation, requeue_outbound, retry_in, retry_of, with_retry,
  is_message_of, prune_idempotency_requests_at,
}

with_retry-id : (m : MessageRecord) → (with_retry (retry_of m) m).id ≡ m.id
unfolding retry_of with_retry
with_retry-id m = ground arith

-- A requeued message keeps its id and its place.
all-retry :
    (q : ℤ → Bool) (p : MessageRecord → Bool) (ms : List MessageRecord)
    → all (λ m. q m.id) (retry_in p ms).1 ≡ all (λ m. q m.id) ms
unfolding retry_in
all-retry q p [] = refl
all-retry q p (m ∷ ms) = elim (Bool-cases (p m)) [
  | inl yes_it ↦ rw (yes_it, with_retry-id m) refl
  | inr other ↦ rw (other, all-retry q p ms) refl
]

retry-IsAscending :
    (p : MessageRecord → Bool) (ms : List MessageRecord)
    → IsAscending ms
    → IsAscending (retry_in p ms).1
unfolding retry_in
retry-IsAscending p [] a = tt
retry-IsAscending p (m ∷ ms) a = elim (Bool-cases (p m)) [
  | inl yes_it ↦ rw (yes_it, with_retry-id m) a
  | inr other ↦ rw (other, all-retry (λ i. ltb_ℤ m.id i) p ms) (a.0, retry-IsAscending p ms a.1)
]

length-retry :
    (p : MessageRecord → Bool) (ms : List MessageRecord) → length (retry_in p ms).1 ≡ length ms
unfolding retry_in
length-retry p [] = refl
length-retry p (m ∷ ms) = ground (arith, length-retry p ms)

-- Requeueing a message keeps the store sound.
pub requeue_outbound-IsSound :
    (server_id : EntityId) (message_id : ℤ) (db : MemoryStore)
    → IsSound db
    → IsSound (requeue_outbound server_id message_id db).1
unfolding requeue_outbound
requeue_outbound-IsSound server_id message_id db v =
    let p = is_message_of server_id message_id (codes "outgoing") in
    record {
      numbered = record {
        ascending = retry-IsAscending p db.messages v.numbered.ascending;
        below = all-retry (λ i. ltb_ℤ i (pos db.next_id)) p db.messages ∙ v.numbered.below;
      };
      announced = record { distinct = v.announced.distinct; alerted = v.announced.alerted };
    }

all-update :
    (q : ℤ → Bool) (p : MessageRecord → Bool) (bypass : Bool) (ms : List MessageRecord)
    → all (λ m. q m.id) (update_first p (waiting bypass) ms).1 ≡ all (λ m. q m.id) ms
unfolding update_first waiting
all-update q p bypass [] = refl
all-update q p bypass (m ∷ ms) = elim (Bool-cases (p m)) [
  | inl this ↦ rw this refl
  | inr other ↦ rw (other, all-update q p bypass ms) refl
]

update-IsAscending :
    (p : MessageRecord → Bool) (bypass : Bool) (ms : List MessageRecord)
    → IsAscending ms
    → IsAscending (update_first p (waiting bypass) ms).1
unfolding update_first waiting
update-IsAscending p bypass [] a = tt
update-IsAscending p bypass (m ∷ ms) a = elim (Bool-cases (p m)) [
  | inl this ↦ rw this a
  | inr other ↦
      rw (other, all-update (λ i. ltb_ℤ m.id i) p bypass ms)
        (a.0, update-IsAscending p bypass ms a.1)
]

length-update :
    (p : MessageRecord → Bool) (bypass : Bool) (ms : List MessageRecord)
    → length (update_first p (waiting bypass) ms).1 ≡ length ms
unfolding update_first
length-update p bypass [] = refl
length-update p bypass (m ∷ ms) = ground (arith, length-update p bypass ms)

-- Requeueing an incoming message keeps the store sound.
pub requeue_inbound-IsSound :
    (server_id : EntityId) (message_id : ℤ) (bypass : Bool) (db : MemoryStore)
    → IsSound db
    → IsSound (requeue_inbound server_id message_id bypass db).1
unfolding requeue_inbound
requeue_inbound-IsSound server_id message_id bypass db v =
    let p = is_message_of server_id message_id (codes "incoming") in
    record {
      numbered = record {
        ascending = update-IsAscending p bypass db.messages v.numbered.ascending;
        below = all-update (λ i. ltb_ℤ i (pos db.next_id)) p bypass db.messages ∙ v.numbered.below;
      };
      announced = record { distinct = v.announced.distinct; alerted = v.announced.alerted };
    }

-- Dropping the expired idempotency records keeps the store sound.
pub prune_idempotency_requests_at-IsSound :
    (now : ℕ) (db : MemoryStore) → IsSound db → IsSound (prune_idempotency_requests_at now db).1
unfolding prune_idempotency_requests_at
prune_idempotency_requests_at-IsSound now db v = record {
  numbered = record { ascending = v.numbered.ascending; below = v.numbered.below };
  announced = record { distinct = v.announced.distinct; alerted = v.announced.alerted };
}

-- One operation of the store's clients, at any time and in any order.
pub data Step (tools : Tools) : MemoryStore → MemoryStore → Type 0 where
  sends :
      (now : ℕ) (server_id : EntityId) (plan : List SendPlanItem)
      (request : Option IdempotencyRequest) (db : MemoryStore)
      → Step tools db (insert_send_operation tools now server_id plan request db).1
  requeues :
      (server_id : EntityId) (message_id : ℤ) (db : MemoryStore)
      → Step tools db (requeue_outbound server_id message_id db).1
  requeues_inbound :
      (server_id : EntityId) (message_id : ℤ) (bypass : Bool) (db : MemoryStore)
      → Step tools db (requeue_inbound server_id message_id bypass db).1
  prunes : (now : ℕ) (db : MemoryStore) → Step tools db (prune_idempotency_requests_at now db).1

pub data Reach (tools : Tools) (db : MemoryStore) : MemoryStore → Type 0 where
  here : Reach tools db db
  next : {d e : MemoryStore} → Reach tools db d → Step tools d e → Reach tools db e

Step-Grows : (tools : Tools) {d e : MemoryStore} → Step tools d e → Grows d e
unfolding requeue_outbound requeue_inbound prune_idempotency_requests_at
Step-Grows tools (sends now server_id plan request db) =
    insert_send_operation-Grows tools now server_id plan request db
Step-Grows tools (requeues server_id message_id db) =
    Grows-same db _
      (length-retry (is_message_of server_id message_id (codes "outgoing")) db.messages) refl
      (requeue_outbound-IsSound server_id message_id db)
Step-Grows tools (requeues_inbound server_id message_id bypass db) =
    Grows-same db _
      (length-update (is_message_of server_id message_id (codes "incoming")) bypass db.messages)
      refl (requeue_inbound-IsSound server_id message_id bypass db)
Step-Grows tools (prunes now db) =
    Grows-same db _ refl refl (prune_idempotency_requests_at-IsSound now db)

Reach-Grows : (tools : Tools) {d e : MemoryStore} → Reach tools d e → Grows d e
Reach-Grows tools {d} here = Grows-refl d
Reach-Grows tools {d} (next {d = c} {e = e} r s) =
    Grows-trans d c e (Reach-Grows tools r) (Step-Grows tools s)

-- Whatever sends, requeues and prunings lead from a sound store to another one, in any order and at any
-- times, the ids of the messages ascend there below the next one, no two events announce the same
-- threshold of an organization and month, and each event has its alert: as long as the next id and the
-- messages that were gained are together below 2 ^ 63, past which the `i64` of an id is negative.
pub Reach-IsSound :
    (tools : Tools) {d e : MemoryStore}
    → Reach tools d e
    → d.next_id + length e.messages < i64_half + length d.messages
    → IsSound d
    → IsSound e
Reach-IsSound tools r b v = ((Reach-Grows tools r).keeps b v).0
