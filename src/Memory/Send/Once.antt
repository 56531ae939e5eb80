-- ===== src/Memory/Send/Once.antt =====
-- A send is stored once under its key, whatever else the store does in between.
use camelmailer.Base.{
  ℕ, suc, ◌%◌, ◌<◌, ◌≡◌, ◌≢◌, refl, sym, ap, ◌∙◌, true, false, ◌&&◌, Option, none, some, List, [],
  ◌∷◌, if◌then◌else◌, map_get, map_get-map_insert, map_get-map_insert_other,
  map_get-map_remove_other, map_get-filter, arith, Bool-cases, inl, inr,
}
use camelmailer.Text.{Text, text_eq}
use camelmailer.Text.Laws.{text_eq→eq}
use camelmailer.Model.{EntityId}
use camelmailer.Message.{QueuedMessage, is_outgoing, IdempotencyRequest}
use camelmailer.Memory.{SendOperationResult, MemoryIdempotencyRecord, MemoryStore, request_key_eq}
use camelmailer.Memory.Inbound.{requeue_inbound}
use camelmailer.Memory.Send.Laws.{request_key_eq_refl, stored_of, result_of_remember}
use camelmailer.Memory.Send.Valid.{counted-Keeps}
use camelmailer.Memory.Send.History.{Step, sends, requeues, requeues_inbound, prunes}
use camelmailer.Memory.Send.{
  PendingUnsubscribeToken, SendPlanMessage, SendPlanItem, plan_messages, plan_error, stored_send,
  replayed_send, conflicting_send, IdempotencyLookup, fresh, replay, clash, lookup_of,
  idempotency_result, Tools, insert_message_record, add_token, store_messages, store_item,
  store_plan, remember, forget, insert_send_operation, is_live, prune_idempotency_requests_at,
  requeue_outbound,
}

request_key_eq_moves :
    (a b c : EntityId × Text) → request_key_eq a b ≡ true → request_key_eq a c ≡ request_key_eq b c
unfolding request_key_eq
request_key_eq_moves a b c h =
    let e : a.1 ≡ b.1 = text_eq→eq a.1 b.1 (ground arith) in
    ground (arith, ap (λ (t : Text). text_eq t c.1) e)

module _ (tools : Tools) (now : ℕ) where
  -- What a plan stores leaves the idempotency records alone.
  insert_message_record-requests :
      (message : QueuedMessage) (db : MemoryStore)
      → (insert_message_record tools now message db).1.idempotency_requests
        ≡ db.idempotency_requests
  unfolding insert_message_record
  insert_message_record-requests message db =
      (counted-Keeps tools now (is_outgoing message.scope) message.server_id
        (record db { next_id = suc db.next_id % 18446744073709551616 })).2

  add_token-requests :
      (server_id : EntityId) (t : Option PendingUnsubscribeToken) (db : MemoryStore)
      → (add_token tools now server_id t db).idempotency_requests ≡ db.idempotency_requests
  unfolding add_token
  add_token-requests server_id none db = refl
  add_token-requests server_id (some t) db = refl

  store_messages-requests :
      (server_id : EntityId) (ms : List SendPlanMessage) (db : MemoryStore)
      → (store_messages tools now server_id ms db).1.idempotency_requests ≡ db.idempotency_requests
  unfolding store_messages
  store_messages-requests server_id [] db = refl
  store_messages-requests server_id (p ∷ ms) db =
      let d = add_token tools now server_id p.unsubscribe_token db in
      store_messages-requests server_id ms (insert_message_record tools now p.message d).1
      ∙ (insert_message_record-requests p.message d
          ∙ add_token-requests server_id p.unsubscribe_token db)

  store_plan-requests :
      (server_id : EntityId) (plan : List SendPlanItem) (db : MemoryStore)
      → (store_plan tools now server_id plan db).1.idempotency_requests ≡ db.idempotency_requests
  unfolding store_plan store_item
  store_plan-requests server_id [] db = refl
  store_plan-requests server_id (plan_error code text ∷ plan) db =
      store_plan-requests server_id plan db
  store_plan-requests server_id (plan_messages ms ∷ plan) db =
      store_plan-requests server_id plan (store_messages tools now server_id ms db).1
      ∙ store_messages-requests server_id ms db

-- The store has the record under the key.
abbrev Has : EntityId × Text → MemoryIdempotencyRecord → MemoryStore → Type 0
Has k r db = map_get request_key_eq k db.idempotency_requests ≡ some r

-- When an operation looks at the clock; one that does not counts as the earliest.
abbrev pub time_of : {tools : Tools} {d e : MemoryStore} → Step tools d e → ℕ
time_of (sends now server_id plan request db) = now
time_of (requeues server_id message_id db) = 0
time_of (requeues_inbound server_id message_id bypass db) = 0
time_of (prunes now db) = now

-- Operations before a time, any number of them and in any order.
pub data ReachBefore (tools : Tools) (limit : ℕ) (db : MemoryStore) : MemoryStore → Type 0 where
  here_before : ReachBefore tools limit db db
  next_before :
      {d e : MemoryStore}
      → ReachBefore tools limit db d
      → (s : Step tools d e) → time_of s < limit
      → ReachBefore tools limit db e

fresh_lookup-absent :
    (now : ℕ) (request : IdempotencyRequest) (r : MemoryIdempotencyRecord)
    → now < r.expires_at
    → lookup_of now request (some r) ≢ fresh
unfolding lookup_of
fresh_lookup-absent now request r live = λ e. ground arith

-- A record that is still live at the time of a send is not that of a key that the send finds free.
fresh-other :
    (now : ℕ) (server_id : EntityId) (request : IdempotencyRequest) (k : EntityId × Text)
    (r : MemoryIdempotencyRecord) (db : MemoryStore)
    → now < r.expires_at
    → Has k r db
    → idempotency_result now db server_id request ≡ fresh
    → request_key_eq (server_id, request.key_hash) k ≡ false
unfolding request_key_eq idempotency_result
fresh-other now server_id request (s, h) r db live has e =
    elim (Bool-cases (request_key_eq (server_id, request.key_hash) (s, h))) [
      | inr other ↦ other
      | inl same ↦
          let a : server_id ≡ s = ground arith in
          let b : request.key_hash ≡ h = text_eq→eq request.key_hash h (ground arith) in
          absurd (fresh_lookup-absent now request r live (rw (a, b, has) at e))
    ]

remember-Has :
    (tools : Tools) (now : ℕ) (server_id : EntityId) (request : IdempotencyRequest)
    (k : EntityId × Text) (r : MemoryIdempotencyRecord) (p : SendOperationResult × MemoryStore)
    → request_key_eq (server_id, request.key_hash) k ≡ false
    → Has k r p.1
    → Has k r (remember tools now server_id (some request) p).1
unfolding remember
remember-Has tools now server_id request k r (response, db) other has =
    map_get-map_insert_other request_key_eq k (server_id, request.key_hash) other
      request_key_eq_moves _ db.idempotency_requests
    ∙ has

forget-Has :
    (tools : Tools) (now : ℕ) (server_id : EntityId) (request : IdempotencyRequest)
    (k : EntityId × Text) (r : MemoryIdempotencyRecord) (db : MemoryStore)
    → request_key_eq (server_id, request.key_hash) k ≡ false
    → Has k r db
    → Has k r (forget tools now server_id request db)
unfolding forget
forget-Has tools now server_id request k r db other has =
    map_get-map_remove_other request_key_eq k (server_id, request.key_hash) other
      request_key_eq_moves db.idempotency_requests
    ∙ has

store_plan-Has :
    (tools : Tools) (now : ℕ) (server_id : EntityId) (plan : List SendPlanItem)
    (k : EntityId × Text) (r : MemoryIdempotencyRecord) (db : MemoryStore)
    → Has k r db
    → Has k r (store_plan tools now server_id plan db).1
store_plan-Has tools now server_id plan k r db has =
    ap (map_get request_key_eq k) (store_plan-requests tools now server_id plan db) ∙ has

send-Has :
    (tools : Tools) (now : ℕ) (server_id : EntityId) (plan : List SendPlanItem)
    (request : IdempotencyRequest) (k : EntityId × Text) (r : MemoryIdempotencyRecord)
    (db : MemoryStore) (l : IdempotencyLookup)
    → idempotency_result now db server_id request ≡ l
    → now < r.expires_at
    → Has k r db
    → Has k r (insert_send_operation tools now server_id plan (some request) db).1
unfolding insert_send_operation
send-Has tools now server_id plan request k r db (replay response) e live has =
    rw (insert_send_operation, e) has
send-Has tools now server_id plan request k r db clash e live has =
    rw (insert_send_operation, e) has
send-Has tools now server_id plan request k r db fresh e live has =
    let other = fresh-other now server_id request k r db live has e in
    let forgotten = forget tools now server_id request db in
    rw (insert_send_operation, e)
      (remember-Has tools now server_id request k r (store_plan tools now server_id plan forgotten)
        other
        (store_plan-Has tools now server_id plan k r forgotten
          (forget-Has tools now server_id request k r db other has)))

-- An operation before a record expires leaves it in its place.
Step-Has :
    (tools : Tools) {d e : MemoryStore} (k : EntityId × Text) (r : MemoryIdempotencyRecord)
    (s : Step tools d e)
    → time_of s < r.expires_at
    → Has k r d
    → Has k r e
unfolding requeue_outbound requeue_inbound prune_idempotency_requests_at is_live
    insert_send_operation remember
Step-Has tools k r (sends now server_id plan none db) live has =
    store_plan-Has tools now server_id plan k r db has
Step-Has tools k r (sends now server_id plan (some request) db) live has =
    send-Has tools now server_id plan request k r db _ refl live has
Step-Has tools k r (requeues server_id message_id db) live has = has
Step-Has tools k r (requeues_inbound server_id message_id bypass db) live has = has
Step-Has tools k r (prunes now db) live has =
    map_get-filter request_key_eq (is_live now) k r db.idempotency_requests (λ a. ground arith) has

ReachBefore-Has :
    (tools : Tools) (k : EntityId × Text) (r : MemoryIdempotencyRecord) {d e : MemoryStore}
    → ReachBefore tools r.expires_at d e
    → Has k r d
    → Has k r e
ReachBefore-Has tools k r here_before has = has
ReachBefore-Has tools k r (next_before before s live) has =
    Step-Has tools k r s live (ReachBefore-Has tools k r before has)

-- What a store answers to a request whose key has a live record.
lookup_of-Has :
    (tools : Tools) (now : ℕ) (server_id : EntityId) (plan : List SendPlanItem)
    (request : IdempotencyRequest) (r : MemoryIdempotencyRecord) (db : MemoryStore)
    → now < r.expires_at
    → Has (server_id, request.key_hash) r db
    → insert_send_operation tools now server_id plan (some request) db ≡ (
      if text_eq r.request_hash request.request_hash && text_eq r.operation request.operation
          then replayed_send r.response
          else conflicting_send,
      db,
    )
unfolding insert_send_operation idempotency_result lookup_of
lookup_of-Has tools now server_id plan request r db live has =
    outcome _ refl (ap (lookup_of now request) has)
  where
    outcome :
        (l : IdempotencyLookup)
        → idempotency_result now db server_id request ≡ l
        → l ≡ lookup_of now request (some r)
        → insert_send_operation tools now server_id plan (some request) db ≡ (
          if text_eq r.request_hash request.request_hash && text_eq r.operation request.operation
              then replayed_send r.response
              else conflicting_send,
          db,
        )
    outcome (replay response) e h = rw (insert_send_operation, e) (unfold lookup_of in ground arith)
    outcome clash e h = rw (insert_send_operation, e) (unfold lookup_of in ground arith)
    outcome fresh e h = absurd (fresh_lookup-absent now request r live (sym h))

-- The record that a send leaves behind.
abbrev pub record_of : IdempotencyRequest → SendOperationResult → MemoryIdempotencyRecord
record_of request response = record {
  request_hash = request.request_hash;
  operation = request.operation;
  response = response;
  expires_at = request.expires_at;
}

stored-Has :
    (tools : Tools) (now : ℕ) (server_id : EntityId) (plan : List SendPlanItem)
    (request : IdempotencyRequest) (db d : MemoryStore) (response : SendOperationResult)
    → insert_send_operation tools now server_id plan (some request) db ≡ (stored_send response, d)
    → Has (server_id, request.key_hash) (record_of request response) d
unfolding remember
stored-Has tools now server_id plan request db d response e =
    let (p, h) = stored_of tools now server_id plan request db d response _ refl e in
    let (h0, h1) = result_of_remember tools now server_id request p d response h in
    ap
      (λ (x : MemoryStore).
        map_get request_key_eq (server_id, request.key_hash) x.idempotency_requests)
      (sym h1)
    ∙ (map_get-map_insert request_key_eq (server_id, request.key_hash) (record_of request p.0)
          p.1.idempotency_requests request_key_eq_refl
        ∙ ap (λ x. some (record_of request x)) h0)

-- A send that was stored under a key stays the only one of its key until it expires: whatever sends,
-- requeues and prunings come after it, in any order, each of them before it expires, a further request of
-- the server under the same key before then stores nothing and changes nothing, whatever is planned. It
-- gets the response of the first time where request and operation are the same, and a conflict otherwise.
pub insert_send_operation_once :
    (tools : Tools) (now later : ℕ) (server_id : EntityId) (plan plan' : List SendPlanItem)
    (request request' : IdempotencyRequest) (db d e : MemoryStore) (response : SendOperationResult)
    → insert_send_operation tools now server_id plan (some request) db ≡ (stored_send response, d)
    → ReachBefore tools request.expires_at d e
    → later < request.expires_at
    → request'.key_hash ≡ request.key_hash
    → insert_send_operation tools later server_id plan' (some request') e ≡ (
      if text_eq request.request_hash request'.request_hash
            && text_eq request.operation request'.operation
          then replayed_send response
          else conflicting_send,
      e,
    )
insert_send_operation_once tools now later server_id plan plan' request request' db d e response
      done before live same =
    lookup_of-Has tools later server_id plan' request' (record_of request response) e live (
      rw same (
        ReachBefore-Has tools (server_id, request.key_hash) (record_of request response) before
          (stored-Has tools now server_id plan request db d response done)))
