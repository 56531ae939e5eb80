-- ===== src/Memory/Send/Laws.antt =====
-- When a send is stored under a key.
use camelmailer.Base.{ℕ, ◌≡◌, ap, true, some, List, arith}
use camelmailer.Text.{Text}
use camelmailer.Text.Laws.{text_eq_refl}
use camelmailer.Model.{EntityId}
use camelmailer.Message.{IdempotencyRequest}
use camelmailer.Memory.{SendOperationResult, MemoryStore, request_key_eq}
use camelmailer.Memory.Send.{
  SendPlanItem, stored_send, IdempotencyLookup, fresh, replay, clash, idempotency_result, Tools,
  remember, forget, store_plan, insert_send_operation,
}

pub request_key_eq_refl : (a : EntityId × Text) → request_key_eq a a ≡ true
unfolding request_key_eq
request_key_eq_refl a = ground (arith, text_eq_refl a.1)

module _ (tools : Tools) where
  -- Only a fresh key stores a plan.
  pub stored_of :
      (now : ℕ) (server_id : EntityId) (plan : List SendPlanItem) (request : IdempotencyRequest)
      (db db' : MemoryStore) (response : SendOperationResult) (l : IdempotencyLookup)
      → idempotency_result now db server_id request ≡ l
      → insert_send_operation tools now server_id plan (some request) db
        ≡ (stored_send response, db')
      → (r : SendOperationResult × MemoryStore) × (remember tools now server_id (some request) r
          ≡ (stored_send response, db'))
  unfolding insert_send_operation
  stored_of now server_id plan request db db' response fresh h e = (
    store_plan tools now server_id plan (forget tools now server_id request db),
    rw (insert_send_operation, h) at e,
  )
  stored_of now server_id plan request db db' response (replay r) h e =
      ground (arith, rw (insert_send_operation, h) at e)
  stored_of now server_id plan request db db' response clash h e =
      ground (arith, rw (insert_send_operation, h) at e)

  pub result_of_remember :
      (now : ℕ) (server_id : EntityId) (request : IdempotencyRequest)
      (r : SendOperationResult × MemoryStore) (db' : MemoryStore) (response : SendOperationResult)
      → remember tools now server_id (some request) r ≡ (stored_send response, db')
      → (r.0 ≡ response) × ((remember tools now server_id (some request) r).1 ≡ db')
  unfolding remember
  result_of_remember now server_id request (response', db) db' response e = (cc, ap (λ x. x.1) e)
