-- ===== src/Memory/Send.antt =====
-- The send operations of `MemoryStore` in crates/camelmailer-core/src/store.rs: storing a planned send
-- once under its idempotency key, requeueing, pruning and deleting. The clock of one call is one value.
pub mod Laws
pub mod Valid
pub mod History
pub mod Once
use camelmailer.Base.{
  ℤ, pos, wrap_i64, leb_ℤ, ◌%◌, ℕ, suc, ◌-◌, ◌&&◌, ◌||◌, not, Bool, true, false, Option, none, some,
  List, [], ◌∷◌, ◌++◌, ltb, ◌==◌, if◌then◌else◌, is_empty, is_some, any, filter, length, map_option,
  map_get, map_insert, map_remove, first?,
}
use camelmailer.Text.{Text, Bytes, codes, text_eq}
use camelmailer.Model.{EntityId}
use camelmailer.Quota.{UsageMonth}
use camelmailer.Message.{
  MessageScope, incoming, outgoing, is_outgoing, QueuedMessage, IdempotencyRequest,
}
use camelmailer.Message.Headers.{header_value}
use camelmailer.Memory.{
  MessageRecord, SentMessage, StoredSendResult, SendOperationItem, success, failure,
  SendOperationResult, MemoryIdempotencyRecord, MemoryStore, id_eq, request_key_eq,
}
use camelmailer.Memory.Count.{count_outgoing}

pub record PendingUnsubscribeToken : Type 0 where
  pub token : Text
  pub stream_id : Option EntityId
  pub address : Text

pub record SendPlanMessage : Type 0 where
  pub message : QueuedMessage
  pub unsubscribe_token : Option PendingUnsubscribeToken

pub data SendPlanItem : Type 0 where
  plan_messages : List SendPlanMessage → SendPlanItem
  plan_error : Text → Text → SendPlanItem

pub data IdempotencyLookup : Type 0 where
  fresh : IdempotencyLookup
  replay : SendOperationResult → IdempotencyLookup
  clash : IdempotencyLookup

pub data StoreSendOutcome : Type 0 where
  stored_send replayed_send : SendOperationResult → StoreSendOutcome
  conflicting_send : StoreSendOutcome

scope_name : MessageScope → Text
unfolding codes
scope_name incoming = codes "incoming"
scope_name outgoing = codes "outgoing"

-- The answer of a record of an earlier operation.
unfoldable pub lookup_of :
    ℕ → IdempotencyRequest → Option MemoryIdempotencyRecord → IdempotencyLookup
unfolding text_eq
lookup_of now request none = fresh
lookup_of now request (some r) =
    if not (ltb now r.expires_at)
    then fresh
    else if not (text_eq r.request_hash request.request_hash)
        || not (text_eq r.operation request.operation)
    then clash
    else replay r.response

unfoldable pub idempotency_result :
    ℕ → MemoryStore → EntityId → IdempotencyRequest → IdempotencyLookup
unfolding lookup_of map_get request_key_eq
idempotency_result now db server_id request =
    lookup_of now request
      (map_get request_key_eq (server_id, request.key_hash) db.idempotency_requests)

-- The calendar, the random tokens (of the message with an id), the lossy decoding of bytes and the
-- lower case of Unicode.
pub record Tools : Type 0 where
  pub month_of : ℕ → UsageMonth
  pub token_of : ℕ → Text
  pub from_utf8_lossy : Bytes → Text
  pub to_lowercase : Text → Text

module _ (tools : Tools) (now : ℕ) where
  unfoldable pub build_message_record : QueuedMessage → ℕ → MessageRecord
  unfolding header_value scope_name codes wrap_i64
  build_message_record message id = record {
    id = wrap_i64 (pos id);
    token = tools.token_of id;
    server_id = message.server_id;
    scope = scope_name message.scope;
    rcpt_to = message.rcpt_to;
    mail_from = message.mail_from;
    subject =
        header_value tools.from_utf8_lossy tools.to_lowercase message.raw_message (codes "subject");
    message_id_header =
        header_value tools.from_utf8_lossy tools.to_lowercase message.raw_message
          (codes "message-id");
    tag = message.tag;
    status = codes "Pending";
    bounce = message.bounce;
    bounce_for_id = none;
    bounce_correlated_at = none;
    bounce_category = none;
    spam_status = codes "NotChecked";
    held = false;
    threat = false;
    size = length message.raw_message;
    metadata = message.metadata;
    stream_id = message.stream_id;
    campaign_id = none;
    bypassed = false;
    created_at = now;
    raw_message = message.raw_message;
  }

  -- A message in the store, counted if it is outgoing.
  unfoldable pub insert_message_record : QueuedMessage → MemoryStore → SentMessage × MemoryStore
  unfolding build_message_record count_outgoing wrap_i64
  insert_message_record message db =
      let id = db.next_id in
      let taken = record db { next_id = suc id % 18446744073709551616 } in
      let counted =
        (if is_outgoing message.scope
          then count_outgoing tools.month_of message.server_id now taken
          else taken) in
      (
        record { id = wrap_i64 (pos id); token = tools.token_of id; rcpt_to = message.rcpt_to },
        record counted { messages = counted.messages ++ build_message_record message id ∷ [] },
      )

  unfoldable pub add_token : EntityId → Option PendingUnsubscribeToken → MemoryStore → MemoryStore
  add_token server_id none db = db
  add_token server_id (some t) db = record db {
    unsubscribe_tokens = db.unsubscribe_tokens ++ (t.token, server_id, t.stream_id, t.address) ∷ [];
  }

  unfoldable pub store_messages :
      EntityId → List SendPlanMessage → MemoryStore → List SentMessage × MemoryStore
  unfolding insert_message_record add_token
  store_messages server_id [] db = ([], db)
  store_messages server_id (planned ∷ rest) db =
      let r =
        insert_message_record planned.message (add_token server_id planned.unsubscribe_token db) in
      let rs = store_messages server_id rest r.1 in (r.0 ∷ rs.0, rs.1)

  unfoldable pub store_item :
      EntityId → SendPlanItem → MemoryStore → SendOperationItem × MemoryStore
  unfolding store_messages
  store_item server_id (plan_error code message) db = (failure code message, db)
  store_item server_id (plan_messages messages) db =
      let r = store_messages server_id messages db in
      (
        success (record {
          message_id = map_option (λ (m : SentMessage). m.id) (first? r.0);
          recipients = r.0;
        }),
        r.1,
      )

  unfoldable pub store_plan :
      EntityId → List SendPlanItem → MemoryStore → SendOperationResult × MemoryStore
  unfolding store_item
  store_plan server_id [] db = ([], db)
  store_plan server_id (item ∷ items) db =
      let r = store_item server_id item db in
      let rs = store_plan server_id items r.1 in (r.0 ∷ rs.0, rs.1)

  unfoldable pub remember :
      EntityId
      → Option IdempotencyRequest
      → SendOperationResult × MemoryStore
      → StoreSendOutcome × MemoryStore
  unfolding map_insert request_key_eq
  remember server_id none (response, db) = (stored_send response, db)
  remember server_id (some request) (response, db) = (
    stored_send response,
    record db {
      idempotency_requests =
          map_insert request_key_eq (server_id, request.key_hash)
            (record {
              request_hash = request.request_hash;
              operation = request.operation;
              response = response;
              expires_at = request.expires_at;
            })
            db.idempotency_requests;
    },
  )

  forget : EntityId → IdempotencyRequest → MemoryStore → MemoryStore
  unfolding map_remove request_key_eq
  forget server_id request db = record db {
    idempotency_requests =
        map_remove request_key_eq (server_id, request.key_hash) db.idempotency_requests;
  }

  -- A live record answers; one that is not live is removed before the plan is stored.
  unfoldable pub insert_send_operation :
      EntityId
      → List SendPlanItem
      → Option IdempotencyRequest
      → MemoryStore
      → StoreSendOutcome × MemoryStore
  unfolding idempotency_result store_plan remember forget
  insert_send_operation server_id plan none db =
      remember server_id none (store_plan server_id plan db)
  insert_send_operation server_id plan (some request) db =
      elim (idempotency_result now db server_id request) [
        | replay response ↦ (replayed_send response, db)
        | clash ↦ (conflicting_send, db)
        | fresh ↦
            remember server_id (some request)
              (store_plan server_id plan (forget server_id request db))
      ]

is_live : ℕ → (EntityId × Text) × MemoryIdempotencyRecord → Bool
is_live now entry = ltb now entry.1.expires_at

unfoldable pub prune_idempotency_requests_at : ℕ → MemoryStore → ℕ × MemoryStore
unfolding is_live
prune_idempotency_requests_at now db =
    let kept = filter (is_live now) db.idempotency_requests in
    (length db.idempotency_requests - length kept, record db { idempotency_requests = kept })

unfoldable pub delete_organization : EntityId → MemoryStore → Bool × MemoryStore
unfolding map_remove map_get id_eq
delete_organization id db = (
  is_some (map_get id_eq id db.organizations),
  record db {
    billing_customer_ids = map_remove id_eq id db.billing_customer_ids;
    organization_policies = map_remove id_eq id db.organization_policies;
    organization_send_counters = filter (λ e. not (e.0.0 == id)) db.organization_send_counters;
    usage_alerts = filter (λ a. not (a.0 == id)) db.usage_alerts;
    organizations = map_remove id_eq id db.organizations;
  },
)

pub data OutboundRetry : Type 0 where
  requeued : MessageRecord → OutboundRetry
  not_found content_purged : OutboundRetry
  not_retryable : Text → OutboundRetry

unfoldable pub is_retryable : Text → Bool
unfolding text_eq codes
is_retryable status =
    any (text_eq status) (codes "Pending" ∷ codes "SoftFail" ∷ codes "HardFail" ∷ [])

unfoldable pub is_message_of : EntityId → ℤ → Text → MessageRecord → Bool
unfolding text_eq
is_message_of server_id message_id scope m =
    leb_ℤ m.id message_id
    && leb_ℤ message_id m.id
    && m.server_id == server_id
    && text_eq m.scope scope

retry_of : MessageRecord → OutboundRetry
unfolding is_retryable codes
retry_of m =
    if not (is_retryable m.status)
    then not_retryable m.status
    else if is_empty m.raw_message
    then content_purged
    else requeued (record m { status = codes "Pending"; held = false })

-- The record in its place, if it was requeued.
with_retry : OutboundRetry → MessageRecord → MessageRecord
with_retry (requeued m') m = m'
with_retry _ m = m

-- `iter_mut().find(..)` on the messages
unfoldable pub retry_in :
    (MessageRecord → Bool) → List MessageRecord → OutboundRetry × List MessageRecord
unfolding retry_of with_retry
retry_in p [] = (not_found, [])
retry_in p (m ∷ ms) =
    let rest = retry_in p ms in
    if p m then (retry_of m, with_retry (retry_of m) m ∷ ms) else (rest.0, m ∷ rest.1)

unfoldable pub requeue_outbound : EntityId → ℤ → MemoryStore → OutboundRetry × MemoryStore
unfolding retry_in is_message_of codes
requeue_outbound server_id message_id db =
    let r = retry_in (is_message_of server_id message_id (codes "outgoing")) db.messages in
    (r.0, record db { messages = r.1 })
