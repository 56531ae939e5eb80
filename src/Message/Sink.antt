-- ===== src/Message/Sink.antt =====
-- `MemorySink` of message.rs: a list of messages and the idempotency cache, a map from the pair of
-- a server and a key's hash. The lock around both makes each call one step.
pub mod Laws
pub mod Refines
pub mod Once
mod Tests
use camelmailer.Base.{
  ℕ, ◌&&◌, Bool, Option, none, some, List, [], ◌∷◌, ◌++◌, ltb, ◌==◌, if◌then◌else◌, pos,
  count_where, filter, not, first?, unwrap_or, map_option,
}
use camelmailer.Text.{Text, text_eq}
use camelmailer.Model.{EntityId}
use camelmailer.Limit.{SendAllowance, allows, rejection_message}
use camelmailer.Message.{
  QueuedMessage, is_outgoing, IdempotencyRequest, QueueMessagesOutcome, stored, replayed, conflict,
  limit_exceeded,
}

-- An entry of `idempotency_requests`: its key and its value.
pub record CacheEntry : Type 0 where
  pub server_id : EntityId
  pub key_hash : Text
  pub request_hash : Text
  pub operation : Text
  pub expires_at : ℕ

pub record MemorySink : Type 0 where
  pub messages : List QueuedMessage
  pub idempotency_requests : List CacheEntry

unfoldable pub empty_sink : MemorySink
empty_sink = record { messages = []; idempotency_requests = [] }

unfoldable pub has_key : EntityId → Text → CacheEntry → Bool
unfolding text_eq
has_key server_id key_hash e = e.server_id == server_id && text_eq e.key_hash key_hash

unfoldable pub cache_get : EntityId → Text → List CacheEntry → Option CacheEntry
unfolding has_key
cache_get sid key [] = none
cache_get sid key (e ∷ r) = if has_key sid key e then some e else cache_get sid key r

unfoldable pub cache_remove : EntityId → Text → List CacheEntry → List CacheEntry
unfolding has_key
cache_remove sid key r = filter (λ e. not (has_key sid key e)) r

unfoldable pub queue_message : QueuedMessage → MemorySink → MemorySink
queue_message m s = record s { messages = s.messages ++ m ∷ [] }

-- The server of the first message, or 0.
unfoldable pub cache_server : List QueuedMessage → EntityId
cache_server ms = unwrap_or 0 (map_option (λ (m : QueuedMessage). m.server_id) (first? ms))

unfoldable pub outgoing_count : List QueuedMessage → ℕ
outgoing_count ms = count_where (λ (m : QueuedMessage). is_outgoing m.scope) ms

-- The answer of a live cache entry, if there is one.
unfoldable pub cached_outcome :
    ℕ → IdempotencyRequest → Option CacheEntry → Option QueueMessagesOutcome
cached_outcome now request none = none
cached_outcome now request (some e) =
    if ltb now e.expires_at
    then if text_eq e.request_hash request.request_hash && text_eq e.operation request.operation
      then some replayed
      else some conflict
    else none

unfoldable pub cache_lookup :
    ℕ → List QueuedMessage → Option IdempotencyRequest → MemorySink → Option QueueMessagesOutcome
cache_lookup now ms none s = none
cache_lookup now ms (some request) s =
    cached_outcome now request (cache_get (cache_server ms) request.key_hash s.idempotency_requests)

-- The cache with the request of a stored transaction.
unfoldable pub cache_store :
    List QueuedMessage → Option IdempotencyRequest → List CacheEntry → List CacheEntry
cache_store ms none cache = cache
cache_store ms (some request) cache =
    record {
      server_id = cache_server ms;
      key_hash = request.key_hash;
      request_hash = request.request_hash;
      operation = request.operation;
      expires_at = request.expires_at;
    }
    ∷ cache_remove (cache_server ms) request.key_hash cache

-- A transaction with no live cache entry: all its messages are stored, if they fit the allowance.
unfoldable pub store_fresh :
    List QueuedMessage
    → Option IdempotencyRequest
    → SendAllowance
    → MemorySink
    → QueueMessagesOutcome × MemorySink
store_fresh ms idempotency allowance s =
    if allows allowance (pos (outgoing_count ms))
    then (
      stored,
      record {
        messages = s.messages ++ ms;
        idempotency_requests = cache_store ms idempotency s.idempotency_requests;
      },
    )
    else (limit_exceeded (rejection_message allowance), s)

unfoldable pub answered :
    Option QueueMessagesOutcome
    → QueueMessagesOutcome × MemorySink
    → MemorySink
    → QueueMessagesOutcome × MemorySink
answered (some outcome) fresh s = (outcome, s)
answered none fresh s = fresh

-- A live cache entry answers before the allowance is looked at.
unfoldable pub queue_messages :
    ℕ
    → List QueuedMessage
    → Option IdempotencyRequest
    → SendAllowance
    → MemorySink
    → QueueMessagesOutcome × MemorySink
queue_messages now ms idempotency allowance s =
    answered (cache_lookup now ms idempotency s) (store_fresh ms idempotency allowance s) s
