-- ===== src/Message/Sink/Laws.antt =====
-- What `MemorySink` promises of one call: all or nothing, and never beyond the allowance.
use camelmailer.Base.{
  ℕ, ◌≡◌, ◌≢◌, refl, ◌⊎◌, inl, inr, true, Option, none, some, List, ◌++◌, pos, arith, Bool-cases,
}
use camelmailer.Text.Laws.{text_eq_refl}
use camelmailer.Limit.{SendAllowance, allows}
use camelmailer.Message.{QueuedMessage, IdempotencyRequest, QueueMessagesOutcome, stored}
use camelmailer.Message.Sink.{
  CacheEntry, MemorySink, has_key, cache_get, cache_server, outgoing_count, cached_outcome,
  cache_lookup, cache_store, store_fresh, answered, queue_messages,
}

has_key_refl : (e : CacheEntry) → has_key e.server_id e.key_hash e ≡ true
unfolding has_key
has_key_refl e = ground (arith, text_eq_refl e.key_hash)

-- What was stored under a key is found under it, whatever the cache held before.
pub cache_get-cache_store :
    (ms : List QueuedMessage) (r : IdempotencyRequest) (cache : List CacheEntry)
    → cache_get (cache_server ms) r.key_hash (cache_store ms (some r) cache)
      ≡ some (record {
        server_id = cache_server ms;
        key_hash = r.key_hash;
        request_hash = r.request_hash;
        operation = r.operation;
        expires_at = r.expires_at;
      })
cache_get-cache_store ms r cache =
    unfold cache_store cache_get has_key in ground (arith, text_eq_refl r.key_hash)

cached_outcome-ne-stored :
    (now : ℕ) (r : IdempotencyRequest) (e : Option CacheEntry) (o : QueueMessagesOutcome)
    → cached_outcome now r e ≡ some o
    → o ≢ stored
unfolding cached_outcome
cached_outcome-ne-stored now r none o h = cc
cached_outcome-ne-stored now r (some e) o h = λ p. ground arith

cache_lookup-ne-stored :
    (now : ℕ) (ms : List QueuedMessage) (i : Option IdempotencyRequest) (s : MemorySink)
    (o : QueueMessagesOutcome)
    → cache_lookup now ms i s ≡ some o
    → o ≢ stored
unfolding cache_lookup
cache_lookup-ne-stored now ms none s o h = cc
cache_lookup-ne-stored now ms (some r) s o h =
    cached_outcome-ne-stored now r (cache_get (cache_server ms) r.key_hash s.idempotency_requests) o
      h

-- The two ways in which a call ends.
abbrev pub IsAtomic :
    List QueuedMessage
    → Option IdempotencyRequest
    → SendAllowance
    → MemorySink
    → QueueMessagesOutcome × MemorySink
    → Type 0
IsAtomic ms i a s (outcome, t) =
    ((outcome ≡ stored)
      × (t.messages ≡ s.messages ++ ms)
      × (t.idempotency_requests ≡ cache_store ms i s.idempotency_requests)
      × (allows a (pos (outgoing_count ms)) ≡ true))
    ⊎ ((outcome ≢ stored) × (t ≡ s))

store_fresh-IsAtomic :
    (ms : List QueuedMessage) (i : Option IdempotencyRequest) (a : SendAllowance) (s : MemorySink)
    → IsAtomic ms i a s (store_fresh ms i a s)
unfolding store_fresh
store_fresh-IsAtomic ms i a s = elim (Bool-cases (allows a (pos (outgoing_count ms)))) [
  | inl e ↦ rw e (inl (refl, refl, refl, refl))
  | inr e ↦ rw e (inr ((λ p. cc), refl))
]

answered-IsAtomic :
    (ms : List QueuedMessage) (i : Option IdempotencyRequest) (a : SendAllowance) (s : MemorySink)
    (o : Option QueueMessagesOutcome) (fresh : QueueMessagesOutcome × MemorySink)
    → ((x : QueueMessagesOutcome) → o ≡ some x → x ≢ stored)
    → IsAtomic ms i a s fresh
    → IsAtomic ms i a s (answered o fresh s)
unfolding answered
answered-IsAtomic ms i a s none fresh h k = k
answered-IsAtomic ms i a s (some x) fresh h k = inr (h x refl, refl)

-- All or nothing: the sink stores every message of the transaction, in order, says so, and the
-- allowance admits as many outgoing messages; or it says something else and is left as it was.
pub queue_messages-IsAtomic :
    (now : ℕ) (ms : List QueuedMessage) (i : Option IdempotencyRequest) (a : SendAllowance)
    (s : MemorySink)
    → IsAtomic ms i a s (queue_messages now ms i a s)
unfolding queue_messages
queue_messages-IsAtomic now ms i a s =
    answered-IsAtomic ms i a s (cache_lookup now ms i s) (store_fresh ms i a s)
      (cache_lookup-ne-stored now ms i s) (store_fresh-IsAtomic ms i a s)
