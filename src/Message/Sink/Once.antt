-- ===== src/Message/Sink/Once.antt =====
-- A transaction is stored once under its key, whatever else reaches `MemorySink` in between.
use camelmailer.Base.{
  ℕ, ◌<◌, ◌≡◌, ◌≢◌, refl, sym, ap, ◌∙◌, inl, inr, false, ◌&&◌, Option, none, some, List, [], ◌∷◌,
  if◌then◌else◌, ◌==◌, All, arith, Bool-cases,
}
use camelmailer.Text.{Text, text_eq}
use camelmailer.Text.Laws.{text_eq→eq}
use camelmailer.Model.{EntityId}
use camelmailer.Limit.{SendAllowance}
use camelmailer.Message.{
  QueuedMessage, IdempotencyRequest, QueueMessagesOutcome, stored, replayed, conflict,
}
use camelmailer.Message.Sink.{
  CacheEntry, MemorySink, has_key, cache_get, cache_server, cached_outcome, cache_lookup,
  cache_store, answered, queue_message, queue_messages,
}
use camelmailer.Message.Sink.Laws.{cache_get-cache_store, queue_messages-IsAtomic}
use camelmailer.Message.Sink.Refines.{Call, one_message, transaction, run, cache_get-cache_remove}

-- The answer that a later request under the same key gets.
abbrev pub repeat_outcome : IdempotencyRequest → IdempotencyRequest → QueueMessagesOutcome
repeat_outcome r r' =
    if text_eq r.request_hash r'.request_hash && text_eq r.operation r'.operation
    then replayed
    else conflict

-- The entry that a request leaves in the cache.
abbrev entry_of : List QueuedMessage → IdempotencyRequest → CacheEntry
entry_of ms r = record {
  server_id = cache_server ms;
  key_hash = r.key_hash;
  request_hash = r.request_hash;
  operation = r.operation;
  expires_at = r.expires_at;
}

abbrev Holds : EntityId → Text → CacheEntry → MemorySink → Type 0
Holds server_id key e s = cache_get server_id key s.idempotency_requests ≡ some e

-- A live entry answers, and nothing is stored or changed.
queue_messages-Holds :
    (now : ℕ) (ms : List QueuedMessage) (r : IdempotencyRequest) (a : SendAllowance)
    (e : CacheEntry) (s : MemorySink)
    → now < e.expires_at
    → Holds (cache_server ms) r.key_hash e s
    → queue_messages now ms (some r) a s ≡ (
      if text_eq e.request_hash r.request_hash && text_eq e.operation r.operation
          then replayed
          else conflict,
      s,
    )
queue_messages-Holds now ms r a e s live h =
    let found : cache_lookup now ms (some r) s
        ≡ some (
            if text_eq e.request_hash r.request_hash && text_eq e.operation r.operation
            then replayed
            else conflict) =
      unfold cache_lookup in rw h (unfold cached_outcome in ground arith) in
    unfold queue_messages answered in rw found refl

unstored :
    (now : ℕ) (ms : List QueuedMessage) (r : IdempotencyRequest) (a : SendAllowance)
    (e : CacheEntry) (s : MemorySink)
    → now < e.expires_at
    → Holds (cache_server ms) r.key_hash e s
    → (queue_messages now ms (some r) a s).0 ≢ stored
unstored now ms r a e s live h =
    let answer = queue_messages-Holds now ms r a e s live h in
    λ p. ground (arith, sym (ap (λ x. x.0) answer) ∙ p)

-- A transaction that is stored under another key leaves the entry in its place.
cache_store-other :
    (ms : List QueuedMessage) (r : IdempotencyRequest) (cache : List CacheEntry)
    (server_id : EntityId) (key : Text)
    → (cache_server ms == server_id && text_eq r.key_hash key) ≡ false
    → cache_get server_id key (cache_store ms (some r) cache) ≡ cache_get server_id key cache
cache_store-other ms r cache server_id key other =
    let kept = cache_get-cache_remove (cache_server ms) server_id r.key_hash key cache other in
    unfold cache_store cache_get has_key in rw other kept

transaction-Holds :
    (now : ℕ) (ms : List QueuedMessage) (i : Option IdempotencyRequest) (a : SendAllowance)
    (server_id : EntityId) (key : Text) (e : CacheEntry) (s : MemorySink)
    → now < e.expires_at
    → Holds server_id key e s
    → Holds server_id key e (queue_messages now ms i a s).1
transaction-Holds now ms i a server_id key e s live h =
    elim (queue_messages-IsAtomic now ms i a s) [
      | inr f ↦ ap (λ (t : MemorySink). cache_get server_id key t.idempotency_requests) f.1 ∙ h
      | inl y ↦ ap (cache_get server_id key) y.2 ∙ in_cache i y.0
    ]
  where
    in_cache :
        (i : Option IdempotencyRequest)
        → (queue_messages now ms i a s).0 ≡ stored
        → cache_get server_id key (cache_store ms i s.idempotency_requests) ≡ some e
    in_cache none y = unfold cache_store in h
    in_cache (some r) y =
        elim (Bool-cases (cache_server ms == server_id && text_eq r.key_hash key)) [
          | inr other ↦ cache_store-other ms r s.idempotency_requests server_id key other ∙ h
          | inl same ↦
              let b : cache_server ms ≡ server_id = ground arith in
              let k : r.key_hash ≡ key = text_eq→eq r.key_hash key (ground arith) in
              absurd (unstored now ms r a e s live (rw (b, k) h) y)
        ]

-- A call whose clock, if it looks at one, is before a time.
abbrev pub IsBefore : ℕ → Call → Type 0
IsBefore limit (one_message m) = Unit
IsBefore limit (transaction now ms i a) = now < limit

run-Holds :
    (calls : List Call) (server_id : EntityId) (key : Text) (e : CacheEntry) (s : MemorySink)
    → All (IsBefore e.expires_at) calls
    → Holds server_id key e s
    → Holds server_id key e (run calls s).1
unfolding run queue_message
run-Holds [] server_id key e s before h = h
run-Holds (one_message m ∷ calls) server_id key e s before h =
    run-Holds calls server_id key e (queue_message m s) before.1 h
run-Holds (transaction now ms i a ∷ calls) server_id key e s before h =
    run-Holds calls server_id key e (queue_messages now ms i a s).1 before.1
      (transaction-Holds now ms i a server_id key e s before.0 h)

-- A transaction is stored at most once while its request is live: after it was stored, whatever calls
-- follow, each of them before its request expires, a later request of the same server under the same
-- key before then stores nothing and changes nothing, even beyond the allowance. It is a replay where
-- request and operation are the same, and a conflict otherwise.
pub queue_messages_once :
    (now later : ℕ) (ms ms' : List QueuedMessage) (r r' : IdempotencyRequest) (a a' : SendAllowance)
    (calls : List Call) (s : MemorySink)
    → (queue_messages now ms (some r) a s).0 ≡ stored
    → All (IsBefore r.expires_at) calls
    → later < r.expires_at
    → cache_server ms' ≡ cache_server ms
    → r'.key_hash ≡ r.key_hash
    → let t = (run calls (queue_messages now ms (some r) a s).1).1 in
      queue_messages later ms' (some r') a' t ≡ (repeat_outcome r r', t)
queue_messages_once now later ms ms' r r' a a' calls s done before live v k =
    let first = (queue_messages now ms (some r) a s).1 in
    let held : Holds (cache_server ms) r.key_hash (entry_of ms r) first =
      elim (queue_messages-IsAtomic now ms (some r) a s) [
        | inr f ↦ absurd (f.0 done)
        | inl y ↦
            ap (cache_get (cache_server ms) r.key_hash) y.2
            ∙ cache_get-cache_store ms r s.idempotency_requests
      ] in
    queue_messages-Holds later ms' r' a' (entry_of ms r) (run calls first).1 live
      (rw (v, k) (run-Holds calls (cache_server ms) r.key_hash (entry_of ms r) first before held))
