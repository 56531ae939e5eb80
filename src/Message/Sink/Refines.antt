-- ===== src/Message/Sink/Refines.antt =====
-- `MemorySink` implements an abstract sink, which has a log and the claims of keys as a function.
use mathlib.Core.Path.{fun_ext}
use camelmailer.Base.{
  ℕ, ◌≡◌, refl, ap, true, false, not, ◌&&◌, Option, none, some, List, [], ◌∷◌, ◌++◌, ltb, ◌==◌,
  if◌then◌else◌, pos, map_option, arith, Bool-cases, inl, inr,
}
use camelmailer.Text.{Text, text_eq}
use camelmailer.Text.Laws.{text_eq→eq}
use camelmailer.Model.{EntityId}
use camelmailer.Limit.{SendAllowance, allows, rejection_message}
use camelmailer.Message.{
  QueuedMessage, IdempotencyRequest, QueueMessagesOutcome, stored, replayed, conflict,
  limit_exceeded,
}
use camelmailer.Message.Sink.{
  CacheEntry, MemorySink, has_key, cache_get, cache_remove, cache_server, outgoing_count,
  cached_outcome, cache_lookup, cache_store, store_fresh, answered, queue_message, queue_messages,
}

-- What a key was claimed for, and until when.
pub record Claim : Type 0 where
  pub request_hash : Text
  pub operation : Text
  pub until : ℕ

pub record SinkSpec : Type 0 where
  pub log : List QueuedMessage
  pub claims : EntityId → Text → Option Claim

abbrev pub claim_of : CacheEntry → Claim
claim_of e = record { request_hash = e.request_hash; operation = e.operation; until = e.expires_at }

-- What a client sees of the sink: the order and the number of the cache's entries are forgotten.
abbrev pub view : MemorySink → SinkSpec
view s = record {
  log = s.messages;
  claims = λ server_id key. map_option claim_of (cache_get server_id key s.idempotency_requests);
}

-- What a claim answers to a request: nothing once its time is over.
pub answer : ℕ → IdempotencyRequest → Claim → Option QueueMessagesOutcome
answer now r c =
    if not (ltb now c.until)
    then none
    else if not (text_eq c.operation r.operation)
    then some conflict
    else if text_eq c.request_hash r.request_hash
    then some replayed
    else some conflict

-- The claims with one more, of a server and a key.
pub claimed :
    EntityId
    → IdempotencyRequest
    → (EntityId → Text → Option Claim)
    → EntityId
    → Text
    → Option Claim
claimed server_id r claims s k =
    if server_id == s && text_eq r.key_hash k
    then some
        (record { request_hash = r.request_hash; operation = r.operation; until = r.expires_at })
    else claims s k

-- A transaction is logged as a whole if the allowance admits its outgoing messages.
admit :
    List QueuedMessage
    → SendAllowance
    → (EntityId → Text → Option Claim)
    → SinkSpec
    → QueueMessagesOutcome × SinkSpec
admit ms a claims s =
    if allows a (pos (outgoing_count ms))
    then (stored, record { log = s.log ++ ms; claims = claims })
    else (limit_exceeded (rejection_message a), s)

answer_or :
    Option QueueMessagesOutcome
    → QueueMessagesOutcome × SinkSpec
    → SinkSpec
    → QueueMessagesOutcome × SinkSpec
answer_or (some o) r s = (o, s)
answer_or none r s = r

bind_claim : ℕ → IdempotencyRequest → Option Claim → Option QueueMessagesOutcome
bind_claim now r none = none
bind_claim now r (some c) = answer now r c

pub submit :
    ℕ
    → List QueuedMessage
    → Option IdempotencyRequest
    → SendAllowance
    → SinkSpec
    → QueueMessagesOutcome × SinkSpec
submit now ms none a s = admit ms a s.claims s
submit now ms (some r) a s =
    answer_or (bind_claim now r (s.claims (cache_server ms) r.key_hash))
      (admit ms a (claimed (cache_server ms) r s.claims) s) s

text_eq_moves : (a b c : Text) → text_eq a b ≡ true → text_eq a c ≡ text_eq b c
text_eq_moves a b c h = ap (λ x. text_eq x c) (text_eq→eq a b h)

has_key_other :
    (s s' : EntityId) (k k' : Text) (e : CacheEntry)
    → (s == s' && text_eq k k') ≡ false
    → has_key s k e ≡ true
    → has_key s' k' e ≡ false
unfolding has_key
has_key_other s s' k k' e n h = ground (arith, text_eq_moves e.key_hash k k')

pub cache_get-cache_remove :
    (s s' : EntityId) (k k' : Text) (cache : List CacheEntry)
    → (s == s' && text_eq k k') ≡ false
    → cache_get s' k' (cache_remove s k cache) ≡ cache_get s' k' cache
unfolding cache_get cache_remove
cache_get-cache_remove s s' k k' [] n = refl
cache_get-cache_remove s s' k k' (e ∷ r) n = elim (Bool-cases (has_key s k e)) [
  | inl h ↦ rw (h, has_key_other s s' k k' e n h) (cache_get-cache_remove s s' k k' r n)
  | inr h ↦ rw h (ground (arith, cache_get-cache_remove s s' k k' r n))
]

-- The claims after a transaction was stored under a key.
claims_of_store :
    (ms : List QueuedMessage) (r : IdempotencyRequest) (cache : List CacheEntry) (s : EntityId)
    (k : Text)
    → map_option claim_of (cache_get s k (cache_store ms (some r) cache))
      ≡ claimed (cache_server ms) r (λ s' k'. map_option claim_of (cache_get s' k' cache)) s k
unfolding cache_store claimed
claims_of_store ms r cache s k = elim (Bool-cases (cache_server ms == s && text_eq r.key_hash k)) [
  | inl h ↦ unfold cache_get has_key in rw h refl
  | inr h ↦
      rw (h, ← cache_get-cache_remove (cache_server ms) s r.key_hash k cache h)
        (unfold cache_get has_key in rw h refl)
]

-- The claim that a request finds, and the answer of its entry.
bind_cached :
    (now : ℕ) (r : IdempotencyRequest) (o : Option CacheEntry)
    → cached_outcome now r o ≡ bind_claim now r (map_option claim_of o)
unfolding cached_outcome bind_claim answer
bind_cached now r none = refl
bind_cached now r (some e) = ground arith

-- The outcome of a call with what a client then sees.
abbrev pub seen : QueueMessagesOutcome × MemorySink → QueueMessagesOutcome × SinkSpec
seen r = (r.0, view r.1)

seen-store_fresh :
    (ms : List QueuedMessage) (i : Option IdempotencyRequest) (a : SendAllowance) (s : MemorySink)
    (claims : EntityId → Text → Option Claim)
    → (λ server_id key.
        map_option claim_of (cache_get server_id key (cache_store ms i s.idempotency_requests)))
      ≡ claims
    → seen (store_fresh ms i a s) ≡ admit ms a claims (view s)
unfolding store_fresh admit
seen-store_fresh ms i a s claims h = elim (Bool-cases (allows a (pos (outgoing_count ms)))) [
  | inl e ↦ rw (e, h) refl
  | inr e ↦ rw e refl
]

seen-answered :
    (o : Option QueueMessagesOutcome) (f : QueueMessagesOutcome × MemorySink)
    (g : QueueMessagesOutcome × SinkSpec) (s : MemorySink)
    → seen f ≡ g
    → seen (answered o f s) ≡ answer_or o g (view s)
unfolding answered answer_or
seen-answered none f g s h = h
seen-answered (some o) f g s h = refl

queue_messages-submit :
    (now : ℕ) (ms : List QueuedMessage) (i : Option IdempotencyRequest) (a : SendAllowance)
    (s : MemorySink)
    → seen (queue_messages now ms i a s) ≡ submit now ms i a (view s)
unfolding queue_messages submit cache_lookup
queue_messages-submit now ms none a s =
    unfold answered in seen-store_fresh ms none a s (view s).claims (unfold cache_store in refl)
queue_messages-submit now ms (some r) a s =
    rw (bind_cached now r (cache_get (cache_server ms) r.key_hash s.idempotency_requests)) (
      seen-answered _ _ _ s (
        seen-store_fresh ms (some r) a s (claimed (cache_server ms) r (view s).claims)
          (fun_ext (λ x. fun_ext (claims_of_store ms r s.idempotency_requests x)))))

-- What a client calls.
pub data Call : Type 0 where
  one_message : QueuedMessage → Call
  transaction : ℕ → List QueuedMessage → Option IdempotencyRequest → SendAllowance → Call

-- A run of calls on the sink, with their outcomes.
unfoldable pub run : List Call → MemorySink → List QueueMessagesOutcome × MemorySink
unfolding queue_message
run [] s = ([], s)
run (one_message m ∷ calls) s = run calls (queue_message m s)
run (transaction now ms i a ∷ calls) s =
    let r = queue_messages now ms i a s in let rest = run calls r.1 in (r.0 ∷ rest.0, rest.1)

-- The same calls on the abstract sink.
pub replay : List Call → SinkSpec → List QueueMessagesOutcome × SinkSpec
replay [] s = ([], s)
replay (one_message m ∷ calls) s = replay calls (record s { log = s.log ++ m ∷ [] })
replay (transaction now ms i a ∷ calls) s =
    let r = submit now ms i a s in let rest = replay calls r.1 in (r.0 ∷ rest.0, rest.1)

-- Whatever a client calls, in any order and at any times, it gets from the sink the outcomes that the
-- abstract sink gives, and sees the same log and the same claims in the end: the abstract sink keeps the
-- claims of keys as a function, and neither the order of the cache's entries nor an entry that was
-- replaced shows.
pub run_refines :
    (calls : List Call) (s : MemorySink)
    → ((run calls s).0, view (run calls s).1) ≡ replay calls (view s)
unfolding run replay queue_message
run_refines [] s = refl
run_refines (one_message m ∷ calls) s = run_refines calls (queue_message m s)
run_refines (transaction now ms i a ∷ calls) s =
    let h = queue_messages-submit now ms i a s in
    let ih = run_refines calls (queue_messages now ms i a s).1 in rw (← h, ← ih) refl
