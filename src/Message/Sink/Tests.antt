-- ===== src/Message/Sink/Tests.antt =====
-- The theorems on `MemorySink` at one transaction, sent twice under one key.
use camelmailer.Base.{
  ◌≡◌, ◌≢◌, refl, ◌⊎◌, inl, inr, true, false, none, some, [], ◌∷◌, ◌++◌, pos, arith, List, map,
}
use camelmailer.Text.{codes}
use camelmailer.Limit.{SendAllowance, server_allowance, allows}
use camelmailer.Message.{
  QueuedMessage, MessageScope, IdempotencyRequest, QueueMessagesOutcome, replayed, stored,
}
use camelmailer.Message.Sink.{MemorySink, empty_sink, queue_messages}
use camelmailer.Message.Sink.Refines.{Call, transaction, run, replay, view, run_refines}
use camelmailer.Message.Sink.Laws.{IsAtomic, queue_messages-IsAtomic}
use camelmailer.Message.Sink.Once.{queue_messages_once}

abbrev one_message : List QueuedMessage
one_message =
    record {
      server_id = 7;
      rcpt_to = codes "x@y.de";
      mail_from = codes "a@b.de";
      raw_message = codes "hello";
      received_with_ssl = true;
      scope = MessageScope.outgoing;
      bounce = false;
      domain_id = some 5;
      credential_id = some 3;
      route_id = none;
      tag = none;
      metadata = none;
      stream_id = none;
    }
    ∷ []

abbrev request : IdempotencyRequest
request = record {
  key_hash = codes "k";
  request_hash = codes "h";
  operation = codes "smtp.send";
  expires_at = 100;
}

-- Room for one message.
abbrev one_left : SendAllowance
one_left = server_allowance (some (pos 5)) (pos 4)

queue_messages-IsAtomic_run :
    IsAtomic one_message
      (some request)
      one_left
      empty_sink
      (queue_messages 0 one_message (some request) one_left empty_sink)
queue_messages-IsAtomic_run =
    queue_messages-IsAtomic 0 one_message (some request) one_left empty_sink

-- A message on its own, and a transaction under another key.
abbrev other_calls : List Call
other_calls =
    map Call.one_message one_message
    ++ transaction 20 one_message (some (record request { key_hash = codes "other" })) one_left ∷ []

abbrev after_others : MemorySink
after_others =
    (run other_calls (queue_messages 0 one_message (some request) one_left empty_sink).1).1

stored_first : (queue_messages 0 one_message (some request) one_left empty_sink).0 ≡ stored
unfolding queue_messages camelmailer.Message.Sink.answered camelmailer.Message.Sink.cache_lookup
    camelmailer.Message.Sink.cached_outcome camelmailer.Message.Sink.cache_get empty_sink
    camelmailer.Message.Sink.store_fresh allows camelmailer.Limit.remaining server_allowance
    camelmailer.Message.Sink.outgoing_count camelmailer.Base.wrap_i64 camelmailer.Base.◌-ℤ◌ codes
stored_first = refl

queue_messages_once_run :
    queue_messages 50 one_message
      (some request)
      (server_allowance (some (pos 5)) (pos 5))
      after_others
    ≡ (replayed, after_others)
unfolding codes camelmailer.Text.text_eq
queue_messages_once_run =
    queue_messages_once 0 50 one_message one_message request request one_left
      (server_allowance (some (pos 5)) (pos 5)) other_calls empty_sink stored_first
      (tt, (omega arith, tt)) (omega arith) refl refl

-- The transaction, then the same again, which is a replay.
abbrev twice : List Call
twice =
    transaction 0 one_message (some request) one_left
    ∷ transaction 50 one_message (some request) one_left
    ∷ []

run_refines_example :
    ((run twice empty_sink).0, view (run twice empty_sink).1) ≡ replay twice (view empty_sink)
run_refines_example = run_refines twice empty_sink
