-- ===== src/Smtp/Tests.antt =====
-- Runs of the session on a small installation, and the theorems at concrete sessions.
use camelmailer.Base.{
  ℕ, ◌≡◌, refl, ◌⊎◌, true, false, none, some, List, [], ◌∷◌, ◌++◌, is_some, All, OnSome, Yields,
  arith, length,
}
use camelmailer.Text.{Text, Bytes, codes, as_bytes}
use camelmailer.Message.{QueuedMessage, MessageScope, stored}
use camelmailer.Message.Sink.{MemorySink, empty_sink, outgoing_count}
use camelmailer.Limit.{allows}
use camelmailer.Smtp.Types.{State, Session, Conn, Reply, line, silent, Moment}
use camelmailer.Smtp.Basic.{new, auth_permitted, back_to_welcomed}
use camelmailer.Smtp.Body.{trace_lines}
use camelmailer.Smtp.Finish.{
  finish_data, message_for, messages_for, server_limit, organization_limit, hand_over, allowance,
  queued, is_too_large,
}
use camelmailer.Smtp.Handle.{handle}
use camelmailer.Smtp.Invariant.{IsConsistent}
use camelmailer.Smtp.Invariant.Handle.{handle-IsConsistent}
use camelmailer.Smtp.Total.Handle.{handle_total}
use camelmailer.Smtp.Guard.{IsBarred, IsGuarded, handle-IsGuarded}
use camelmailer.Smtp.Transparency.{Receives, feed, sent, stored_lines, data_transparent}
use camelmailer.Smtp.Hash.Laws.{addresses, hash_input_injective}
use camelmailer.Smtp.Gates.{
  AreFor, IsAdmissible, messages_for-AreFor, no_open_relay, finish_data_resets, finish_data_gated,
}
use camelmailer.Smtp.Fixture.{small_env, greeted, connected, in_data, noon, routed}

in_data-IsConsistent : IsConsistent in_data
unfolding new
in_data-IsConsistent = record {
  message_open = λ _. (refl, refl);
  data_after_rcpt = λ _. refl;
  recipients_fit = refl;
  recipients_late = λ e. cc e;
  sender_known = λ _. refl;
}

-- A line of the message ends with a carriage return, which the session remembers.
abbrev after_hello : Session
after_hello = record in_data {
  body = some (codes "\r\nHello\r\n");
  cr_present = true;
  previous_cr_present = some true;
}

hello_line :
    handle small_env noon (codes "Hello\r") (connected in_data)
    ≡ some (connected after_hello, silent)
unfolding handle new camelmailer.Smtp.Handle.handle_stripped camelmailer.Text.strip_suffix_char
    codes camelmailer.Smtp.Handle.run_line camelmailer.Smtp.Handle.set_cr
    camelmailer.Smtp.Handle.run_mode camelmailer.Smtp.Handle.data_line
    camelmailer.Smtp.Body.is_end_of_data camelmailer.Smtp.Body.message_line
    camelmailer.Smtp.Handle.remember_cr camelmailer.Smtp.Body.keep_line empty_sink
    camelmailer.Smtp.Body.unstuff
hello_line = refl

handle-IsConsistent_hello : IsConsistent after_hello
handle-IsConsistent_hello =
    handle-IsConsistent small_env noon (codes "Hello\r") (connected in_data) (connected after_hello)
      silent in_data-IsConsistent hello_line

handle_total_hello : is_some (handle small_env noon (codes "Hello\r") (connected in_data)) ≡ true
unfolding codes
handle_total_hello =
    handle_total small_env noon (codes "Hello\r") (connected in_data) refl in_data-IsConsistent

-- Before TLS, AUTH is refused.
abbrev refused_auth : Session
refused_auth = record greeted { cr_present = false; previous_cr_present = some false }

abbrev encryption_required : Reply
encryption_required =
    line (codes "538 5.7.11 Encryption required for requested authentication mechanism")

auth_line :
    handle small_env noon (codes "AUTH PLAIN AHgAc2VjcmV0") (connected greeted)
    ≡ some (connected refused_auth, encryption_required)
unfolding handle new camelmailer.Smtp.Handle.handle_stripped camelmailer.Text.strip_suffix_char
    codes camelmailer.Smtp.Handle.run_line camelmailer.Smtp.Handle.set_cr
    camelmailer.Smtp.Handle.run_mode camelmailer.Smtp.Handle.handle_command
    camelmailer.Smtp.Handle.guard_auth camelmailer.Smtp.Handle.verb_of
    camelmailer.Text.is_whitespace auth_permitted camelmailer.Smtp.Handle.remember_cr
    camelmailer.Smtp.Basic.reply
auth_line = refl

greeted-IsBarred : IsBarred greeted
unfolding new auth_permitted
greeted-IsBarred = record { greeted = refl; at_command = refl; forbidden = refl }

handle-IsGuarded_auth :
    IsGuarded small_env (connected greeted) (connected refused_auth, encryption_required)
handle-IsGuarded_auth =
    handle-IsGuarded small_env noon (codes "AUTH PLAIN AHgAc2VjcmV0") (connected greeted)
      (connected refused_auth) encryption_required greeted-IsBarred auth_line

in_data-Receives : Receives (codes "\r\n") in_data
in_data-Receives = record { in_data = refl; after_rcpt = refl; has_headers = refl; bytes = refl }

abbrev dotted : List (Moment × Text)
dotted = (noon, codes ".") ∷ (noon, codes "..x") ∷ []

data_transparent_dots :
    Yields
      (λ c'. Receives (codes "\r\n" ++ stored_lines (codes "." ∷ codes "..x" ∷ [])) c'.session)
      (feed small_env
        ((noon, sent (codes ".")) ∷ (noon, sent (codes "..x")) ∷ [])
        (connected in_data))
data_transparent_dots =
    data_transparent small_env dotted (codes "\r\n") (connected in_data) in_data-Receives

-- What the end of DATA queues for the one recipient.
abbrev for_info : QueuedMessage
for_info = record {
  server_id = 7;
  rcpt_to = codes "info@camel.dev";
  mail_from = codes "a@b.de";
  raw_message = codes "\r\n";
  received_with_ssl = false;
  scope = MessageScope.incoming;
  bounce = false;
  domain_id = some 5;
  credential_id = none;
  route_id = some 4;
  tag = none;
  metadata = none;
  stream_id = none;
}

messages_for_info :
    messages_for small_env [] in_data (codes "a@b.de") (codes "\r\n") none (routed ∷ [])
    ≡ some (for_info ∷ [])
unfolding messages_for new message_for
messages_for_info = refl

messages_for-AreFor_info :
    OnSome
      (AreFor small_env [] in_data (codes "a@b.de") (codes "\r\n") none (routed ∷ []))
      (messages_for small_env [] in_data (codes "a@b.de") (codes "\r\n") none (routed ∷ []))
messages_for-AreFor_info =
    messages_for-AreFor small_env [] in_data (codes "a@b.de") (codes "\r\n") none (routed ∷ [])

no_open_relay_info : All (λ (q : QueuedMessage). q.scope ≡ MessageScope.incoming) (for_info ∷ [])
unfolding new
no_open_relay_info =
    no_open_relay small_env [] in_data (codes "a@b.de") (codes "\r\n") none (for_info ∷ [])
      in_data-IsConsistent refl messages_for_info

abbrev after_data : Conn (List ℕ) MemorySink
after_data = record {
  session = back_to_welcomed in_data;
  db = [];
  queue = record { messages = for_info ∷ []; idempotency_requests = [] };
}

end_of_data :
    finish_data small_env noon (connected in_data) ≡ some (after_data, line (codes "250 OK"))
unfolding finish_data new camelmailer.Smtp.Finish.finish_checked camelmailer.Smtp.Finish.rejection
    is_too_large codes camelmailer.Smtp.Finish.received_by_us
    camelmailer.Smtp.Finish.sender_is_valid camelmailer.Smtp.Finish.with_key
    camelmailer.Smtp.Finish.check_key camelmailer.Smtp.Finish.accept_message messages_for
    message_for camelmailer.Smtp.Finish.store_messages hand_over
    camelmailer.Smtp.Finish.outcome_reply allows camelmailer.Limit.remaining allowance
    camelmailer.Limit.unlimited camelmailer.Smtp.Finish.queue_each
    camelmailer.Message.Sink.queue_message camelmailer.Smtp.Basic.reply empty_sink
end_of_data = refl

finish_data_resets_info :
    (after_data.session ≡ record in_data {
      state = State.welcomed;
      recipients = [];
      mail_from = none;
      body = none;
      client_data_offset = 0;
      headers = none;
    })
    × (after_data.db ≡ [])
finish_data_resets_info =
    finish_data_resets small_env noon (connected in_data) after_data (line (codes "250 OK"))
      end_of_data

finish_data_gated_info :
    (after_data.queue ≡ empty_sink) ⊎ IsAdmissible small_env (connected in_data)
finish_data_gated_info =
    finish_data_gated small_env noon (connected in_data) after_data (line (codes "250 OK"))
      end_of_data

hash_input_injective_info :
    (as_bytes (codes "a@b.de") ≡ as_bytes (codes "a@b.de"))
    × (addresses (routed ∷ []) ≡ addresses (routed ∷ []))
    × (codes "x" ≡ codes "x")
unfolding codes as_bytes
hash_input_injective_info =
    hash_input_injective (codes "a@b.de") (codes "a@b.de") (routed ∷ []) (routed ∷ []) (codes "x")
      (codes "x") (omega arith) (omega arith) (omega arith) (omega arith) (omega arith, tt)
      (omega arith, tt) (omega arith) (omega arith) refl

-- A client's message with an idempotency key, behind trace headers without and with a verdict.
abbrev with_key_header : Bytes
with_key_header = codes "CamelMailer-Idempotency-Key: k1\r\nSubject: s\r\n\r\nbody\r\n"

abbrev behind_trace : Session
behind_trace = record in_data {
  client_data_offset = length (trace_lines none (codes "a@b.de") (codes "from x"));
}
