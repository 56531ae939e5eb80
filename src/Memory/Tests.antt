-- ===== src/Memory/Tests.antt =====
-- The in-memory store at one installation: an organization with a limit of one message in the month, its
-- server, a verified domain, and two networks of clients.
use camelmailer.Base.{
  ℕ, ◌+◌, ◌<◌, ◌≡◌, refl, map, i64_half, ◌⊎◌, inl, inr, true, false, not, Option, none, some, List,
  [], ◌∷◌, ◌++◌, all, length, unwrap_or, map_get, ℤ, pos, ◌+ℤ◌, wrap_i64, arith,
}
use camelmailer.Text.{Text, codes, text_eq, starts_with}
use camelmailer.Model.{Organization, Credential, CredentialType, of_organization, Domain}
use camelmailer.Quota.{UsageMonth, reached_thresholds}
use camelmailer.Message.{QueuedMessage, MessageScope, IdempotencyRequest}
use camelmailer.Message.Sink.{MemorySink, empty_sink}
use camelmailer.Smtp.Types.{Conn, Reply, line}
use camelmailer.Smtp.Env.{Env}
use camelmailer.Smtp.Finish.{finish_data}
use camelmailer.Smtp.Fixture.{small_server, small_credential, in_data, memory, stand_ins, noon}
use camelmailer.Memory.{MemoryStore, empty_store, id_eq, SendOperationResult, success, failure}
use camelmailer.Memory.Count.{count_month}
use camelmailer.Memory.Count.Once.{limit_of}
use camelmailer.Memory.Count.Laws.{is_announced}
use camelmailer.Memory.Count.Events.{event_of, unannounced, count_month_complete}
use camelmailer.Memory.Lookup.Best.{IsBest, match_ip_credential-IsBest}
use camelmailer.Memory.Send.Once.{here_before, next_before, insert_send_operation_once}
use camelmailer.Memory.Send.Valid.{IsSound}
use camelmailer.Memory.Send.History.{here, next, sends, prunes, Reach-IsSound}
use camelmailer.Memory.Instance.{memory_store}
use camelmailer.Memory.Gate.{MaySend, memory_env, finish_data-MaySend}
use camelmailer.Memory.Lookup.{
  Networks, match_ip_credential, find_confirmed_sender_address, find_authenticated_domain,
  organization_month_usage,
}
use camelmailer.Memory.Send.{
  SendPlanItem, plan_messages, plan_error, Tools, stored_send, replayed_send, StoreSendOutcome,
  insert_send_operation, prune_idempotency_requests_at,
}

abbrev acme : Organization
acme = record {
  id = 2;
  uuid = codes "u";
  name = codes "Acme";
  permalink = codes "acme";
  require_two_factor = false;
}

abbrev verified_domain : Domain
verified_domain = record {
  id = 5;
  owner = of_organization 2;
  name = codes "camel.dev";
  verified = true;
}

abbrev client : ℕ → Text → Credential
client id key = record small_credential {
  id = id;
  credential_type = CredentialType.smtp_ip;
  key = key;
}

abbrev filled_store : MemoryStore
filled_store = record empty_store {
  organizations = (2, acme) ∷ [];
  organization_policies =
      (2, record { monthly_send_limit = some (pos 1); suspended = false; suspension_reason = none })
      ∷ [];
  servers = (7, small_server) ∷ [];
  domains = (5, verified_domain) ∷ [];
  credentials =
      (3, small_credential) ∷ (8, client 8 (codes "10.")) ∷ (9, client 9 (codes "10.0.")) ∷ [];
}

-- Addresses as texts, and networks as their beginnings.
abbrev text_networks : Networks Text Text
text_networks = record {
  parse_net = λ t. some t;
  parse_ip = λ t. none;
  from_ip = λ t. t;
  prefix_len = λ t. length t;
  contains = λ net ip. starts_with ip net;
  is_v4 = λ net. true;
  to_ipv4_mapped = λ ip. none;
}

closest_network :
    match_ip_credential text_networks
      (client 8 (codes "10.") ∷ client 9 (codes "10.0.") ∷ [])
      (codes "10.0.0.1")
    ≡ some (client 9 (codes "10.0."))
unfolding match_ip_credential codes starts_with
closest_network = refl

own_domain : find_authenticated_domain filled_store 7 (codes "Info <info@camel.dev>" ∷ []) ≡ some 5
unfolding find_authenticated_domain codes camelmailer.Text.trim_end camelmailer.Text.trim_end_where
    camelmailer.Text.trim_start camelmailer.Text.is_whitespace
own_domain = refl

other_domain :
    find_authenticated_domain filled_store 7 (codes "info@camel.dev" ∷ codes "x@example.com" ∷ [])
    ≡ none
unfolding find_authenticated_domain codes camelmailer.Text.trim_end camelmailer.Text.trim_end_where
    camelmailer.Text.trim_start camelmailer.Text.is_whitespace
other_domain = refl

-- Of one value with two addresses only the last in brackets is looked at.
two_addresses :
    find_authenticated_domain filled_store 7 (codes "x@example.com, Info <info@camel.dev>" ∷ [])
    ≡ some 5
unfolding find_authenticated_domain codes camelmailer.Text.trim_end camelmailer.Text.trim_end_where
    camelmailer.Text.trim_start camelmailer.Text.is_whitespace
two_addresses = refl

abbrev january : UsageMonth
january = record { year = pos 1970; month = 1 }

abbrev tools : Tools
tools = record {
  month_of = λ day. january;
  token_of = λ id. codes "t";
  from_utf8_lossy = λ b. b;
  to_lowercase = λ t. t;
}

abbrev message : QueuedMessage
message = record {
  server_id = 7;
  rcpt_to = codes "x@y.de";
  mail_from = codes "info@camel.dev";
  raw_message = codes "\r\n";
  received_with_ssl = true;
  scope = MessageScope.outgoing;
  bounce = false;
  domain_id = some 5;
  credential_id = some 3;
  route_id = none;
  tag = none;
  metadata = none;
  stream_id = none;
}

abbrev plan : List SendPlanItem
plan =
    plan_error (codes "invalid") (codes "no address")
    ∷ plan_messages (record { message = message; unsubscribe_token = none } ∷ [])
    ∷ []

abbrev request : IdempotencyRequest
request = record {
  key_hash = codes "k";
  request_hash = codes "h";
  operation = codes "send";
  expires_at = 100;
}

-- The first message of the month reaches both thresholds of a limit of one.
first_alerts :
    ((insert_send_operation tools 0 7 plan (some request) filled_store).1).usage_alerts
    ≡ (2, january, 100) ∷ (2, january, 80) ∷ []
unfolding insert_send_operation empty_store camelmailer.Base.◌*ℤ◌
first_alerts = refl

abbrev first_response : SendOperationResult
first_response =
    failure (codes "invalid") (codes "no address")
    ∷ success (record {
      message_id = some (pos 1);
      recipients = record { id = pos 1; token = codes "t"; rcpt_to = codes "x@y.de" } ∷ [];
    })
    ∷ []

abbrev sent : StoreSendOutcome × MemoryStore
sent = insert_send_operation tools 0 7 plan (some request) filled_store

first_send : sent ≡ (stored_send first_response, sent.1)
unfolding insert_send_operation empty_store
first_send = refl

-- Another send under its own key, and a pruning.
abbrev between : MemoryStore
between =
    (prune_idempotency_requests_at 60
      (insert_send_operation tools 20 7 plan (some (record request { key_hash = codes "other" }))
        sent.1).1).1

insert_send_operation_once_example :
    insert_send_operation tools 90 7 [] (some request) between
    ≡ (replayed_send first_response, between)
unfolding text_eq codes
insert_send_operation_once_example =
    insert_send_operation_once tools 0 90 7 plan [] request request filled_store sent.1 between
      first_response first_send
      (next_before
        (next_before here_before
          (sends 20 7 plan (some (record request { key_hash = codes "other" })) sent.1)
          (omega arith))
        (prunes 60 _) (omega arith))
      (omega arith) refl

count_month_complete_example :
    let e = count_month acme january filled_store in
    let n = organization_month_usage january e 2 in
    let reached = reached_thresholds n (limit_of acme filled_store) in
    (n ≡ wrap_i64 (organization_month_usage january filled_store 2 +ℤ pos 1))
    × (all (is_announced acme january e) reached ≡ true)
    × (e.lifecycle_events
        ≡ filled_store.lifecycle_events
          ++ map
              (event_of acme january n (limit_of acme filled_store))
              (unannounced acme january filled_store reached))
count_month_complete_example = count_month_complete acme january filled_store

match_ip_credential-IsBest_example :
    IsBest text_networks
      (codes "10.0.0.1")
      (match_ip_credential text_networks
        (client 8 (codes "10.") ∷ client 9 (codes "10.0.") ∷ [])
        (codes "10.0.0.1"))
      (client 8 (codes "10.") ∷ client 9 (codes "10.0.") ∷ [])
match_ip_credential-IsBest_example =
    match_ip_credential-IsBest text_networks (codes "10.0.0.1")
      (client 8 (codes "10.") ∷ client 9 (codes "10.0.") ∷ [])

filled_store-IsSound : IsSound filled_store
unfolding empty_store
filled_store-IsSound = record {
  numbered = record { ascending = tt; below = refl };
  announced = record { distinct = tt; alerted = refl };
}

few_messages :
    filled_store.next_id + length (sent.1).messages < i64_half + length filled_store.messages
unfolding insert_send_operation empty_store camelmailer.Base.◌*ℤ◌
few_messages = omega arith

Reach-IsSound_example : IsSound sent.1
Reach-IsSound_example =
    Reach-IsSound tools (next here (sends 0 7 plan (some request) filled_store)) few_messages
      filled_store-IsSound

-- A session of the credential, at the end of a message from the verified domain.
abbrev at_end : Conn MemoryStore MemorySink
at_end = record {
  session = record in_data {
    credential = some small_credential;
    headers = some ((codes "from", codes "info@camel.dev" ∷ []) ∷ []);
  };
  db = filled_store;
  queue = empty_sink;
}

abbrev env_of_tests : Env MemoryStore MemorySink
env_of_tests = memory_env text_networks (λ day. january) 0 memory stand_ins

abbrev ended : Conn MemoryStore MemorySink × Reply
ended = unwrap_or (at_end, line []) (finish_data env_of_tests noon at_end)

stored_at_end : finish_data env_of_tests noon at_end ≡ some ended
unfolding finish_data memory_store map_get id_eq find_confirmed_sender_address
    find_authenticated_domain codes camelmailer.Smtp.Basic.new
    camelmailer.Smtp.Finish.finish_checked camelmailer.Smtp.Finish.rejection
    camelmailer.Smtp.Finish.is_too_large camelmailer.Smtp.Finish.received_by_us
    camelmailer.Smtp.Finish.sender_is_valid camelmailer.Smtp.Finish.with_key
    camelmailer.Smtp.Finish.check_key camelmailer.Smtp.Finish.accept_message
    camelmailer.Smtp.Finish.messages_for camelmailer.Smtp.Finish.message_for
    camelmailer.Smtp.Finish.store_messages camelmailer.Smtp.Finish.hand_over
    camelmailer.Smtp.Finish.outcome_reply camelmailer.Limit.allows camelmailer.Limit.remaining
    camelmailer.Smtp.Finish.allowance camelmailer.Limit.unlimited camelmailer.Smtp.Finish.queue_each
    camelmailer.Message.Sink.queue_message camelmailer.Smtp.Basic.reply empty_sink empty_store
    camelmailer.Text.trim_end camelmailer.Text.trim_end_where camelmailer.Text.trim_start
    camelmailer.Text.is_whitespace
stored_at_end = refl

queued_at_end : length (ended.0).queue.messages ≡ 1
unfolding finish_data memory_store map_get id_eq find_confirmed_sender_address
    find_authenticated_domain codes camelmailer.Smtp.Basic.new
    camelmailer.Smtp.Finish.finish_checked camelmailer.Smtp.Finish.rejection
    camelmailer.Smtp.Finish.is_too_large camelmailer.Smtp.Finish.received_by_us
    camelmailer.Smtp.Finish.sender_is_valid camelmailer.Smtp.Finish.with_key
    camelmailer.Smtp.Finish.check_key camelmailer.Smtp.Finish.accept_message
    camelmailer.Smtp.Finish.messages_for camelmailer.Smtp.Finish.message_for
    camelmailer.Smtp.Finish.store_messages camelmailer.Smtp.Finish.hand_over
    camelmailer.Smtp.Finish.outcome_reply camelmailer.Limit.allows camelmailer.Limit.remaining
    camelmailer.Smtp.Finish.allowance camelmailer.Limit.unlimited camelmailer.Smtp.Finish.queue_each
    camelmailer.Message.Sink.queue_message camelmailer.Smtp.Basic.reply empty_sink empty_store
    camelmailer.Text.trim_end camelmailer.Text.trim_end_where camelmailer.Text.trim_start
    camelmailer.Text.is_whitespace camelmailer.Limit.stricter camelmailer.Smtp.Finish.server_limit
    camelmailer.Limit.server_allowance camelmailer.Smtp.Finish.organization_limit
    camelmailer.Memory.Lookup.send_policy_for_organization camelmailer.Limit.organization_allowance
    wrap_i64 camelmailer.Base.◌-ℤ◌ camelmailer.Memory.Lookup.send_usage organization_month_usage
    camelmailer.Message.Sink.outgoing_count
queued_at_end = refl

finish_data-MaySend_example :
    ((ended.0).queue ≡ empty_sink)
    ⊎ MaySend filled_store 7 ((codes "from", codes "info@camel.dev" ∷ []) ∷ [])
finish_data-MaySend_example =
    finish_data-MaySend text_networks (λ day. january) 0 memory stand_ins noon at_end ended.0
      ended.1 small_credential stored_at_end refl
