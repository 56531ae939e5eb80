-- ===== src/Smtp/Finish.antt =====
-- crates/camelmailer-smtp/src/session.rs: `finish_data`, which checks a whole message and hands it to
-- the sink.
use camelmailer.Base.{
  ℕ, ◌+◌, ◌*◌, ◌%◌, ◌^◌, Bool, true, false, not, ◌&&◌, ◌||◌, Option, none, some, List, [], ◌∷◌,
  ◌++◌, ltb, leb, if◌then◌else◌, is_empty, is_some, unwrap_or, map_option, length, drop, any, all,
  count_where, pos, ◌>>=◌,
}
use camelmailer.Text.{Text, Bytes, codes, contains, trim, byte_len, as_bytes}
use camelmailer.Text.Format.{decimal}
use camelmailer.Model.{EntityId, Server, Credential, ResolvedRoute}
use camelmailer.Limit
use camelmailer.Limit.{SendAllowance, allows, rejection_message}
use camelmailer.Message.{
  MessageScope, QueuedMessage, IdempotencyRequest, QueueMessagesOutcome, stored, replayed, conflict,
  limit_exceeded, failed,
}
use camelmailer.Message.Sink.{outgoing_count}
use camelmailer.Smtp.Types.{
  Reply, line, RecipientKind, is_credential, Recipient, Session, Conn, Moment, Headers,
}
use camelmailer.Smtp.Env.{Env}
use camelmailer.Smtp.Hash.{strip_message_header, sha256_hex, smtp_request_hash}
use camelmailer.Smtp.Basic.{reply, back_to_welcomed}
use camelmailer.Smtp.Body.{header_get}

abbrev pub idempotency_header : Text
idempotency_header = codes "camelmailer-idempotency-key"

-- `max_message_size * 1024 * 1024`, a product of `u64`.
unfoldable pub max_bytes : ℕ → ℕ
max_bytes megabytes = megabytes * 1024 * 1024 % 2 ^ 64

unfoldable pub is_too_large : Session → Bytes → Bool
unfolding max_bytes
is_too_large s message = ltb (max_bytes s.config.max_message_size) (length message)

unfoldable pub received_by_us : Session → Headers → ℕ
unfolding header_get contains
received_by_us s headers =
    count_where (λ v. contains v (codes "by " ++ s.config.smtp_hostname))
      (unwrap_or [] (header_get (codes "received") headers))

-- What the idempotency header of a message asks for.
pub data KeyCheck : Type 0 where
  no_key : KeyCheck
  key : Text → KeyCheck
  bad_key : Text → KeyCheck

is_key_byte : ℕ → Bool
is_key_byte b = leb 0x20 b && leb b 0x7e

unfoldable pub is_valid_key : Text → Bool
unfolding is_key_byte byte_len as_bytes
is_valid_key k = not (is_empty k) && leb (byte_len k) 256 && all is_key_byte (as_bytes k)

unfoldable pub all_credential : List Recipient → Bool
all_credential rs = not (any (λ (r : Recipient). not (is_credential r.kind)) rs)

unfoldable pub check_key : List Recipient → Option (List Text) → KeyCheck
unfolding is_valid_key all_credential trim
check_key rs none = no_key
check_key rs (some (value ∷ [])) =
    if all_credential rs
    then if is_valid_key (trim value)
      then key (trim value)
      else bad_key (codes "554 Invalid CamelMailer-Idempotency-Key")
    else bad_key (codes "554 CamelMailer-Idempotency-Key is only valid for authenticated sends")
check_key rs (some _) = bad_key (codes "554 Invalid CamelMailer-Idempotency-Key")

-- The fields of a queued message that its recipient's kind decides.
unfoldable pub queued :
    Session
    → Text
    → Bytes
    → Recipient
    → MessageScope
    → Bool
    → Option EntityId
    → Option EntityId
    → Option EntityId
    → QueuedMessage
queued s mail_from message r scope bounced domain_id credential_id route_id = record {
  server_id = r.server.id;
  rcpt_to = r.rcpt_to;
  mail_from = mail_from;
  raw_message = message;
  received_with_ssl = s.tls;
  scope = scope;
  bounce = bounced;
  domain_id = domain_id;
  credential_id = credential_id;
  route_id = route_id;
  tag = none;
  metadata = none;
  stream_id = none;
}

unfoldable pub outcome_reply : QueueMessagesOutcome → Reply
unfolding reply
outcome_reply stored = reply (codes "250 OK")
outcome_reply replayed = reply (codes "250 OK")
outcome_reply conflict = reply (codes "554 Idempotency key reused with a different request")
outcome_reply (limit_exceeded message) = line (codes "550 5.7.1 " ++ message)
outcome_reply (failed error) = reply (codes "451 Temporary storage failure")

unfoldable pub refuse : {Db Q : Type 0} → Text → Conn Db Q → Conn Db Q × Reply
unfolding back_to_welcomed
refuse text c = (record c { session = back_to_welcomed c.session }, line text)

module _ {Db Q : Type 0} (env : Env Db Q) where
  find_in_headers : Db → EntityId → Headers → Text → Option EntityId
  find_in_headers db sid headers name =
      env.store.find_authenticated_domain db sid (unwrap_or [] (header_get name headers))

  -- The From header first, then the Sender header of a server that allows it.
  unfoldable pub find_authenticated_domain :
      Db → EntityId → Headers → Option Server → Option EntityId
  unfolding find_in_headers header_get
  find_authenticated_domain db sid headers srv =
      elim (find_in_headers db sid headers (codes "from")) [
        | some d ↦ some d
        | none ↦
            if unwrap_or false (map_option (λ (v : Server). v.allow_sender) srv)
            then find_in_headers db sid headers (codes "sender")
            else none
      ]

  unfoldable pub confirmed_sender_address_in_from : Db → EntityId → Headers → Bool
  unfolding header_get
  confirmed_sender_address_in_from db sid headers =
      env.store.find_confirmed_sender_address db sid
        (unwrap_or [] (header_get (codes "from") headers))

  -- The domain that authorises the message, of a session with a credential.
  unfoldable pub authenticated_domain : Db → Headers → Option Credential → Option EntityId
  unfolding find_authenticated_domain
  authenticated_domain db headers none = none
  authenticated_domain db headers (some cred) =
      find_authenticated_domain db cred.server_id headers (env.store.server db cred.server_id)

  -- Without a credential nothing is asked of the From header.
  unfoldable pub sender_is_valid : Db → Headers → Option Credential → Bool
  unfolding authenticated_domain confirmed_sender_address_in_from
  sender_is_valid db headers none = true
  sender_is_valid db headers (some cred) =
      is_some (authenticated_domain db headers (some cred))
      || confirmed_sender_address_in_from db cred.server_id headers

  bounce_message : Session → Text → Bytes → Recipient → Option ResolvedRoute → QueuedMessage
  bounce_message s from message r none =
      queued s from message r MessageScope.incoming true none none none
  bounce_message s from message r (some rp) =
      queued s from message r MessageScope.incoming true rp.route.domain_id none (some rp.route.id)

  route_message : Session → Text → Bytes → Recipient → Option ResolvedRoute → Option QueuedMessage
  route_message s from message r found = do
    rt ← found
    some (
        queued s from message r MessageScope.incoming false rt.route.domain_id none
          (some rt.route.id))

  message_of_kind :
      Db
      → Session
      → Text
      → Bytes
      → Option EntityId
      → Recipient
      → RecipientKind
      → Option QueuedMessage
  message_of_kind db s from message domain_id r RecipientKind.credential = some (
      queued s from message r MessageScope.outgoing false domain_id
        (map_option (λ (cred : Credential). cred.id) s.credential) none)
  message_of_kind db s from message domain_id r RecipientKind.bounce =
      some (bounce_message s from message r (env.store.return_path_route_for_server db r.server.id))
  message_of_kind db s from message domain_id r RecipientKind.route =
      route_message s from message r r.resolved

  -- One message for a recipient. `none` is the panic of a route recipient without a route.
  unfoldable pub message_for :
      Db → Session → Text → Bytes → Option EntityId → Recipient → Option QueuedMessage
  unfolding message_of_kind bounce_message route_message queued
  message_for db s from message domain_id r = message_of_kind db s from message domain_id r r.kind

  unfoldable pub messages_for :
      Db → Session → Text → Bytes → Option EntityId → List Recipient → Option (List QueuedMessage)
  messages_for db s from message domain_id [] = some []
  messages_for db s from message domain_id (r ∷ rs) = do
    m ← message_for db s from message domain_id r
    ms ← messages_for db s from message domain_id rs
    some (m ∷ ms)

  unfoldable pub server_limit : Db → Server → SendAllowance
  server_limit db srv = elim srv.send_limit [
    | none ↦ Limit.unlimited
    | some limit ↦ Limit.server_allowance (some limit) (env.store.send_usage db srv.id)
  ]

  unfoldable pub organization_limit : Db → Server → SendAllowance
  organization_limit db srv =
      elim (env.store.send_policy_for_organization db srv.organization_id).monthly_send_limit [
        | none ↦ Limit.unlimited
        | some limit ↦
            Limit.organization_allowance (some limit)
              (env.store.organization_month_usage db srv.organization_id)
      ]

  unfoldable pub allowance_of : Db → Option Server → SendAllowance
  allowance_of db none = Limit.unlimited
  allowance_of db (some srv) = Limit.stricter (server_limit db srv) (organization_limit db srv)

  -- The allowance of the session's credential, read afresh for each message.
  unfoldable pub allowance : Db → Option Credential → SendAllowance
  unfolding allowance_of
  allowance db cred = allowance_of db (do k ← cred; env.store.server db k.server_id)

  unfoldable pub queue_each : List QueuedMessage → Q → Q
  queue_each [] q = q
  queue_each (m ∷ ms) q = queue_each ms (env.sink.queue_message m q)

  -- With an idempotency key the sink checks the allowance, and without one the session does.
  unfoldable pub hand_over :
      ℕ
      → List QueuedMessage
      → Option IdempotencyRequest
      → SendAllowance
      → Q
      → QueueMessagesOutcome × Q
  hand_over now ms (some request) limit q = env.sink.queue_messages now ms (some request) limit q
  hand_over now ms none limit q =
      if allows limit (pos (outgoing_count ms))
      then (stored, queue_each ms q)
      else (limit_exceeded (rejection_message limit), q)

  -- The request that a key makes: the hashes of the key and of what the client sent, and the expiry
  -- after 24 hours.
  unfoldable pub request_of : Moment → Session → Text → Bytes → Text → IdempotencyRequest
  request_of m s from message k = record {
    key_hash = sha256_hex env.crates (as_bytes k);
    request_hash =
        smtp_request_hash env.crates from s.recipients (drop s.client_data_offset message);
    operation = codes "smtp.send";
    expires_at = m.utc_now + 86400;
  }

  -- The messages of the transaction go to the sink, and the session starts over.
  unfoldable pub store_messages :
      Moment → Conn Db Q → Option IdempotencyRequest → List QueuedMessage → Conn Db Q × Reply
  store_messages m c idempotency ms =
      let (outcome, q) =
        hand_over m.utc_now ms idempotency (allowance c.db c.session.credential) c.queue in
      (record c { session = back_to_welcomed c.session; queue = q }, outcome_reply outcome)

  unfoldable pub accept_message :
      Moment → Conn Db Q → Headers → Bytes → Option IdempotencyRequest → Option (Conn Db Q × Reply)
  accept_message m c headers message idempotency = do
    ms ←
        messages_for c.db c.session (unwrap_or [] c.session.mail_from) message
          (authenticated_domain c.db headers c.session.credential) c.session.recipients
    some (store_messages m c idempotency ms)

  unfoldable pub with_key :
      Moment → Conn Db Q → Headers → Bytes → KeyCheck → Option (Conn Db Q × Reply)
  with_key m c headers message no_key = accept_message m c headers message none
  with_key m c headers message (bad_key text) = some (refuse text c)
  with_key m c headers message (key k) =
      let stripped = strip_message_header message idempotency_header in
      accept_message m c headers stripped
        (some (request_of m c.session (unwrap_or [] c.session.mail_from) stripped k))

  -- The first three checks of a message, and the reply of the one that fails.
  unfoldable pub rejection : Conn Db Q → Bytes → Headers → Option Text
  rejection c message headers =
      if is_too_large c.session message
      then some (
          codes "552 Message too large (maximum size "
          ++ (decimal c.session.config.max_message_size ++ codes "MB)"))
      else if ltb 4 (received_by_us c.session headers)
      then some (codes "550 Loop detected")
      else if not (sender_is_valid c.db headers c.session.credential)
      then some (codes "530 From/Sender name is not valid")
      else none

  unfoldable pub finish_checked :
      Moment → Conn Db Q → Bytes → Headers → Option Text → Option (Conn Db Q × Reply)
  finish_checked m c message headers (some text) = some (refuse text c)
  finish_checked m c message headers none =
      with_key m c headers message
        (check_key c.session.recipients (header_get idempotency_header headers))

  -- `none` is the panic of `accept_message`.
  unfoldable pub finish_data : Moment → Conn Db Q → Option (Conn Db Q × Reply)
  finish_data m c =
      let message = unwrap_or [] c.session.body in
      let headers = unwrap_or [] c.session.headers in
      finish_checked m c message headers (rejection c message headers)
