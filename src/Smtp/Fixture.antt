-- ===== src/Smtp/Fixture.antt =====
-- A small installation for the tests: one server with one credential and one route, a sink in memory,
-- and stand-ins for the functions of other crates.
use camelmailer.Base.{ℕ, true, false, none, some, List, [], ◌∷◌, map, ◌==◌, if◌then◌else◌, pos}
use camelmailer.Text.{codes, to_ascii_lowercase}
use camelmailer.Model.{Server, Credential, CredentialType, RouteMode, ResolvedRoute}
use camelmailer.Message.Sink.{MemorySink, queue_message, queue_messages, empty_sink}
use camelmailer.Smtp.Types.{
  SessionConfig, Session, Conn, Moment, State, InputMode, Recipient, RecipientKind,
}
use camelmailer.Smtp.Env.{Store, MessageSink, Crates, Env}
use camelmailer.Smtp.Basic.{new}

abbrev pub config_with_tls : SessionConfig
config_with_tls = record {
  smtp_hostname = codes "mx.camel.dev";
  tls_enabled = true;
  auth_requires_tls = true;
  max_message_size = 14;
  return_path_domain = codes "rp.camel.dev";
  custom_return_path_prefix = codes "psrp";
  route_domain = codes "routes.camel.dev";
}

abbrev pub small_server : Server
small_server = record {
  id = 7;
  organization_id = 2;
  permalink = codes "mail";
  token = codes "tok";
  suspended = false;
  privacy_mode = false;
  allow_sender = false;
  send_limit = some (pos 10);
}

abbrev pub small_credential : Credential
small_credential = record {
  id = 3;
  server_id = 7;
  credential_type = CredentialType.smtp;
  name = codes "main";
  key = codes "secret";
  hold = false;
  last_used_at = none;
}

abbrev pub small_route : ResolvedRoute
small_route = record {
  route = record {
    id = 4;
    server_id = 7;
    domain_id = some 5;
    name = codes "info";
    token = codes "rt";
    mode = RouteMode.accept;
  };
  server = small_server;
  domain_name = codes "camel.dev";
}

-- The state of the store is the list of the credentials that were used.
abbrev pub small_store : Store (List ℕ)
small_store = record {
  organization = λ db id. none;
  server = λ db id. if id == 7 then some small_server else none;
  find_smtp_credential_by_key = λ db k. some small_credential;
  find_server_by_token = λ db t. none;
  find_route_by_token = λ db t. none;
  find_route_by_name_and_domain = λ db n d. some small_route;
  find_ip_credential = λ db ip. some small_credential;
  smtp_credentials_for_server = λ db id. small_credential ∷ [];
  find_server_by_permalinks = λ db o p. some small_server;
  find_authenticated_domain = λ db id values. some 5;
  send_usage = λ db id. pos 4;
  send_policy_for_organization = λ db id. record {
    monthly_send_limit = some (pos 100);
    suspended = false;
    suspension_reason = none;
  };
  organization_month_usage = λ db id. pos 40;
  return_path_route_for_server = λ db id. none;
  record_credential_use = λ db id. id ∷ db;
  find_confirmed_sender_address = λ db id values. false;
}

abbrev pub memory : MessageSink MemorySink
memory = record { queue_message = queue_message; queue_messages = queue_messages }

abbrev pub stand_ins : Crates
stand_ins = record {
  base64_decode = λ t. some t;
  base64_encode = λ b. b;
  from_utf8_lossy = λ b. b;
  to_lowercase = λ t. map to_ascii_lowercase t;
  parse_ip = λ t. some t;
  hmac_md5 = λ k b. b;
  sha256 = λ b. b;
  domain_to_ascii = λ t. some t;
  rfc2822 = λ t. codes "Thu, 01 Jan 1970 00:00:00 +0000";
}

abbrev pub small_env : Env (List ℕ) MemorySink
small_env = record { store = small_store; sink = memory; crates = stand_ins }

abbrev pub noon : Moment
noon = record { now = 43200; utc_now = 43200; nonce = codes "00" }

abbrev pub greeted : Session
greeted = new stand_ins config_with_tls (codes "T1") (some (codes "10.0.0.1"))

abbrev pub connected : Session → Conn (List ℕ) MemorySink
connected s = record { session = s; db = []; queue = empty_sink }

abbrev pub routed : Recipient
routed = record {
  kind = RecipientKind.route;
  rcpt_to = codes "info@camel.dev";
  server = small_server;
  resolved = some small_route;
}

-- A session that has one incoming recipient and receives a message of one empty line so far.
abbrev pub in_data : Session
in_data = record greeted {
  state = State.rcpt_to_received;
  input_mode = InputMode.data_mode;
  mail_from = some (codes "a@b.de");
  recipients = routed ∷ [];
  headers = some [];
  body = some (codes "\r\n");
}
