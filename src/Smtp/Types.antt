-- ===== src/Smtp/Types.antt =====
-- The types of crates/camelmailer-smtp/src/session.rs: the configuration, the states, the replies,
-- the recipients, the pending input modes and the session.
use camelmailer.Base.{ℕ, Bool, true, false, Option, List}
use camelmailer.Text.{Text, Bytes}
use camelmailer.Model.{Server, ResolvedRoute, Credential}

pub record SessionConfig : Type 0 where
  pub smtp_hostname : Text
  pub tls_enabled : Bool
  pub auth_requires_tls : Bool
  -- in megabytes, a `u64`
  pub max_message_size : ℕ
  pub return_path_domain : Text
  pub custom_return_path_prefix : Text
  pub route_domain : Text

pub data State : Type 0 where
  preauth welcome welcomed mail_from_received rcpt_to_received : State

abbrev pub is_preauth : State → Bool
is_preauth preauth = true
is_preauth _ = false

abbrev pub is_rcpt_to_received : State → Bool
is_rcpt_to_received rcpt_to_received = true
is_rcpt_to_received _ = false

-- `Reply::None` is `silent`.
pub data Reply : Type 0 where
  silent : Reply
  line : Text → Reply
  lines : List Text → Reply

pub data RecipientKind : Type 0 where
  bounce route credential : RecipientKind

abbrev pub is_credential : RecipientKind → Bool
is_credential credential = true
is_credential _ = false

pub record Recipient : Type 0 where
  pub kind : RecipientKind
  pub rcpt_to : Text
  pub server : Server
  pub resolved : Option ResolvedRoute

pub data InputMode : Type 0 where
  command auth_plain auth_login_username auth_login_password : InputMode
  auth_cram_md5 : Text → InputMode
  data_mode : InputMode

-- A `HashMap<String, Vec<String>>`: the code only looks keys up, so an association list stands for it.
abbrev pub Headers : Type 0
Headers = List (Text × List Text)

pub record Session : Type 0 where
  pub config : SessionConfig
  pub state : State
  pub input_mode : InputMode
  pub trace_id : Text
  pub ip_address : Option Text
  pub resolved_hostname : Option Text
  pub received_spf : Option Text
  pub helo_name : Option Text
  pub tls : Bool
  pub start_tls : Bool
  pub finished : Bool
  pub credential : Option Credential
  pub recipients : List Recipient
  pub mail_from : Option Text
  pub body : Option Bytes
  pub client_data_offset : ℕ
  pub headers : Option Headers
  pub receiving_headers : Bool
  pub header_key : Option Text
  pub cr_present : Bool
  pub previous_cr_present : Option Bool

-- A session with the store and the sink that it shares with the rest of the installation, as they
-- are when a line is handled.
pub record Conn (Db Q : Type 0) : Type 0 where
  pub session : Session
  pub db : Db
  pub queue : Q

-- What one call of `handle` reads of the outside world: the session's clock, the wall clock (both in
-- seconds) and the random hexadecimal text of a CRAM-MD5 challenge.
pub record Moment : Type 0 where
  pub now : ℕ
  pub utc_now : ℕ
  pub nonce : Text
