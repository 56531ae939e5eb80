-- ===== src/Smtp/Env.antt =====
-- What the session takes from elsewhere: the `Store` trait (crates/camelmailer-core/src/store.rs),
-- the `MessageSink` trait (message.rs), and the functions of third-party crates and of the Rust
-- library's Unicode tables. `Db` and `Q` are the states behind the two traits.
use camelmailer.Base.{ℕ, Bool, Option, List, ℤ}
use camelmailer.Text.{Text, Bytes}
use camelmailer.Model.{
  EntityId, Organization, Server, Credential, ResolvedRoute, OrganizationPolicy,
}
use camelmailer.Limit.{SendAllowance}
use camelmailer.Message.{QueuedMessage, IdempotencyRequest, QueueMessagesOutcome}

pub record Store (Db : Type 0) : Type 0 where
  pub organization : Db → EntityId → Option Organization
  pub server : Db → EntityId → Option Server
  pub find_smtp_credential_by_key : Db → Text → Option Credential
  pub find_server_by_token : Db → Text → Option Server
  pub find_route_by_token : Db → Text → Option ResolvedRoute
  pub find_route_by_name_and_domain : Db → Text → Text → Option ResolvedRoute
  -- the argument is a parsed `IpAddr`, as its canonical text
  pub find_ip_credential : Db → Text → Option Credential
  pub smtp_credentials_for_server : Db → EntityId → List Credential
  pub find_server_by_permalinks : Db → Text → Text → Option Server
  pub find_authenticated_domain : Db → EntityId → List Text → Option EntityId
  pub send_usage : Db → EntityId → ℤ
  pub send_policy_for_organization : Db → EntityId → OrganizationPolicy
  pub organization_month_usage : Db → EntityId → ℤ
  pub return_path_route_for_server : Db → EntityId → Option ResolvedRoute
  pub record_credential_use : Db → EntityId → Db
  pub find_confirmed_sender_address : Db → EntityId → List Text → Bool

-- The first argument of `queue_messages` is the wall clock that the sink reads.
pub record MessageSink (Q : Type 0) : Type 0 where
  pub queue_message : QueuedMessage → Q → Q
  pub queue_messages :
      ℕ
      → List QueuedMessage
      → Option IdempotencyRequest
      → SendAllowance
      → Q
      → QueueMessagesOutcome × Q

pub record Crates : Type 0 where
  -- base64: decoding of the alphabet with or without padding, and encoding
  pub base64_decode : Text → Option Bytes
  pub base64_encode : Bytes → Text
  -- `String::from_utf8_lossy`, `str::to_lowercase` and `str::parse::<IpAddr>`
  pub from_utf8_lossy : Bytes → Text
  pub to_lowercase : Text → Text
  pub parse_ip : Text → Option Text
  -- hmac with md-5 (key, message), and sha2
  pub hmac_md5 : Bytes → Bytes → Bytes
  pub sha256 : Bytes → Bytes
  -- idna::domain_to_ascii
  pub domain_to_ascii : Text → Option Text
  -- chrono's "%a, %d %b %Y %H:%M:%S +0000"
  pub rfc2822 : ℕ → Text

pub record Env (Db Q : Type 0) : Type 0 where
  pub store : Store Db
  pub sink : MessageSink Q
  pub crates : Crates
