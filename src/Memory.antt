-- ===== src/Memory.antt =====
-- crates/camelmailer-core/src/store.rs: the state of `MemoryStore`, the in-memory store, with the maps
-- that the modelled operations read or write. Its lock makes every operation one step.
pub mod Lookup
pub mod Reading
pub mod Count
pub mod Send
pub mod Inbound
pub mod Instance
pub mod Owned
pub mod Gate
mod Tests
use camelmailer.Base.{ℕ, ◌&&◌, Bool, Option, none, List, [], ◌==◌, ℤ, ltb_ℤ, leb_ℤ}
use camelmailer.Text.{Text, Bytes, text_eq}
use camelmailer.Model.{
  EntityId, Organization, Server, Domain, Route, Credential, SenderAddress, OrganizationPolicy,
}
use camelmailer.Quota.{UsageMonth}

-- The stored form of a message. A time is a number of seconds, and the spam score, which no operation
-- here reads, is left out.
pub record MessageRecord : Type 0 where
  pub id : ℤ
  pub token : Text
  pub server_id : EntityId
  pub scope : Text
  pub rcpt_to : Text
  pub mail_from : Text
  pub subject : Option Text
  pub message_id_header : Option Text
  pub tag : Option Text
  pub status : Text
  pub bounce : Bool
  pub bounce_for_id : Option ℤ
  pub bounce_correlated_at : Option ℕ
  pub bounce_category : Option Text
  pub spam_status : Text
  pub held : Bool
  pub threat : Bool
  pub size : ℕ
  pub metadata : Option Text
  pub stream_id : Option EntityId
  pub campaign_id : Option EntityId
  pub bypassed : Bool
  pub created_at : ℕ
  pub raw_message : Bytes

pub record SentMessage : Type 0 where
  pub id : ℤ
  pub token : Text
  pub rcpt_to : Text

pub record StoredSendResult : Type 0 where
  pub message_id : Option ℤ
  pub recipients : List SentMessage

pub data SendOperationItem : Type 0 where
  success : StoredSendResult → SendOperationItem
  failure : Text → Text → SendOperationItem

-- The items of a `SendOperationResult`.
abbrev pub SendOperationResult : Type 0
SendOperationResult = List SendOperationItem

pub record MemoryIdempotencyRecord : Type 0 where
  pub request_hash : Text
  pub operation : Text
  pub response : SendOperationResult
  pub expires_at : ℕ

-- A usage threshold that an organization crossed: what `usage_threshold_event` is built from.
pub record UsageEvent : Type 0 where
  pub organization : Organization
  pub month : UsageMonth
  pub threshold : ℕ
  pub sent : ℤ
  pub limit : ℤ

-- A one-click unsubscribe token: token, server, stream and address.
abbrev pub UnsubscribeToken : Type 0
UnsubscribeToken = Text × EntityId × Option EntityId × Text

pub record MemoryStore : Type 0 where
  pub next_id : ℕ
  pub send_counters : List ((EntityId × ℕ) × ℤ)
  pub organization_send_counters : List ((EntityId × UsageMonth) × ℤ)
  pub usage_alerts : List (EntityId × UsageMonth × ℕ)
  pub organization_policies : List (EntityId × OrganizationPolicy)
  pub lifecycle_events : List UsageEvent
  pub organizations : List (EntityId × Organization)
  pub billing_customer_ids : List (EntityId × Text)
  pub servers : List (EntityId × Server)
  pub domains : List (EntityId × Domain)
  pub routes : List (EntityId × Route)
  pub credentials : List (EntityId × Credential)
  pub credential_uses : List (EntityId × ℕ)
  pub sender_addresses : List (EntityId × SenderAddress)
  pub unsubscribe_tokens : List UnsubscribeToken
  pub messages : List MessageRecord
  pub idempotency_requests : List ((EntityId × Text) × MemoryIdempotencyRecord)

unfoldable pub empty_store : MemoryStore
empty_store = record {
  next_id = 1;
  send_counters = [];
  organization_send_counters = [];
  usage_alerts = [];
  organization_policies = [];
  lifecycle_events = [];
  organizations = [];
  billing_customer_ids = [];
  servers = [];
  domains = [];
  routes = [];
  credentials = [];
  credential_uses = [];
  sender_addresses = [];
  unsubscribe_tokens = [];
  messages = [];
  idempotency_requests = [];
}

-- The equality of the maps' keys.
unfoldable pub month_eq : UsageMonth → UsageMonth → Bool
month_eq a b = leb_ℤ a.year b.year && leb_ℤ b.year a.year && a.month == b.month

unfoldable pub id_eq : EntityId → EntityId → Bool
id_eq a b = a == b

unfoldable pub day_key_eq : EntityId × ℕ → EntityId × ℕ → Bool
day_key_eq a b = a.0 == b.0 && a.1 == b.1

unfoldable pub month_key_eq : EntityId × UsageMonth → EntityId × UsageMonth → Bool
unfolding month_eq
month_key_eq a b = a.0 == b.0 && month_eq a.1 b.1

unfoldable pub request_key_eq : EntityId × Text → EntityId × Text → Bool
unfolding text_eq
request_key_eq a b = a.0 == b.0 && text_eq a.1 b.1
