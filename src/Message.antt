-- ===== src/Message.antt =====
-- crates/camelmailer-core/src/message.rs: the message that an accepted transaction produces, the
-- outcome of storing a transaction, and `MemorySink`, the in-memory sink with its idempotency cache.
pub mod Headers
pub mod Sink
use camelmailer.Base.{ℕ, Bool, true, false, Option}
use camelmailer.Text.{Text, Bytes}
use camelmailer.Model.{EntityId}

pub data MessageScope : Type 0 where
  incoming outgoing : MessageScope

-- `metadata` is a JSON value in the source; it is kept as its text.
pub record QueuedMessage : Type 0 where
  pub server_id : EntityId
  pub rcpt_to : Text
  pub mail_from : Text
  pub raw_message : Bytes
  pub received_with_ssl : Bool
  pub scope : MessageScope
  pub bounce : Bool
  pub domain_id : Option EntityId
  pub credential_id : Option EntityId
  pub route_id : Option EntityId
  pub tag : Option Text
  pub metadata : Option Text
  pub stream_id : Option EntityId

abbrev pub is_outgoing : MessageScope → Bool
is_outgoing outgoing = true
is_outgoing incoming = false

-- A point in time is its number of seconds.
pub record IdempotencyRequest : Type 0 where
  pub key_hash : Text
  pub request_hash : Text
  pub operation : Text
  pub expires_at : ℕ

pub data QueueMessagesOutcome : Type 0 where
  stored replayed conflict : QueueMessagesOutcome
  limit_exceeded : Text → QueueMessagesOutcome
  failed : Text → QueueMessagesOutcome
