-- ===== src/Model.antt =====
-- crates/camelmailer-core/src/model.rs: the records that the SMTP session and the message sink read,
-- with the fields that the modelled code reads or writes (the remaining fields of `Server`, `Route`,
-- `Domain` and `SenderAddress` are display and tracking settings that it never looks at), and `quota.rs`'s
-- `OrganizationPolicy`. An `EntityId` is the source's `Id`, a `u64`, kept as a number: the code only compares them.
use camelmailer.Base.{ℕ, Bool, Option, ℤ}
use camelmailer.Text.{Text}

abbrev pub EntityId : Type 0
EntityId = ℕ

pub record Organization : Type 0 where
  pub id : EntityId
  pub uuid : Text
  pub name : Text
  pub permalink : Text
  pub require_two_factor : Bool

pub record Server : Type 0 where
  pub id : EntityId
  pub organization_id : EntityId
  pub permalink : Text
  pub token : Text
  pub suspended : Bool
  pub privacy_mode : Bool
  pub allow_sender : Bool
  pub send_limit : Option ℤ

pub data RouteMode : Type 0 where
  endpoint accept hold bounce reject : RouteMode

pub record Route : Type 0 where
  pub id : EntityId
  pub server_id : EntityId
  pub domain_id : Option EntityId
  pub name : Text
  pub token : Text
  pub mode : RouteMode

pub data CredentialType : Type 0 where
  smtp api smtp_ip : CredentialType

pub record Credential : Type 0 where
  pub id : EntityId
  pub server_id : EntityId
  pub credential_type : CredentialType
  pub name : Text
  pub key : Text
  pub hold : Bool
  pub last_used_at : Option ℕ

-- A route joined with its server and the name of its domain.
pub record ResolvedRoute : Type 0 where
  pub route : Route
  pub server : Server
  pub domain_name : Text

pub record OrganizationPolicy : Type 0 where
  pub monthly_send_limit : Option ℤ
  pub suspended : Bool
  pub suspension_reason : Option Text

pub data DomainOwner : Type 0 where
  of_organization of_server : EntityId → DomainOwner

pub record Domain : Type 0 where
  pub id : EntityId
  pub owner : DomainOwner
  pub name : Text
  pub verified : Bool

pub record SenderAddress : Type 0 where
  pub id : EntityId
  pub server_id : EntityId
  pub email_address : Text
  pub verified : Bool
