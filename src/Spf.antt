-- ===== src/Spf.antt =====
-- crates/camelmailer-core/src/spf.rs: the bounded SPF evaluator. `Spf.Term` reads the terms of a
-- record, `Spf.Eval` walks them.
pub mod Term
pub mod Eval
pub mod Header
pub mod Budget
pub mod Verdict
mod Tests
use camelmailer.Base.{ℕ, Bool, true, false, Option, List}
use camelmailer.Text.{Text}

-- The source's `None` is `no_policy`.
pub data SpfResult : Type 0 where
  pass fail soft_fail neutral no_policy temp_error perm_error : SpfResult

-- The source's `Macro`, `Exists` and `Ptr`.
pub data UnsupportedKind : Type 0 where
  macro_term exists_term ptr_term : UnsupportedKind

pub record UnsupportedTerm : Type 0 where
  pub term : Text
  pub domain : Text
  pub kind : UnsupportedKind

pub data SpfVerdict : Type 0 where
  determined : SpfResult → SpfVerdict
  unverifiable : UnsupportedTerm → SpfVerdict

pub data MacroMode : Type 0 where
  lenient report : MacroMode

abbrev pub is_report : MacroMode → Bool
is_report lenient = false
is_report report = true

pub data MechanismOutcome : Type 0 where
  matched no_match : MechanismOutcome
  error : SpfResult → MechanismOutcome

-- The trait `SpfResolver`. `none` is a failed lookup.
pub record SpfResolver (Ip : Type 0) : Type 0 where
  pub txt : Text → Option (List Text)
  pub ip_addresses : Text → Option (List Ip)
  pub mx_hosts : Text → Option (List Text)

-- The addresses and networks of the Rust library and of the crate ipnet: the equality of addresses,
-- the parsers, `IpNet::new`, `IpNet::contains` and the printed form of an address.
pub record Nets (Ip Net : Type 0) : Type 0 where
  pub ip_eq : Ip → Ip → Bool
  pub parse_ip : Text → Option Ip
  pub parse_net : Text → Option Net
  pub new_net : Ip → ℕ → Option Net
  pub contains : Net → Ip → Bool
  pub show : Ip → Text
