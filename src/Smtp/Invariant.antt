-- ===== src/Smtp/Invariant.antt =====
-- The invariant of a session of crates/camelmailer-smtp/src/session.rs between two lines.
pub mod Auth
pub mod Envelope
pub mod Finish
pub mod Handle
use camelmailer.Base.{
  ◌≡◌, refl, Bool, true, false, List, [], ◌∷◌, ◌++◌, ◌&&◌, all, is_some, arith, Bool-cases,
  all-append,
}
use camelmailer.Smtp.Types.{is_rcpt_to_received, RecipientKind, Recipient, InputMode, Session}
use camelmailer.Smtp.Basic.{new, back_to_welcomed, transaction_reset}
use camelmailer.Smtp.Envelope.{may_rcpt}

abbrev pub is_data_mode : InputMode → Bool
is_data_mode InputMode.data_mode = true
is_data_mode _ = false

-- A route recipient carries its route, and an outgoing one stands in an authenticated session.
abbrev pub fits_kind : Bool → Recipient → RecipientKind → Bool
fits_kind authenticated r RecipientKind.bounce = true
fits_kind authenticated r RecipientKind.route = is_some r.resolved
fits_kind authenticated r RecipientKind.credential = authenticated

abbrev pub fits : Bool → Recipient → Bool
fits authenticated r = fits_kind authenticated r r.kind

pub record IsConsistent (s : Session) : Type 0 where
  pub message_open :
      is_data_mode s.input_mode ≡ true → (is_some s.headers ≡ true) × (is_some s.body ≡ true)
  pub data_after_rcpt : is_data_mode s.input_mode ≡ true → is_rcpt_to_received s.state ≡ true
  pub recipients_fit : all (fits (is_some s.credential)) s.recipients ≡ true
  pub recipients_late : is_rcpt_to_received s.state ≡ false → s.recipients ≡ []
  pub sender_known : may_rcpt s.state ≡ true → is_some s.mail_from ≡ true

-- A session that gains a credential keeps its recipients in order.
pub fits_authenticated :
    (b : Bool) (rs : List Recipient) → all (fits b) rs ≡ true → all (fits true) rs ≡ true
fits_authenticated b [] h = refl
fits_authenticated true (r ∷ rs) h = h
fits_authenticated false (r ∷ rs) h = ground (arith, fits_authenticated false rs)
