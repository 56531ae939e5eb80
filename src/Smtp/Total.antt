-- ===== src/Smtp/Total.antt =====
-- The panics of the session (crates/camelmailer-smtp/src/session.rs): slices inside a character, a
-- missing header map, and a route recipient without its route.
pub mod Rcpt
pub mod Handle
use camelmailer.Base.{
  ℕ, zero, suc, ◌+◌, ◌≤◌, ◌≡◌, ◌≢◌, refl, ap, Bool, true, false, Option, none, some, List, [], ◌∷◌,
  all, leb, if◌then◌else◌, is_some, unwrap_or, arith, OnSome, if_both, ◌>>=◌, leb→le,
}
use camelmailer.Text.{
  Text, Bytes, codes, cr, byte_len, split_at_byte, strip_suffix_char, before_text, trim_end,
}
use camelmailer.Text.Laws.{
  is_ascii, split_at_byte_ascii, all-strip_suffix_char, all-before_text, all-trim_end_where,
}
use camelmailer.Model.{Credential, ResolvedRoute, EntityId}
use camelmailer.Smtp.Types.{
  Session, Conn, Reply, Moment, InputMode, Recipient, Headers, RecipientKind,
}
use camelmailer.Smtp.Env.{Env, Crates}
use camelmailer.Smtp.Address.{strip_prefix_ci, extract_address}
use camelmailer.Smtp.Basic.{reply}
use camelmailer.Smtp.Auth.{mechanism_argument, auth_plain, auth_login}
use camelmailer.Smtp.Envelope.{
  without_auth_parameter, mail_from_command, rcpt_to, rcpt_to_fuel, rcpt_parsed, parse_rcpt,
  rcpt_address, rcpt_dispatch, rcpt_by_credential, rcpt_unauthenticated, rcpt_by_ip, RcptAddress,
  may_rcpt,
}
use camelmailer.Smtp.Finish.{message_for, messages_for}
use camelmailer.Smtp.Invariant.{IsConsistent, fits, fits_kind}

strip_prefix_ci_ascii :
    (s prefix : Text) → is_ascii s ≡ true → is_some (strip_prefix_ci s prefix) ≡ true
unfolding strip_prefix_ci
strip_prefix_ci_ascii s prefix a = ground (arith, split_at_byte_ascii s (byte_len prefix) a)

without_auth_parameter_ascii :
    (s : Text) → is_ascii s ≡ true → is_ascii (without_auth_parameter s) ≡ true
unfolding without_auth_parameter trim_end
without_auth_parameter_ascii s a =
    kept (before_text (codes "AUTH=") s) (all-before_text _ (codes "AUTH=") s a)
  where
    kept :
        (o : Option Text)
        → OnSome (λ r. is_ascii r ≡ true) o
        → is_ascii (elim o [ none ↦ s | some r ↦ trim_end r ]) ≡ true
    kept none k = a
    kept (some r) k = all-trim_end_where _ _ r k

pub extract_address_ascii :
    (s cmd : Text) → is_ascii s ≡ true → is_some (extract_address s cmd) ≡ true
unfolding extract_address
extract_address_ascii s cmd a = ground (arith, strip_prefix_ci_ascii s cmd a)

pub mail_from_command_ascii :
    (input : Text) (s : Session)
    → is_ascii input ≡ true
    → is_some (mail_from_command input s) ≡ true
mail_from_command_ascii input s a =
    unfold mail_from_command in
    ground (
      arith,
      extract_address_ascii (without_auth_parameter input) (codes "MAIL FROM")
          (without_auth_parameter_ascii input a),
    )

module _ {Db Q : Type 0} (env : Env Db Q) where
  pub auth_plain_ascii :
      (input : Text) (c : Conn Db Q)
      → is_ascii input ≡ true
      → is_some (auth_plain env input c) ≡ true
  auth_plain_ascii input c a =
      unfold auth_plain mechanism_argument in
      ground (arith, strip_prefix_ci_ascii input (codes "AUTH PLAIN") a)

  pub auth_login_ascii :
      (input : Text) (c : Conn Db Q)
      → is_ascii input ≡ true
      → is_some (auth_login env input c) ≡ true
  auth_login_ascii input c a =
      unfold auth_login mechanism_argument in
      ground (arith, strip_prefix_ci_ascii input (codes "AUTH LOGIN") a)
