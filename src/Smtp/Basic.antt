-- ===== src/Smtp/Basic.antt =====
-- crates/camelmailer-smtp/src/session.rs: `Session::new`, `transaction_reset`, and the commands that
-- neither authenticate nor move mail (PROXY, QUIT, STARTTLS, EHLO, HELO, RSET, NOOP).
use camelmailer.Base.{
  Bool, true, false, not, ◌&&◌, ◌||◌, Option, none, some, List, [], ◌∷◌, ◌++◌, map, ◌==◌,
  if◌then◌else◌, is_empty, is_some, all, unwrap_or, map_option,
}
use camelmailer.Text.{Text, codes, trim, split_once, split_where, text_eq, to_ascii_lowercase}
use camelmailer.Smtp.Types.{SessionConfig, State, Reply, line, lines, InputMode, Session, Conn}
use camelmailer.Smtp.Env.{Crates}
use camelmailer.Smtp.Address.{normalize_dns_domain_name}

-- The reply of a literal.
unfoldable pub reply : Text → Reply
reply t = line t

unfoldable pub new : Crates → SessionConfig → Text → Option Text → Session
unfolding normalize_dns_domain_name
new crates config trace_id ip_address = record {
  config = record config {
    return_path_domain = unwrap_or [] (normalize_dns_domain_name crates config.return_path_domain);
    custom_return_path_prefix = map to_ascii_lowercase config.custom_return_path_prefix;
  };
  state = if is_some ip_address then State.welcome else State.preauth;
  input_mode = InputMode.command;
  trace_id = trace_id;
  ip_address = ip_address;
  resolved_hostname = none;
  received_spf = none;
  helo_name = none;
  tls = false;
  start_tls = false;
  finished = false;
  credential = none;
  recipients = [];
  mail_from = none;
  body = none;
  client_data_offset = 0;
  headers = none;
  receiving_headers = false;
  header_key = none;
  cr_present = false;
  previous_cr_present = none;
}

unfoldable pub banner : Session → Text
banner s = codes "220 " ++ (s.config.smtp_hostname ++ (codes " ESMTP Camelmailer/" ++ s.trace_id))

unfoldable pub transaction_reset : Session → Session
transaction_reset s = record s {
  recipients = [];
  mail_from = none;
  body = none;
  client_data_offset = 0;
  headers = none;
}

-- `transaction_reset` followed by `state = Welcomed`, which four commands and every end of DATA do.
unfoldable pub back_to_welcomed : Session → Session
unfolding transaction_reset
back_to_welcomed s = record (transaction_reset s) { state = State.welcomed }

unfoldable pub auth_permitted : Session → Bool
auth_permitted s = s.tls || not s.config.tls_enabled || not s.config.auth_requires_tls

-- The fields of a PROXY line that the parser looks at: the keyword and the client address of a line
-- of six non-empty parts.
unfoldable pub proxy_address : List Text → Option Text
unfolding text_eq
proxy_address (p0 ∷ p1 ∷ p2 ∷ p3 ∷ p4 ∷ p5 ∷ []) =
    if text_eq p0 (codes "PROXY")
      && all (λ (p : Text). not (is_empty p)) (p0 ∷ p1 ∷ p2 ∷ p3 ∷ p4 ∷ p5 ∷ [])
    then some p2
    else none
proxy_address _ = none

unfoldable pub proxy : Text → Session → Session × Reply
unfolding banner reply
proxy input s = elim (proxy_address (split_where (λ c. c == b' ') input)) [
  | some ip ↦ (record s { ip_address = some ip; state = State.welcome }, line (banner s))
  | none ↦ (record s { finished = true }, reply (codes "502 Proxy Error"))
]

unfoldable pub quit : Session → Session × Reply
unfolding reply
quit s = (record s { finished = true }, reply (codes "221 Closing Connection"))

unfoldable pub starttls : Session → Session × Reply
unfolding reply
starttls s =
    if s.config.tls_enabled
    then (record s { start_tls = true; tls = true }, reply (codes "220 Ready to start TLS"))
    else (s, reply (codes "502 TLS not available"))

-- The argument of EHLO and HELO.
unfoldable pub helo_argument : Text → Option Text
unfolding trim split_once
helo_argument input = map_option (λ (p : Text × Text). p.1) (split_once b' ' (trim input))

-- Every line of a multiline reply but the last has the prefix `250-`.
unfoldable pub frame_lines : List Text → List Text
frame_lines [] = []
frame_lines (t ∷ []) = (codes "250 " ++ t) ∷ []
frame_lines (t ∷ u ∷ r) = (codes "250-" ++ t) ∷ frame_lines (u ∷ r)

unfoldable pub capabilities : Session → List Text
unfolding auth_permitted
capabilities s =
    (if s.config.tls_enabled && not s.tls then codes "STARTTLS" ∷ [] else [])
    ++ (if auth_permitted s then codes "AUTH PLAIN LOGIN" ∷ [] else [])

unfoldable pub ehlo : Text → Session → Session × Reply
unfolding back_to_welcomed helo_argument frame_lines capabilities
ehlo input s =
    let greeted = back_to_welcomed (record s { helo_name = helo_argument input }) in
    (greeted, lines (frame_lines (codes "My capabilities are" ∷ capabilities greeted)))

unfoldable pub helo : Text → Session → Session × Reply
unfolding back_to_welcomed helo_argument
helo input s =
    let greeted = back_to_welcomed (record s { helo_name = helo_argument input }) in
    (greeted, line (codes "250 " ++ greeted.config.smtp_hostname))

unfoldable pub rset : Session → Session × Reply
unfolding back_to_welcomed reply
rset s = (back_to_welcomed s, reply (codes "250 OK"))

unfoldable pub noop : Session → Session × Reply
unfolding reply
noop s = (s, reply (codes "250 OK"))

-- A command that leaves the store and the sink alone.
unfoldable pub on_session {ℓ} :
    {Db Q : Type 0} {R : Type ℓ} → (Session → Session × R) → Conn Db Q → Conn Db Q × R
on_session f c = let (s, r) = f c.session in (record c { session = s }, r)
