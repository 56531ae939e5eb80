-- ===== src/Smtp/Drive.antt =====
-- crates/camelmailer-smtp/src/server.rs: `drive_session`, which pumps the client's lines through a
-- session, with the SPF check before the first DATA. A result `none` is a panic of the source.
mod Tests
use camelmailer.Base.{
  Bool, true, false, not, ◌&&◌, Option, none, some, List, [], ◌∷◌, leb, if◌then◌else◌, is_empty,
  unwrap_or, ◌>>=◌,
}
use camelmailer.Text.{
  Text, codes, trim_start, byte_len, split_at_byte, eq_ignore_ascii_case, after_last,
}
use camelmailer.Smtp.Types.{is_rcpt_to_received, Reply, Session, Conn, Moment}
use camelmailer.Smtp.Env.{Crates, Env}
use camelmailer.Smtp.Handle.{handle}

-- The header value that the check of a domain gives, from the domain, the client's address, the
-- envelope sender and the HELO name.
abbrev pub SpfCheck : Type 0
SpfCheck = Text → Text → Text → Text → Text

unfoldable pub head_is_data : Option (Text × Text) → Option Bool
head_is_data none = none
head_is_data (some (head, _)) = some (eq_ignore_ascii_case head (codes "DATA"))

-- `trimmed[..4]` panics inside a character.
unfoldable pub is_data_command : Text → Option Bool
unfolding head_is_data trim_start byte_len split_at_byte
is_data_command input =
    if leb 4 (byte_len (trim_start input))
    then head_is_data (split_at_byte (trim_start input) 4)
    else some false

-- The domain of the envelope sender: what follows its last `@`, if that is not empty.
unfoldable pub sender_domain : Text → Option Text
unfolding after_last
sender_domain from = do domain ← after_last b'@' from; if is_empty domain then none else some domain

-- The verdict, if the client's address, the sender and its domain are all known.
unfoldable pub inbound_spf : Crates → SpfCheck → Session → Option Text
unfolding sender_domain
inbound_spf crates check s = do
  text ← s.ip_address
  ip ← crates.parse_ip text
  from ← s.mail_from
  domain ← sender_domain from
  some (check domain ip from (unwrap_or [] s.helo_name))

unfoldable pub set_received_spf : Option Text → Session → Session
set_received_spf none s = s
set_received_spf (some verdict) s = record s { received_spf = some verdict }

unfoldable pub evaluate_inbound_spf : Crates → Option SpfCheck → Session → Session
unfolding set_received_spf inbound_spf
evaluate_inbound_spf crates none s = s
evaluate_inbound_spf crates (some check) s = set_received_spf (inbound_spf crates check s) s

-- How one round of the loop ends: the session goes on, the client asked for TLS, or it is over.
pub data Next : Type 0 where
  go_on upgrade over : Next

module _ {Db Q : Type 0} (env : Env Db Q) (spf : Option SpfCheck) where
  -- The check runs before the first DATA of the loop, and at most once.
  unfoldable pub before_line : Bool → Bool → Conn Db Q → Conn Db Q × Bool
  unfolding evaluate_inbound_spf
  before_line evaluated is_data c =
      if not evaluated && is_rcpt_to_received c.session.state && is_data
      then (record c { session = evaluate_inbound_spf env.crates spf c.session }, true)
      else (c, evaluated)

  unfoldable pub next_of : Session → Next
  next_of s = if s.start_tls then upgrade else if s.finished then over else go_on

  -- `is_data_command` is asked only where the other two conditions hold.
  unfoldable pub asks_data : Bool → Session → Text → Option Bool
  unfolding is_data_command
  asks_data evaluated s input =
      if not evaluated && is_rcpt_to_received s.state then is_data_command input else some false

  -- One round: the check, the line, and what follows. `take_start_tls` clears the request.
  unfoldable pub drive_line :
      Moment → Text → Bool → Conn Db Q → Option (Conn Db Q × Bool × Reply × Next)
  unfolding before_line next_of asks_data
  drive_line m input evaluated c = do
    is_data ← asks_data evaluated c.session input
    let (checked, evaluated') = before_line evaluated is_data c
    r ← handle env m input checked
    some (
      record (r.0) { session = record (r.0.session) { start_tls = false } },
      evaluated',
      r.1,
      next_of r.0.session,
    )

  -- The rounds over the lines of a client that disconnects after them: the connection at the end,
  -- the replies, and whether a TLS upgrade was asked for.
  unfoldable pub drive :
      List (Moment × Text) → Bool → Conn Db Q → Option (Conn Db Q × List Reply × Bool)
  unfolding drive_line
  drive [] evaluated c = some (c, [], false)
  drive ((m, input) ∷ rest) evaluated c = elim (drive_line m input evaluated c) [
    | none ↦ none
    | some (c', evaluated', r, upgrade) ↦ some (c', r ∷ [], true)
    | some (c', evaluated', r, over) ↦ some (c', r ∷ [], false)
    | some (c', evaluated', r, go_on) ↦ elim (drive rest evaluated' c') [
      | none ↦ none
      | some (c'', rs, tls) ↦ some (c'', r ∷ rs, tls)
    ]
  ]
