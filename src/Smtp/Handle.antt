-- ===== src/Smtp/Handle.antt =====
-- crates/camelmailer-smtp/src/session.rs: `handle_command`, `data_line` and `handle`. A result `none`
-- is a panic of the source.
use camelmailer.Base.{Bool, true, false, ◌||◌, Option, none, some, map, if◌then◌else◌, ◌>>=◌}
use camelmailer.Text.{
  Text, codes, cr, trim_start, trim_end, starts_with, text_eq, to_ascii_uppercase,
  strip_suffix_char,
}
use camelmailer.Smtp.Types.{is_preauth, Reply, silent, InputMode, Conn, Moment}
use camelmailer.Smtp.Env.{Env}
use camelmailer.Smtp.Basic.{
  reply, auth_permitted, proxy, quit, starttls, ehlo, helo, rset, noop, on_session,
}
use camelmailer.Smtp.Auth.{
  auth_plain, auth_plain_continue, auth_login, auth_login_username, auth_login_password,
  auth_cram_md5, auth_cram_md5_continue, set_mode,
}
use camelmailer.Smtp.Envelope.{mail_from_command, rcpt_to}
use camelmailer.Smtp.Body.{data_command, is_end_of_data, message_line}
use camelmailer.Smtp.Finish.{finish_data}

-- The branches of `handle_command`, in the order of its tests.
pub data Verb : Type 0 where
  quit_verb starttls_verb ehlo_verb helo_verb rset_verb noop_verb : Verb
  plain_verb login_verb cram_verb other_auth_verb : Verb
  mail_verb rcpt_verb data_verb unknown_verb : Verb

-- The mechanism of an AUTH command, upper-cased.
unfoldable pub auth_verb : Text → Verb
unfolding starts_with codes
auth_verb upper =
    if starts_with upper (codes "AUTH PLAIN")
    then plain_verb
    else if starts_with upper (codes "AUTH LOGIN")
    then login_verb
    else if starts_with upper (codes "AUTH CRAM-MD5")
    then cram_verb
    else other_auth_verb

unfoldable pub verb_of_upper : Text → Verb
unfolding auth_verb starts_with codes trim_end text_eq
verb_of_upper upper =
    if starts_with upper (codes "QUIT")
    then quit_verb
    else if starts_with upper (codes "STARTTLS")
    then starttls_verb
    else if starts_with upper (codes "EHLO")
    then ehlo_verb
    else if starts_with upper (codes "HELO")
    then helo_verb
    else if starts_with upper (codes "RSET")
    then rset_verb
    else if starts_with upper (codes "NOOP")
    then noop_verb
    else if starts_with upper (codes "AUTH ") || text_eq (trim_end upper) (codes "AUTH")
    then auth_verb upper
    else if starts_with upper (codes "MAIL FROM")
    then mail_verb
    else if starts_with upper (codes "RCPT TO")
    then rcpt_verb
    else if starts_with upper (codes "DATA")
    then data_verb
    else unknown_verb

unfoldable pub verb_of : Text → Verb
unfolding verb_of_upper trim_start to_ascii_uppercase
verb_of input = verb_of_upper (map to_ascii_uppercase (trim_start input))

abbrev pub is_auth : Verb → Bool
is_auth plain_verb = true
is_auth login_verb = true
is_auth cram_verb = true
is_auth other_auth_verb = true
is_auth _ = false

module _ {Db Q : Type 0} (env : Env Db Q) where
  -- MAIL FROM reads and writes the session alone.
  unfoldable pub on_mail : Text → Conn Db Q → Option (Conn Db Q × Reply)
  on_mail input c = do r ← mail_from_command input c.session; some (record c { session = r.0 }, r.1)

  unfoldable pub run_verb : Moment → Text → Conn Db Q → Verb → Option (Conn Db Q × Reply)
  run_verb m input c quit_verb = some (on_session quit c)
  run_verb m input c starttls_verb = some (on_session starttls c)
  run_verb m input c ehlo_verb = some (on_session (ehlo input) c)
  run_verb m input c helo_verb = some (on_session (helo input) c)
  run_verb m input c rset_verb = some (on_session rset c)
  run_verb m input c noop_verb = some (on_session noop c)
  run_verb m input c plain_verb = auth_plain env input c
  run_verb m input c login_verb = auth_login env input c
  run_verb m input c cram_verb = some (auth_cram_md5 env m c)
  run_verb m input c other_auth_verb =
      some (c, reply (codes "504 5.5.4 Unrecognized authentication type"))
  run_verb m input c mail_verb = on_mail input c
  run_verb m input c rcpt_verb = rcpt_to env input c
  run_verb m input c data_verb = some (data_command env m c)
  run_verb m input c unknown_verb = some (c, reply (codes "502 Invalid/unsupported command"))

  -- AUTH is refused where a credential may not cross the connection, whatever the mechanism.
  unfoldable pub guard_auth : Moment → Text → Conn Db Q → Verb → Option (Conn Db Q × Reply)
  guard_auth m input c v =
      if is_auth v
      then if auth_permitted c.session
        then run_verb m input c v
        else some (
          c,
          reply (codes "538 5.7.11 Encryption required for requested authentication mechanism"),
        )
      else run_verb m input c v

  unfoldable pub handle_command : Moment → Text → Conn Db Q → Option (Conn Db Q × Reply)
  handle_command m input c = guard_auth m input c (verb_of input)

  unfoldable pub data_line : Moment → Text → Conn Db Q → Option (Conn Db Q × Reply)
  data_line m input c =
      if is_end_of_data input c.session
      then finish_data env m (set_mode env InputMode.command c)
      else (do s ← message_line env.crates input c.session; some (record c { session = s }, silent))

  unfoldable pub run_mode : Moment → Text → Conn Db Q → InputMode → Option (Conn Db Q × Reply)
  run_mode m input c InputMode.command = handle_command m input c
  run_mode m input c InputMode.auth_plain = some (auth_plain_continue env input c)
  run_mode m input c InputMode.auth_login_username = some (auth_login_username env c)
  run_mode m input c InputMode.auth_login_password = some (auth_login_password env input c)
  run_mode m input c (InputMode.auth_cram_md5 challenge) =
      some (auth_cram_md5_continue env input challenge c)
  run_mode m input c InputMode.data_mode = data_line m input c

  unfoldable pub run_line : Moment → Text → Conn Db Q → Option (Conn Db Q × Reply)
  run_line m input c =
      if is_preauth c.session.state
      then some (on_session (proxy input) c)
      else run_mode m input c c.session.input_mode

  unfoldable pub set_cr : Bool → Conn Db Q → Conn Db Q
  set_cr b c = record c { session = record (c.session) { cr_present = b } }

  -- After each line its line end becomes the previous one.
  unfoldable pub remember_cr : Conn Db Q × Reply → Conn Db Q × Reply
  remember_cr (c, r) = (
    record c { session = record (c.session) { previous_cr_present = some (c.session.cr_present) } },
    r,
  )

  unfoldable pub handle_stripped :
      Moment → Text → Option Text → Conn Db Q → Option (Conn Db Q × Reply)
  handle_stripped m input none c = run_line m input (set_cr false c)
  handle_stripped m input (some stripped) c = run_line m stripped (set_cr true c)

  -- One line of input, without its line feed: a carriage return at its end is noted and removed.
  unfoldable pub handle : Moment → Text → Conn Db Q → Option (Conn Db Q × Reply)
  handle m input c = do
    r ← handle_stripped m input (strip_suffix_char cr input) c
    some (remember_cr r)
