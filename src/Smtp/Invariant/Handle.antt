-- ===== src/Smtp/Invariant/Handle.antt =====
-- Every line keeps the invariant, from a new session on.
use camelmailer.Base.{
  OnSome, OnSome_eq, if_both, ◌≡◌, refl, true, false, arith, Option, none, some, Bool, ◌>>=◌,
}
use camelmailer.Text.{Text, cr, strip_suffix_char}
use camelmailer.Smtp.Types.{
  SessionConfig, Session, InputMode, Conn, Reply, silent, Moment, is_preauth,
}
use camelmailer.Smtp.Env.{Env, Crates}
use camelmailer.Smtp.Basic.{new, on_session, quit, starttls, ehlo, helo, rset, noop, proxy}
use camelmailer.Smtp.Auth.{set_mode}
use camelmailer.Smtp.Envelope.{mail_from_command}
use camelmailer.Smtp.Body.{message_line, is_end_of_data}
use camelmailer.Smtp.Handle.{
  Verb, quit_verb, starttls_verb, ehlo_verb, helo_verb, rset_verb, noop_verb, plain_verb,
  login_verb, cram_verb, other_auth_verb, mail_verb, rcpt_verb, data_verb, unknown_verb, on_mail,
  run_verb, guard_auth, handle_command, data_line, run_mode, run_line, remember_cr, set_cr,
  handle_stripped, handle, verb_of,
}
use camelmailer.Smtp.Invariant.{IsConsistent, is_data_mode}
use camelmailer.Smtp.Invariant.Auth.{
  auth_plain-IsConsistent, auth_login-IsConsistent, auth_plain_continue-IsConsistent,
  auth_login_username-IsConsistent, auth_login_password-IsConsistent, auth_cram_md5-IsConsistent,
  auth_cram_md5_continue-IsConsistent,
}
use camelmailer.Smtp.Invariant.Envelope.{
  Keeps, mail_from_command-IsConsistent, rcpt_to-IsConsistent,
}
use camelmailer.Smtp.Invariant.Finish.{
  data_command-IsConsistent, message_line-IsConsistent, finish_data-IsConsistent,
}

-- A new session is consistent.
pub new-IsConsistent :
    (crates : Crates) (config : SessionConfig) (trace_id : Text) (ip : Option Text)
    → IsConsistent (new crates config trace_id ip)
unfolding new
new-IsConsistent crates config trace_id ip = ground arith

-- The commands that touch the session alone.
module _ (s : Session) (k : is_data_mode s.input_mode ≡ false) (h : IsConsistent s) where
  ehlo-IsConsistent : (input : Text) → IsConsistent (ehlo input s).0
  unfolding ehlo
  ehlo-IsConsistent input = ground arith

  helo-IsConsistent : (input : Text) → IsConsistent (helo input s).0
  unfolding helo
  helo-IsConsistent input = ground arith

  rset-IsConsistent : IsConsistent (rset s).0
  unfolding rset
  rset-IsConsistent = ground arith

  quit-IsConsistent : IsConsistent (quit s).0
  unfolding quit
  quit-IsConsistent = ground arith

  starttls-IsConsistent : IsConsistent (starttls s).0
  unfolding starttls
  starttls-IsConsistent = ground arith

proxy-IsConsistent :
    (input : Text) (s : Session)
    → is_preauth s.state ≡ true
    → IsConsistent s
    → IsConsistent (proxy input s).0
unfolding proxy
proxy-IsConsistent input s e h = ground arith

on_some :
    {Db Q : Type 0} (o : Option (Conn Db Q × Reply))
    → ((d : Conn Db Q) (r : Reply) → o ≡ some (d, r) → IsConsistent d.session)
    → OnSome Keeps o
on_some none f = tt
on_some (some (d, r)) f = f d r refl

module _ {Db Q : Type 0} (env : Env Db Q) where
  on_mail-IsConsistent :
      (input : Text) (c : Conn Db Q)
      → is_data_mode c.session.input_mode ≡ false
      → IsConsistent c.session
      → OnSome Keeps (on_mail env input c)
  unfolding on_mail
  on_mail-IsConsistent input c k h =
      mailed (mail_from_command input c.session)
        (λ s r. mail_from_command-IsConsistent input c.session s r k h)
    where
      mailed :
          (o : Option (Session × Reply))
          → ((s : Session) (r : Reply) → o ≡ some (s, r) → IsConsistent s)
          → OnSome Keeps (o >>= λ r. some (record c { session = r.0 }, r.1))
      mailed none f = tt
      mailed (some (s, r)) f = f s r refl

  run_verb-IsConsistent :
      (m : Moment) (input : Text) (c : Conn Db Q) (v : Verb)
      → is_data_mode c.session.input_mode ≡ false
      → IsConsistent c.session
      → OnSome Keeps (run_verb env m input c v)
  unfolding run_verb on_session
  run_verb-IsConsistent m input c quit_verb k h = quit-IsConsistent c.session k h
  run_verb-IsConsistent m input c starttls_verb k h = starttls-IsConsistent c.session k h
  run_verb-IsConsistent m input c ehlo_verb k h = ehlo-IsConsistent c.session k h input
  run_verb-IsConsistent m input c helo_verb k h = helo-IsConsistent c.session k h input
  run_verb-IsConsistent m input c rset_verb k h = rset-IsConsistent c.session k h
  run_verb-IsConsistent m input c noop_verb k h = unfold noop in h
  run_verb-IsConsistent m input c plain_verb k h =
      on_some _ (λ d r. auth_plain-IsConsistent env input c d r h)
  run_verb-IsConsistent m input c login_verb k h =
      on_some _ (λ d r. auth_login-IsConsistent env input c d r h)
  run_verb-IsConsistent m input c cram_verb k h = auth_cram_md5-IsConsistent env m c h
  run_verb-IsConsistent m input c other_auth_verb k h = h
  run_verb-IsConsistent m input c mail_verb k h = on_mail-IsConsistent input c k h
  run_verb-IsConsistent m input c rcpt_verb k h = rcpt_to-IsConsistent env input c k h
  run_verb-IsConsistent m input c data_verb k h = data_command-IsConsistent env m c h
  run_verb-IsConsistent m input c unknown_verb k h = h

  guard_auth-IsConsistent :
      (m : Moment) (input : Text) (c : Conn Db Q) (v : Verb)
      → is_data_mode c.session.input_mode ≡ false
      → IsConsistent c.session
      → OnSome Keeps (guard_auth env m input c v)
  unfolding guard_auth
  guard_auth-IsConsistent m input c v k h = ground (arith, run_verb-IsConsistent m input c v k h)

  data_line-IsConsistent :
      (m : Moment) (input : Text) (c : Conn Db Q)
      → IsConsistent c.session
      → OnSome Keeps (data_line env m input c)
  unfolding data_line set_mode
  data_line-IsConsistent m input c h =
      if_both (OnSome (Keeps {Db = Db} {Q = Q})) (is_end_of_data input c.session)
        (λ _. finish_data-IsConsistent env (set_mode env InputMode.command c) refl m)
        (λ _.
          kept (message_line env.crates input c.session)
            (message_line-IsConsistent env.crates input c.session h))
    where
      kept :
          (o : Option Session)
          → OnSome IsConsistent o
          → OnSome Keeps (o >>= λ s. some (record c { session = s }, silent))
      kept none k = tt
      kept (some s) k = k

  run_mode-IsConsistent :
      (m : Moment) (input : Text) (c : Conn Db Q) (mode : InputMode)
      → c.session.input_mode ≡ mode
      → IsConsistent c.session
      → OnSome Keeps (run_mode env m input c mode)
  unfolding run_mode handle_command
  run_mode-IsConsistent m input c InputMode.command e h =
      guard_auth-IsConsistent m input c (verb_of input) (rw e refl) h
  run_mode-IsConsistent m input c InputMode.auth_plain e h =
      auth_plain_continue-IsConsistent env input c h
  run_mode-IsConsistent m input c InputMode.auth_login_username e h =
      auth_login_username-IsConsistent env c h
  run_mode-IsConsistent m input c InputMode.auth_login_password e h =
      auth_login_password-IsConsistent env input c h
  run_mode-IsConsistent m input c (InputMode.auth_cram_md5 challenge) e h =
      auth_cram_md5_continue-IsConsistent env input challenge c h
  run_mode-IsConsistent m input c InputMode.data_mode e h = data_line-IsConsistent m input c h

  run_line-IsConsistent :
      (m : Moment) (input : Text) (c : Conn Db Q)
      → IsConsistent c.session
      → OnSome Keeps (run_line env m input c)
  unfolding run_line on_session
  run_line-IsConsistent m input c h =
      if_both (OnSome (Keeps {Db = Db} {Q = Q})) (is_preauth c.session.state)
        (λ e. proxy-IsConsistent input c.session e h)
        (λ _. run_mode-IsConsistent m input c c.session.input_mode refl h)

  pub set_cr-IsConsistent :
      (b : Bool) (c : Conn Db Q) → IsConsistent c.session → IsConsistent (set_cr env b c).session
  unfolding set_cr
  set_cr-IsConsistent b c h = ground arith

  remember_cr-IsConsistent : (p : Conn Db Q × Reply) → Keeps p → Keeps (remember_cr env p)
  unfolding remember_cr
  remember_cr-IsConsistent (c, r) h = ground arith

  handle_stripped-IsConsistent :
      (m : Moment) (input : Text) (o : Option Text) (c : Conn Db Q)
      → IsConsistent c.session
      → OnSome Keeps (handle_stripped env m input o c)
  unfolding handle_stripped
  handle_stripped-IsConsistent m input none c h =
      run_line-IsConsistent m input (set_cr env false c) (set_cr-IsConsistent false c h)
  handle_stripped-IsConsistent m input (some stripped) c h =
      run_line-IsConsistent m stripped (set_cr env true c) (set_cr-IsConsistent true c h)

  -- Whatever the store and the sink answer, a line leaves a consistent session consistent.
  pub handle-IsConsistent :
      (m : Moment) (input : Text) (c c' : Conn Db Q) (r : Reply)
      → IsConsistent c.session
      → handle env m input c ≡ some (c', r)
      → IsConsistent c'.session
  unfolding handle
  handle-IsConsistent m input c c' r h =
      remembered (handle_stripped env m input (strip_suffix_char cr input) c)
        (handle_stripped-IsConsistent m input (strip_suffix_char cr input) c h)
    where
      remembered :
          (o : Option (Conn Db Q × Reply))
          → OnSome Keeps o
          → (o >>= λ p. some (remember_cr env p)) ≡ some (c', r)
          → IsConsistent c'.session
      remembered o k e =
          OnSome_eq Keeps {o = o >>= λ p. some (remember_cr env p)} {a = (c', r)} (bound o k) e
        where
          bound :
              (o : Option (Conn Db Q × Reply))
              → OnSome Keeps o
              → OnSome Keeps (o >>= λ p. some (remember_cr env p))
          bound none k = tt
          bound (some p) k = remember_cr-IsConsistent p k
