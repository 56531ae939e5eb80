-- ===== src/Smtp/Guard.antt =====
-- Where authentication is not permitted (crates/camelmailer-smtp/src/session.rs, `auth_permitted`), no
-- line a client sends starts it, and only its address can give it a credential.
use camelmailer.Base.{
  ℕ, zero, suc, ◌≡◌, refl, sym, ◌∙◌, ◌⊎◌, inl, inr, Bool, true, false, Option, none, some, is_some,
  OnSome, OnSome_eq, if_both, arith, ◌>>=◌, is_empty,
}
use camelmailer.Text.{Text, cr, codes, text_eq, strip_suffix_char}
use camelmailer.Model.{Server, ResolvedRoute, Credential}
use camelmailer.Smtp.Types.{
  Session, Conn, Reply, InputMode, Moment, is_preauth, is_rcpt_to_received, State,
}
use camelmailer.Smtp.Env.{Env}
use camelmailer.Smtp.Basic.{
  transaction_reset, back_to_welcomed, auth_permitted, on_session, quit, starttls, ehlo, helo, rset,
  noop,
}
use camelmailer.Smtp.Address.{extract_address}
use camelmailer.Smtp.Envelope.{
  mail_from_command, rcpt_return_path, rcpt_route, rcpt_route_token, rcpt_outgoing, in_rcpt,
  rcpt_by_ip, RcptAddress, is_return_path, parse_rcpt, may_rcpt, rcpt_unauthenticated,
  rcpt_by_credential, rcpt_dispatch, rcpt_parsed, rcpt_address, rcpt_to_fuel, rcpt_to,
}
use camelmailer.Smtp.Body.{data_command}
use camelmailer.Smtp.Handle.{
  Verb, quit_verb, starttls_verb, ehlo_verb, helo_verb, rset_verb, noop_verb, plain_verb,
  login_verb, cram_verb, other_auth_verb, mail_verb, rcpt_verb, data_verb, unknown_verb, is_auth,
  on_mail, run_verb, guard_auth, handle_command, run_mode, run_line, remember_cr, set_cr,
  handle_stripped, handle, verb_of,
}

-- A session past the greeting that waits for a command, where authentication is not permitted.
pub record IsBarred (s : Session) : Type 0 where
  pub greeted : is_preauth s.state ≡ false
  pub at_command : s.input_mode ≡ InputMode.command
  pub forbidden : auth_permitted s ≡ false

-- The session's authentication is untouched.
abbrev SameAuth : Session → Session → Type 0
SameAuth s t = (t.credential ≡ s.credential) × (t.input_mode ≡ s.input_mode)

rcpt_return_path-SameAuth :
    (srv : Option Server) (a : RcptAddress) (s : Session) → SameAuth s (rcpt_return_path srv a s).0
unfolding rcpt_return_path
rcpt_return_path-SameAuth srv a s = ground arith

rcpt_route-SameAuth :
    (t : Text) (found : ResolvedRoute) (s : Session) → SameAuth s (rcpt_route t found s).0
unfolding rcpt_route
rcpt_route-SameAuth t found s = ground arith

rcpt_route_token-SameAuth :
    (found : Option ResolvedRoute) (a : RcptAddress) (s : Session)
    → SameAuth s (rcpt_route_token found a s).0
unfolding rcpt_route_token
rcpt_route_token-SameAuth found a s = ground arith

module _ {Db Q : Type 0} (env : Env Db Q) where
  rcpt_outgoing-SameAuth :
      (db : Db) (srv : Option Server) (a : RcptAddress) (s : Session)
      → SameAuth s (rcpt_outgoing env db srv a s).0
  unfolding rcpt_outgoing
  rcpt_outgoing-SameAuth db srv a s = ground arith

  -- The credential that the store has for the client's own address.
  abbrev pub by_address : Conn Db Q → Option Credential
  by_address c = do
    text ← c.session.ip_address
    ip ← env.crates.parse_ip text
    env.store.find_ip_credential c.db ip

  -- The credential is the one there was, or the one of the client's address; and no exchange of
  -- secrets is under way.
  abbrev pub IsGuarded : Conn Db Q → Conn Db Q × Reply → Type 0
  IsGuarded c (c', r) =
      ((c'.session.credential ≡ c.session.credential) ⊎ (c'.session.credential ≡ by_address c))
      × ((c'.session.input_mode ≡ InputMode.command)
          ⊎ (c'.session.input_mode ≡ InputMode.data_mode))

  -- The same, of a client that RCPT TO has just authenticated.
  abbrev Untouched : Conn Db Q → Conn Db Q × Reply → Type 0
  Untouched c (c', r) = SameAuth c.session c'.session

  in_rcpt-Untouched :
      (f : Session → Session × Reply) (c : Conn Db Q)
      → ((s : Session) → SameAuth s (f s).0)
      → Untouched c (in_rcpt env f c)
  unfolding in_rcpt
  in_rcpt-Untouched f c h = (h (record (c.session) { state = State.rcpt_to_received }))

  module _ (again : Conn Db Q → Option (Conn Db Q × Reply)) where
    rcpt_dispatch-Untouched :
        (a : RcptAddress) (c : Conn Db Q)
        → is_some c.session.credential ≡ true
        → OnSome (Untouched c) (rcpt_dispatch env again a c)
    unfolding rcpt_dispatch
    rcpt_dispatch-Untouched a c h =
        if_both (OnSome (Untouched c)) (is_return_path env.crates c.session.config a.domain)
          (λ _. in_rcpt-Untouched _ c (rcpt_return_path-SameAuth _ a))
          (λ _.
            if_both (OnSome (Untouched c)) (text_eq a.domain c.session.config.route_domain)
              (λ _. in_rcpt-Untouched _ c (rcpt_route_token-SameAuth _ a))
              (λ _. outgoing c.session.credential h))
      where
        outgoing :
            (cred : Option Credential)
            → is_some cred ≡ true
            → OnSome (Untouched c) (rcpt_by_credential env again a cred c)
        outgoing none e = cc
        outgoing (some cred) e =
            unfold rcpt_by_credential in
            in_rcpt-Untouched (rcpt_outgoing env c.db (env.store.server c.db cred.server_id) a) c
              (rcpt_outgoing-SameAuth c.db (env.store.server c.db cred.server_id) a)

    rcpt_address-Untouched :
        (t : Text) (c : Conn Db Q)
        → is_some c.session.credential ≡ true
        → OnSome (Untouched c) (rcpt_address env again t c)
    unfolding rcpt_address
    rcpt_address-Untouched t c h =
        if_both (OnSome (Untouched c)) (is_empty t) (λ _. (refl, refl)) (λ _. parsed (parse_rcpt t))
      where
        parsed : (o : Option RcptAddress) → OnSome (Untouched c) (rcpt_parsed env again o c)
        parsed none = unfold rcpt_parsed in (refl, refl)
        parsed (some a) = unfold rcpt_parsed in rcpt_dispatch-Untouched a c h

  -- An authenticated client's RCPT TO leaves its authentication alone.
  rcpt_to_fuel-Untouched :
      (fuel : ℕ) (input : Text) (c : Conn Db Q)
      → is_some c.session.credential ≡ true
      → OnSome (Untouched c) (rcpt_to_fuel env fuel input c)
  unfolding rcpt_to_fuel
  rcpt_to_fuel-Untouched zero input c h = tt
  rcpt_to_fuel-Untouched (suc fuel) input c h =
      if_both (OnSome (Untouched c)) (may_rcpt c.session.state)
        (λ _. addressed (extract_address input (codes "RCPT TO"))) (λ _. (refl, refl))
    where
      addressed :
          (o : Option Text)
          → OnSome (Untouched c) (o >>= λ t. rcpt_address env (rcpt_to_fuel env fuel input) t c)
      addressed none = tt
      addressed (some t) = rcpt_address-Untouched (rcpt_to_fuel env fuel input) t c h

  Untouched-IsGuarded :
      (c : Conn Db Q) (p : Conn Db Q × Reply)
      → c.session.input_mode ≡ InputMode.command
      → Untouched c p
      → IsGuarded c p
  Untouched-IsGuarded c (c', r) e h = (inl h.0, inl (h.1 ∙ e))

  in_rcpt-IsGuarded :
      (f : Session → Session × Reply) (c : Conn Db Q)
      → c.session.input_mode ≡ InputMode.command
      → ((s : Session) → SameAuth s (f s).0)
      → IsGuarded c (in_rcpt env f c)
  in_rcpt-IsGuarded f c e h = Untouched-IsGuarded c (in_rcpt env f c) e (in_rcpt-Untouched f c h)

  -- The connection of a client that has just been authenticated by its address.
  abbrev with_credential : Credential → Conn Db Q → Conn Db Q
  with_credential cred c = record c {
    session = record (c.session) { credential = some cred };
    db = env.store.record_credential_use c.db cred.id;
  }

  with_credential-IsGuarded :
      (cred : Credential) (c : Conn Db Q) (o : Option (Conn Db Q × Reply))
      → c.session.input_mode ≡ InputMode.command
      → by_address c ≡ some cred
      → OnSome (Untouched (with_credential cred c)) o
      → OnSome (IsGuarded c) o
  with_credential-IsGuarded cred c none e q h = tt
  with_credential-IsGuarded cred c (some (c', r)) e q h = (inr (h.0 ∙ sym q), inl (h.1 ∙ e))

  module _ (fuel : ℕ) (input : Text) (c : Conn Db Q)
      (e : c.session.input_mode ≡ InputMode.command) where
    rcpt_by_ip-IsGuarded :
        (o : Option Credential)
        → by_address c ≡ o
        → OnSome (IsGuarded c) (rcpt_by_ip env (rcpt_to_fuel env fuel input) o c)
    unfolding rcpt_by_ip
    rcpt_by_ip-IsGuarded none q = (inl refl, inl e)
    rcpt_by_ip-IsGuarded (some cred) q =
        with_credential-IsGuarded cred c (rcpt_to_fuel env fuel input (with_credential cred c)) e q
          (rcpt_to_fuel-Untouched fuel input (with_credential cred c) refl)

    rcpt_unauthenticated-IsGuarded :
        (a : RcptAddress) (o : Option ResolvedRoute)
        → OnSome (IsGuarded c) (rcpt_unauthenticated env (rcpt_to_fuel env fuel input) a o c)
    unfolding rcpt_unauthenticated
    rcpt_unauthenticated-IsGuarded a (some found) =
        in_rcpt-IsGuarded (rcpt_route a.full found) c e (rcpt_route-SameAuth a.full found)
    rcpt_unauthenticated-IsGuarded a none = rcpt_by_ip-IsGuarded (by_address c) refl

    rcpt_by_credential-IsGuarded :
        (a : RcptAddress) (o : Option Credential)
        → OnSome (IsGuarded c) (rcpt_by_credential env (rcpt_to_fuel env fuel input) a o c)
    unfolding rcpt_by_credential
    rcpt_by_credential-IsGuarded a none = rcpt_unauthenticated-IsGuarded a _
    rcpt_by_credential-IsGuarded a (some cred) =
        in_rcpt-IsGuarded (rcpt_outgoing env c.db (env.store.server c.db cred.server_id) a) c e
          (rcpt_outgoing-SameAuth c.db (env.store.server c.db cred.server_id) a)

    rcpt_dispatch-IsGuarded :
        (a : RcptAddress)
        → OnSome (IsGuarded c) (rcpt_dispatch env (rcpt_to_fuel env fuel input) a c)
    unfolding rcpt_dispatch
    rcpt_dispatch-IsGuarded a =
        if_both (OnSome (IsGuarded c)) (is_return_path env.crates c.session.config a.domain)
          (λ _.
            in_rcpt-IsGuarded (rcpt_return_path (env.store.find_server_by_token c.db a.uname) a) c e
              (rcpt_return_path-SameAuth (env.store.find_server_by_token c.db a.uname) a))
          (λ _.
            if_both (OnSome (IsGuarded c)) (text_eq a.domain c.session.config.route_domain)
              (λ _.
                in_rcpt-IsGuarded (rcpt_route_token (env.store.find_route_by_token c.db a.uname) a)
                  c e (rcpt_route_token-SameAuth (env.store.find_route_by_token c.db a.uname) a))
              (λ _. rcpt_by_credential-IsGuarded a c.session.credential))

    rcpt_address-IsGuarded :
        (t : Text) → OnSome (IsGuarded c) (rcpt_address env (rcpt_to_fuel env fuel input) t c)
    unfolding rcpt_address
    rcpt_address-IsGuarded t =
        if_both (OnSome (IsGuarded c)) (is_empty t) (λ _. (inl refl, inl e))
          (λ _. parsed (parse_rcpt t))
      where
        parsed :
            (o : Option RcptAddress)
            → OnSome (IsGuarded c) (rcpt_parsed env (rcpt_to_fuel env fuel input) o c)
        parsed none = unfold rcpt_parsed in (inl refl, inl e)
        parsed (some a) = unfold rcpt_parsed in rcpt_dispatch-IsGuarded a

  rcpt_to-IsGuarded :
      (input : Text) (c : Conn Db Q)
      → c.session.input_mode ≡ InputMode.command
      → OnSome (IsGuarded c) (rcpt_to env input c)
  unfolding rcpt_to rcpt_to_fuel
  rcpt_to-IsGuarded input c e =
      if_both (OnSome (IsGuarded c)) (may_rcpt c.session.state)
        (λ _. addressed (extract_address input (codes "RCPT TO"))) (λ _. (inl refl, inl e))
    where
      addressed :
          (o : Option Text)
          → OnSome (IsGuarded c) (o >>= λ t. rcpt_address env (rcpt_to_fuel env 1 input) t c)
      addressed none = tt
      addressed (some t) = rcpt_address-IsGuarded 1 input c e t

  on_session-IsGuarded :
      (f : Session → Session × Reply) (c : Conn Db Q)
      → c.session.input_mode ≡ InputMode.command
      → SameAuth c.session (f c.session).0
      → IsGuarded c (on_session f c)
  unfolding on_session
  on_session-IsGuarded f c e h = (inl h.0, inl (h.1 ∙ e))

  on_mail-IsGuarded :
      (input : Text) (c : Conn Db Q)
      → c.session.input_mode ≡ InputMode.command
      → OnSome (IsGuarded c) (on_mail env input c)
  unfolding on_mail mail_from_command transaction_reset
  on_mail-IsGuarded input c e = ground arith

  data_command-IsGuarded :
      (m : Moment) (c : Conn Db Q)
      → c.session.input_mode ≡ InputMode.command
      → IsGuarded c (data_command env m c)
  unfolding data_command
  data_command-IsGuarded m c e =
      if_both (IsGuarded c) (is_rcpt_to_received c.session.state) (λ _. (inl refl, inr refl))
        (λ _. (inl refl, inl e))

  run_verb-IsGuarded :
      (m : Moment) (input : Text) (c : Conn Db Q) (v : Verb)
      → is_auth v ≡ false
      → c.session.input_mode ≡ InputMode.command
      → OnSome (IsGuarded c) (run_verb env m input c v)
  unfolding run_verb
  run_verb-IsGuarded m input c quit_verb a e = unfold quit on_session in (inl refl, inl e)
  run_verb-IsGuarded m input c starttls_verb a e =
      on_session-IsGuarded starttls c e (unfold starttls in ground arith)
  run_verb-IsGuarded m input c ehlo_verb a e =
      unfold ehlo on_session back_to_welcomed transaction_reset in (inl refl, inl e)
  run_verb-IsGuarded m input c helo_verb a e =
      unfold helo on_session back_to_welcomed transaction_reset in (inl refl, inl e)
  run_verb-IsGuarded m input c rset_verb a e =
      unfold rset on_session back_to_welcomed transaction_reset in (inl refl, inl e)
  run_verb-IsGuarded m input c noop_verb a e = unfold noop on_session in (inl refl, inl e)
  run_verb-IsGuarded m input c plain_verb a e = cc
  run_verb-IsGuarded m input c login_verb a e = cc
  run_verb-IsGuarded m input c cram_verb a e = cc
  run_verb-IsGuarded m input c other_auth_verb a e = cc
  run_verb-IsGuarded m input c mail_verb a e = on_mail-IsGuarded input c e
  run_verb-IsGuarded m input c rcpt_verb a e = rcpt_to-IsGuarded input c e
  run_verb-IsGuarded m input c data_verb a e = data_command-IsGuarded m c e
  run_verb-IsGuarded m input c unknown_verb a e = (inl refl, inl e)

  handle_command-IsGuarded :
      (m : Moment) (input : Text) (c : Conn Db Q)
      → IsBarred c.session
      → OnSome (IsGuarded c) (handle_command env m input c)
  unfolding handle_command guard_auth
  handle_command-IsGuarded m input c h = rw h.forbidden (
      if_both (OnSome (IsGuarded c)) (is_auth (verb_of input)) (λ _. (inl refl, inl h.at_command))
        (λ a. run_verb-IsGuarded m input c (verb_of input) a h.at_command))

  run_mode-IsGuarded :
      (m : Moment) (input : Text) (c : Conn Db Q) (mode : InputMode)
      → mode ≡ InputMode.command
      → IsBarred c.session
      → OnSome (IsGuarded c) (run_mode env m input c mode)
  unfolding run_mode
  run_mode-IsGuarded m input c InputMode.command e h = handle_command-IsGuarded m input c h
  run_mode-IsGuarded m input c InputMode.auth_plain e h = cc
  run_mode-IsGuarded m input c InputMode.auth_login_username e h = cc
  run_mode-IsGuarded m input c InputMode.auth_login_password e h = cc
  run_mode-IsGuarded m input c (InputMode.auth_cram_md5 x) e h = cc
  run_mode-IsGuarded m input c InputMode.data_mode e h = cc

  run_line-IsGuarded :
      (m : Moment) (input : Text) (c : Conn Db Q)
      → IsBarred c.session
      → OnSome (IsGuarded c) (run_line env m input c)
  unfolding run_line
  run_line-IsGuarded m input c h =
      if_both (OnSome (IsGuarded c)) (is_preauth c.session.state) (λ e. absurd (cc (e, h.greeted)))
        (λ _. run_mode-IsGuarded m input c c.session.input_mode h.at_command h)

  set_cr-IsBarred :
      (b : Bool) (c : Conn Db Q) → IsBarred c.session → IsBarred (set_cr env b c).session
  unfolding set_cr auth_permitted
  set_cr-IsBarred b c h = ground arith

  handle_stripped-IsGuarded :
      (m : Moment) (input : Text) (o : Option Text) (c : Conn Db Q)
      → IsBarred c.session
      → OnSome (IsGuarded c) (handle_stripped env m input o c)
  unfolding handle_stripped set_cr
  handle_stripped-IsGuarded m input none c h =
      run_line-IsGuarded m input (set_cr env false c) (set_cr-IsBarred false c h)
  handle_stripped-IsGuarded m input (some t) c h =
      run_line-IsGuarded m t (set_cr env true c) (set_cr-IsBarred true c h)

  -- Where authentication is not permitted (the configuration has TLS, AUTH requires it, and the
  -- connection does not have it), no line that a waiting session handles gives it a credential but
  -- that of its own address in the store, and none starts an exchange of secrets: afterwards the session
  -- waits for a command or receives a message.
  pub handle-IsGuarded :
      (m : Moment) (input : Text) (c c' : Conn Db Q) (r : Reply)
      → IsBarred c.session
      → handle env m input c ≡ some (c', r)
      → IsGuarded c (c', r)
  unfolding handle
  handle-IsGuarded m input c c' r h e =
      OnSome_eq (IsGuarded c)
        {o = handle_stripped env m input (strip_suffix_char cr input) c >>= λ p.
          some (remember_cr env p)}
        {a = (c', r)}
        (bound (handle_stripped env m input (strip_suffix_char cr input) c)
          (handle_stripped-IsGuarded m input (strip_suffix_char cr input) c h))
        e
    where
      bound :
          (o : Option (Conn Db Q × Reply))
          → OnSome (IsGuarded c) o
          → OnSome (IsGuarded c) (o >>= λ p. some (remember_cr env p))
      bound none k = tt
      bound (some p) k = unfold remember_cr in k
