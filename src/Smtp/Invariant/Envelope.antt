-- ===== src/Smtp/Invariant/Envelope.antt =====
-- MAIL FROM and RCPT TO keep the invariant.
use camelmailer.Smtp.Address.{extract_address}
use camelmailer.Base.{
  all-append, ◌>>=◌, is_empty, OnSome, if_both, Bool-cases, inl, inr, ◌≡◌, refl, true, false, arith,
  ℕ, zero, suc, Option, none, some, is_some, [], ◌∷◌,
}
use camelmailer.Text.{Text, codes, text_eq}
use camelmailer.Model.{Credential, Server, ResolvedRoute}
use camelmailer.Smtp.Types.{Session, State, Conn, Reply, RecipientKind}
use camelmailer.Smtp.Env.{Env}
use camelmailer.Smtp.Envelope.{
  is_return_path, mail_from_command, accept_recipient, rcpt_return_path, rcpt_route,
  rcpt_route_token, rcpt_outgoing, parse_rcpt, RcptAddress, in_rcpt, rcpt_dispatch, rcpt_by_ip,
  rcpt_unauthenticated, rcpt_by_credential, rcpt_parsed, rcpt_address, rcpt_to_fuel, rcpt_to,
  may_rcpt,
}
use camelmailer.Smtp.Invariant.{IsConsistent, fits, fits_kind, fits_authenticated, is_data_mode}

pub mail_from_command-IsConsistent :
    (input : Text) (s s' : Session) (r : Reply)
    → is_data_mode s.input_mode ≡ false
    → IsConsistent s
    → mail_from_command input s ≡ some (s', r)
    → IsConsistent s'
unfolding mail_from_command
mail_from_command-IsConsistent input s s' r k h e = ground arith

-- A session between MAIL FROM and DATA, as RCPT TO finds it.
pub record IsOpen (s : Session) : Type 0 where
  pub consistent : IsConsistent s
  pub in_command : is_data_mode s.input_mode ≡ false
  pub opened : may_rcpt s.state ≡ true

-- RCPT TO has moved to its state, and takes a recipient that fits.
accept_recipient-IsConsistent :
    (kind : RecipientKind) (address : Text) (srv : Server) (found : Option ResolvedRoute)
    (s : Session)
    → s.state ≡ State.rcpt_to_received
    → fits_kind
        (is_some s.credential)
        (record { kind = kind; rcpt_to = address; server = srv; resolved = found })
        kind
      ≡ true
    → IsConsistent s
    → IsConsistent (accept_recipient kind address srv found s).0
unfolding accept_recipient
accept_recipient-IsConsistent kind address srv found s e k h = ground (
  arith,
  all-append (fits (is_some s.credential)) s.recipients
      (record { kind = kind; rcpt_to = address; server = srv; resolved = found } ∷ []),
)

module _ (s : Session) (e : s.state ≡ State.rcpt_to_received) (h : IsConsistent s) where
  rcpt_return_path-IsConsistent :
      (srv : Option Server) (a : RcptAddress) → IsConsistent (rcpt_return_path srv a s).0
  unfolding rcpt_return_path
  rcpt_return_path-IsConsistent none a = h
  rcpt_return_path-IsConsistent (some srv) a =
      ground (arith, accept_recipient-IsConsistent RecipientKind.bounce a.full srv none s e refl h)

  rcpt_route-IsConsistent :
      (address : Text) (found : ResolvedRoute) → IsConsistent (rcpt_route address found s).0
  unfolding rcpt_route
  rcpt_route-IsConsistent address found = ground (
    arith,
    accept_recipient-IsConsistent RecipientKind.route address found.server (some found) s e refl h,
  )

  rcpt_route_token-IsConsistent :
      (found : Option ResolvedRoute) (a : RcptAddress) → IsConsistent (rcpt_route_token found a s).0
  unfolding rcpt_route_token
  rcpt_route_token-IsConsistent none a = h
  rcpt_route_token-IsConsistent (some found) a = rcpt_route-IsConsistent _ found

  rcpt_outgoing-IsConsistent :
      {Db Q : Type 0} (env : Env Db Q) (db : Db) (srv : Option Server) (a : RcptAddress)
      → is_some s.credential ≡ true
      → IsConsistent (rcpt_outgoing env db srv a s).0
  unfolding rcpt_outgoing
  rcpt_outgoing-IsConsistent env db none a k = h
  rcpt_outgoing-IsConsistent env db (some srv) a k =
      ground (arith, accept_recipient-IsConsistent RecipientKind.credential a.full srv none s e k h)

rcpt_ready : (s : Session) → IsOpen s → IsConsistent (record s { state = State.rcpt_to_received })
rcpt_ready s h = ground arith

-- What RCPT TO leaves behind.
abbrev pub Keeps : {Db Q : Type 0} → Conn Db Q × Reply → Type 0
Keeps (c, r) = IsConsistent c.session

module _ {Db Q : Type 0} (env : Env Db Q) (again : Conn Db Q → Option (Conn Db Q × Reply)) where
  in_rcpt-IsConsistent :
      (f : Session → Session × Reply) (c : Conn Db Q)
      → IsConsistent (f (record (c.session) { state = State.rcpt_to_received })).0
      → Keeps (in_rcpt env f c)
  unfolding in_rcpt
  in_rcpt-IsConsistent f c h = h

  rcpt_by_ip-IsConsistent :
      (cred : Option Credential) (c : Conn Db Q)
      → IsOpen c.session
      → ((d : Conn Db Q) → IsOpen d.session → OnSome Keeps (again d))
      → OnSome Keeps (rcpt_by_ip env again cred c)
  unfolding rcpt_by_ip
  rcpt_by_ip-IsConsistent none c h k = h.consistent
  rcpt_by_ip-IsConsistent (some cred) c h k =
      k
        (record c {
          session = record (c.session) { credential = some cred };
          db = env.store.record_credential_use c.db cred.id;
        })
        (ground (arith, fits_authenticated (is_some c.session.credential) c.session.recipients))

  rcpt_unauthenticated-IsConsistent :
      (a : RcptAddress) (found : Option ResolvedRoute) (c : Conn Db Q)
      → IsOpen c.session
      → ((d : Conn Db Q) → IsOpen d.session → OnSome Keeps (again d))
      → OnSome Keeps (rcpt_unauthenticated env again a found c)
  unfolding rcpt_unauthenticated in_rcpt
  rcpt_unauthenticated-IsConsistent a none c h k = rcpt_by_ip-IsConsistent _ c h k
  rcpt_unauthenticated-IsConsistent a (some found) c h k =
      rcpt_route-IsConsistent _ refl (rcpt_ready _ h) a.full found

  rcpt_by_credential-IsConsistent :
      (a : RcptAddress) (cred : Option Credential) (c : Conn Db Q)
      → c.session.credential ≡ cred
      → IsOpen c.session
      → ((d : Conn Db Q) → IsOpen d.session → OnSome Keeps (again d))
      → OnSome Keeps (rcpt_by_credential env again a cred c)
  unfolding rcpt_by_credential in_rcpt
  rcpt_by_credential-IsConsistent a none c e h k = rcpt_unauthenticated-IsConsistent a _ c h k
  rcpt_by_credential-IsConsistent a (some cred) c e h k =
      rcpt_outgoing-IsConsistent _ refl (rcpt_ready _ h) env c.db
        (env.store.server c.db cred.server_id) a (rw e refl)

  rcpt_dispatch-IsConsistent :
      (a : RcptAddress) (c : Conn Db Q)
      → IsOpen c.session
      → ((d : Conn Db Q) → IsOpen d.session → OnSome Keeps (again d))
      → OnSome Keeps (rcpt_dispatch env again a c)
  unfolding rcpt_dispatch in_rcpt
  rcpt_dispatch-IsConsistent a c h k =
      if_both (OnSome (Keeps {Db = Db} {Q = Q}))
        (is_return_path env.crates c.session.config a.domain)
        (λ _.
          rcpt_return_path-IsConsistent _ refl (rcpt_ready _ h)
            (env.store.find_server_by_token c.db a.uname) a)
        (λ _.
          if_both (OnSome (Keeps {Db = Db} {Q = Q}))
            (text_eq a.domain c.session.config.route_domain)
            (λ _.
              rcpt_route_token-IsConsistent _ refl (rcpt_ready _ h)
                (env.store.find_route_by_token c.db a.uname) a)
            (λ _. rcpt_by_credential-IsConsistent a c.session.credential c refl h k))

  rcpt_parsed-IsConsistent :
      (p : Option RcptAddress) (c : Conn Db Q)
      → IsOpen c.session
      → ((d : Conn Db Q) → IsOpen d.session → OnSome Keeps (again d))
      → OnSome Keeps (rcpt_parsed env again p c)
  unfolding rcpt_parsed
  rcpt_parsed-IsConsistent none c h k = h.consistent
  rcpt_parsed-IsConsistent (some a) c h k = rcpt_dispatch-IsConsistent a c h k

  rcpt_address-IsConsistent :
      (address : Text) (c : Conn Db Q)
      → IsOpen c.session
      → ((d : Conn Db Q) → IsOpen d.session → OnSome Keeps (again d))
      → OnSome Keeps (rcpt_address env again address c)
  unfolding rcpt_address
  rcpt_address-IsConsistent address c h k =
      if_both (OnSome (Keeps {Db = Db} {Q = Q})) (is_empty address) (λ _. h.consistent)
        (λ _. rcpt_parsed-IsConsistent (parse_rcpt address) c h k)

  rcpt_addressed :
      (o : Option Text) (c : Conn Db Q)
      → IsOpen c.session
      → ((d : Conn Db Q) → IsOpen d.session → OnSome Keeps (again d))
      → OnSome Keeps (o >>= λ address. rcpt_address env again address c)
  rcpt_addressed none c h k = tt
  rcpt_addressed (some address) c h k = rcpt_address-IsConsistent address c h k

module _ {Db Q : Type 0} (env : Env Db Q) where
  rcpt_to_fuel-IsConsistent :
      (fuel : ℕ) (input : Text) (c : Conn Db Q)
      → is_data_mode c.session.input_mode ≡ false
      → IsConsistent c.session
      → OnSome Keeps (rcpt_to_fuel env fuel input c)
  unfolding rcpt_to_fuel
  rcpt_to_fuel-IsConsistent zero input c m h = tt
  rcpt_to_fuel-IsConsistent (suc fuel) input c m h = elim (Bool-cases (may_rcpt c.session.state)) [
    | inl e ↦ rw e (
        rcpt_addressed env (rcpt_to_fuel env fuel input) (extract_address input (codes "RCPT TO")) c
          (record { consistent = h; in_command = m; opened = e })
          (λ d o. rcpt_to_fuel-IsConsistent fuel input d o.in_command o.consistent))
    | inr e ↦ rw e h
  ]

  pub rcpt_to-IsConsistent :
      (input : Text) (c : Conn Db Q)
      → is_data_mode c.session.input_mode ≡ false
      → IsConsistent c.session
      → OnSome Keeps (rcpt_to env input c)
  unfolding rcpt_to
  rcpt_to-IsConsistent = rcpt_to_fuel-IsConsistent 2
