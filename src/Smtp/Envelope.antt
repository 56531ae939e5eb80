-- ===== src/Smtp/Envelope.antt =====
-- crates/camelmailer-smtp/src/session.rs: MAIL FROM and RCPT TO. A result `none` is the panic of
-- `strip_prefix_ci`.
use camelmailer.Base.{
  ℕ, zero, suc, Bool, true, false, not, ◌&&◌, ◌||◌, Option, none, some, [], ◌∷◌, ◌++◌,
  if◌then◌else◌, is_empty, unwrap_or, map_option, ◌>>=◌,
}
use camelmailer.Text.{Text, codes, trim_end, split_once, text_eq, before_text, starts_with}
use camelmailer.Model.{Server, RouteMode, ResolvedRoute, Credential}
use camelmailer.Smtp.Types.{SessionConfig, State, Reply, RecipientKind, Session, Conn}
use camelmailer.Smtp.Env.{Crates, Env}
use camelmailer.Smtp.Address.{extract_address, normalize_dns_domain_name}
use camelmailer.Smtp.Basic.{reply, transaction_reset}

abbrev pub may_mail : State → Bool
may_mail State.welcomed = true
may_mail State.mail_from_received = true
may_mail _ = false

-- The AUTH= parameter and all that follows it is discarded.
unfoldable pub without_auth_parameter : Text → Text
unfolding before_text trim_end
without_auth_parameter input = elim (before_text (codes "AUTH=") input) [
  | none ↦ input
  | some kept ↦ trim_end kept
]

unfoldable pub mail_from_command : Text → Session → Option (Session × Reply)
unfolding transaction_reset reply
mail_from_command input s =
    if may_mail s.state
    then (do
      address ← extract_address (without_auth_parameter input) (codes "MAIL FROM")
      let fresh = transaction_reset (record s { state = State.mail_from_received })
      some (record fresh { mail_from = some address }, reply (codes "250 OK")))
    else some (s, reply (codes "503 EHLO/HELO first please"))

abbrev pub may_rcpt : State → Bool
may_rcpt State.mail_from_received = true
may_rcpt State.rcpt_to_received = true
may_rcpt _ = false

-- A recipient as RCPT TO names it: the whole address, the name before a `+`, the tag behind it, and
-- the domain.
pub record RcptAddress : Type 0 where
  pub full : Text
  pub uname : Text
  pub tag : Option Text
  pub domain : Text

rcpt_name : Text → Text → Text → Option (Text × Text) → RcptAddress
rcpt_name full local domain none = record {
  full = full;
  uname = local;
  tag = none;
  domain = domain;
}
rcpt_name full local domain (some (u, t)) = record {
  full = full;
  uname = u;
  tag = some t;
  domain = domain;
}

rcpt_parts : Text → Option (Text × Text) → Option RcptAddress
rcpt_parts full none = none
rcpt_parts full (some (local, domain)) =
    if is_empty domain then none else some (rcpt_name full local domain (split_once b'+' local))

-- `none` for an address without a domain.
unfoldable pub parse_rcpt : Text → Option RcptAddress
unfolding rcpt_parts rcpt_name split_once
parse_rcpt full = rcpt_parts full (split_once b'@' full)

unfoldable pub is_return_path : Crates → SessionConfig → Text → Bool
unfolding normalize_dns_domain_name text_eq starts_with
is_return_path crates config domain = elim (normalize_dns_domain_name crates domain) [
  | none ↦ false
  | some d ↦
      (not (is_empty config.return_path_domain) && text_eq d config.return_path_domain)
      || starts_with d (config.custom_return_path_prefix ++ b'.' ∷ [])
]

unfoldable pub add_recipient :
    RecipientKind → Text → Server → Option ResolvedRoute → Session → Session
add_recipient kind address srv resolved s = record s {
  recipients =
      s.recipients
      ++ record { kind = kind; rcpt_to = address; server = srv; resolved = resolved } ∷ [];
}

unfoldable pub accept_recipient :
    RecipientKind → Text → Server → Option ResolvedRoute → Session → Session × Reply
unfolding add_recipient reply
accept_recipient kind address srv resolved s =
    (add_recipient kind address srv resolved s, reply (codes "250 OK"))

abbrev pub rejects : RouteMode → Bool
rejects RouteMode.reject = true
rejects _ = false

-- A return path: the local part is a server's token.
unfoldable pub rcpt_return_path : Option Server → RcptAddress → Session → Session × Reply
unfolding accept_recipient reply
rcpt_return_path none a s = (s, reply (codes "550 Invalid server token"))
rcpt_return_path (some srv) a s =
    if srv.suspended
    then (s, reply (codes "535 Mail server has been suspended"))
    else accept_recipient RecipientKind.bounce a.full srv none s

-- What a route answers, at the address that mail for it is stored under.
unfoldable pub rcpt_route : Text → ResolvedRoute → Session → Session × Reply
unfolding accept_recipient reply
rcpt_route address found s =
    if found.server.suspended
    then (s, reply (codes "535 Mail server has been suspended"))
    else if rejects found.route.mode
    then (s, reply (codes "550 Route does not accept incoming messages"))
    else accept_recipient RecipientKind.route address found.server (some found) s

-- The address of a message sent directly to a route: the route's own name and domain, with the tag.
unfoldable pub route_address : ResolvedRoute → Option Text → Text
route_address found tag =
    found.route.name
    ++ (unwrap_or [] (map_option (λ (t : Text). b'+' ∷ t) tag) ++ (b'@' ∷ found.domain_name))

unfoldable pub rcpt_route_token : Option ResolvedRoute → RcptAddress → Session → Session × Reply
unfolding rcpt_route route_address reply
rcpt_route_token none a s = (s, reply (codes "550 Invalid route token"))
rcpt_route_token (some found) a s = rcpt_route (route_address found a.tag) found s

module _ {Db Q : Type 0} (env : Env Db Q) where
  -- Outgoing mail of an authenticated client.
  unfoldable pub rcpt_outgoing : Db → Option Server → RcptAddress → Session → Session × Reply
  unfolding accept_recipient reply
  rcpt_outgoing db none a s = (s, reply (codes "535 Mail server has been suspended"))
  rcpt_outgoing db (some srv) a s =
      if srv.suspended
      then (s, reply (codes "535 Mail server has been suspended"))
      else if (env.store.send_policy_for_organization db srv.organization_id).suspended
      then (s, reply (codes "535 Organization has been suspended"))
      else accept_recipient RecipientKind.credential a.full srv none s

  unfoldable pub in_rcpt : (Session → Session × Reply) → Conn Db Q → Conn Db Q × Reply
  in_rcpt f c =
      let (s, r) = f (record (c.session) { state = State.rcpt_to_received }) in
      (record c { session = s }, r)

  -- Authentication by the client's address, and RCPT TO once more with the credential found.
  unfoldable pub rcpt_by_ip :
      (Conn Db Q → Option (Conn Db Q × Reply))
      → Option Credential
      → Conn Db Q
      → Option (Conn Db Q × Reply)
  unfolding reply
  rcpt_by_ip again none c = some (c, reply (codes "530 Authentication required"))
  rcpt_by_ip again (some cred) c = again (record c {
    session = record (c.session) { credential = some cred };
    db = env.store.record_credential_use c.db cred.id;
  })

  -- The two branches for a client without a credential.
  unfoldable pub rcpt_unauthenticated :
      (Conn Db Q → Option (Conn Db Q × Reply))
      → RcptAddress
      → Option ResolvedRoute
      → Conn Db Q
      → Option (Conn Db Q × Reply)
  rcpt_unauthenticated again a (some found) c = some (in_rcpt (rcpt_route a.full found) c)
  rcpt_unauthenticated again a none c =
      rcpt_by_ip again
        (do
          text ← c.session.ip_address
          ip ← env.crates.parse_ip text
          env.store.find_ip_credential c.db ip)
        c

  -- The last three branches, by the credential that the session holds.
  unfoldable pub rcpt_by_credential :
      (Conn Db Q → Option (Conn Db Q × Reply))
      → RcptAddress
      → Option Credential
      → Conn Db Q
      → Option (Conn Db Q × Reply)
  rcpt_by_credential again a (some cred) c =
      some (in_rcpt (rcpt_outgoing c.db (env.store.server c.db cred.server_id) a) c)
  rcpt_by_credential again a none c =
      rcpt_unauthenticated again a (env.store.find_route_by_name_and_domain c.db a.uname a.domain) c

  unfoldable pub rcpt_dispatch :
      (Conn Db Q → Option (Conn Db Q × Reply))
      → RcptAddress
      → Conn Db Q
      → Option (Conn Db Q × Reply)
  rcpt_dispatch again a c =
      if is_return_path env.crates c.session.config a.domain
      then some (in_rcpt (rcpt_return_path (env.store.find_server_by_token c.db a.uname) a) c)
      else if text_eq a.domain c.session.config.route_domain
      then some (in_rcpt (rcpt_route_token (env.store.find_route_by_token c.db a.uname) a) c)
      else rcpt_by_credential again a c.session.credential c

  unfoldable pub rcpt_parsed :
      (Conn Db Q → Option (Conn Db Q × Reply))
      → Option RcptAddress
      → Conn Db Q
      → Option (Conn Db Q × Reply)
  unfolding reply
  rcpt_parsed again none c = some (c, reply (codes "501 Invalid RCPT TO"))
  rcpt_parsed again (some a) c = rcpt_dispatch again a c

  unfoldable pub rcpt_address :
      (Conn Db Q → Option (Conn Db Q × Reply)) → Text → Conn Db Q → Option (Conn Db Q × Reply)
  unfolding reply
  rcpt_address again address c =
      if is_empty address
      then some (c, reply (codes "501 RCPT TO should not be empty"))
      else rcpt_parsed again (parse_rcpt address) c

  -- RCPT TO calls itself once it has a credential for the client's address; the fuel counts those
  -- calls.
  unfoldable pub rcpt_to_fuel : ℕ → Text → Conn Db Q → Option (Conn Db Q × Reply)
  unfolding reply
  rcpt_to_fuel zero input c = none
  rcpt_to_fuel (suc fuel) input c =
      if may_rcpt c.session.state
      then (do
        address ← extract_address input (codes "RCPT TO")
        rcpt_address (rcpt_to_fuel fuel input) address c)
      else some (c, reply (codes "503 EHLO/HELO and MAIL FROM first please"))

  unfoldable pub rcpt_to : Text → Conn Db Q → Option (Conn Db Q × Reply)
  unfolding rcpt_to_fuel
  rcpt_to = rcpt_to_fuel 2
