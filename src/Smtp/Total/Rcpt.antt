-- ===== src/Smtp/Total/Rcpt.antt =====
-- RCPT TO calls itself at most once, and never panics on ASCII input.
use camelmailer.Base.{
  ℕ, suc, ◌≡◌, refl, ap, true, Option, none, some, if◌then◌else◌, is_some, arith, if_both, ◌>>=◌,
}
use camelmailer.Text.{Text, codes}
use camelmailer.Text.Laws.{is_ascii}
use camelmailer.Model.{Credential, ResolvedRoute}
use camelmailer.Smtp.Types.{Conn, Reply}
use camelmailer.Smtp.Env.{Env}
use camelmailer.Smtp.Address.{extract_address}
use camelmailer.Smtp.Basic.{reply}
use camelmailer.Smtp.Envelope.{
  rcpt_to, rcpt_to_fuel, rcpt_parsed, parse_rcpt, rcpt_address, rcpt_dispatch, rcpt_by_credential,
  rcpt_unauthenticated, rcpt_by_ip, RcptAddress, may_rcpt,
}
use camelmailer.Smtp.Total.{extract_address_ascii}

module _ {Db Q : Type 0} (env : Env Db Q) where
  -- An authenticated client's RCPT TO makes no call of itself.
  rcpt_dispatch_authenticated :
      (again again' : Conn Db Q → Option (Conn Db Q × Reply)) (a : RcptAddress) (c : Conn Db Q)
      → is_some c.session.credential ≡ true
      → (rcpt_dispatch env again a c ≡ rcpt_dispatch env again' a c)
        × (is_some (rcpt_dispatch env again a c) ≡ true)
  rcpt_dispatch_authenticated again again' a c h =
      unfold rcpt_dispatch rcpt_by_credential in ground arith

  rcpt_parsed_authenticated :
      (again again' : Conn Db Q → Option (Conn Db Q × Reply)) (p : Option RcptAddress)
      (c : Conn Db Q)
      → is_some c.session.credential ≡ true
      → (rcpt_parsed env again p c ≡ rcpt_parsed env again' p c)
        × (is_some (rcpt_parsed env again p c) ≡ true)
  unfolding rcpt_parsed
  rcpt_parsed_authenticated again again' none c h = (refl, refl)
  rcpt_parsed_authenticated again again' (some a) c h =
      rcpt_dispatch_authenticated again again' a c h

  rcpt_address_authenticated :
      (again again' : Conn Db Q → Option (Conn Db Q × Reply)) (address : Text) (c : Conn Db Q)
      → is_some c.session.credential ≡ true
      → (rcpt_address env again address c ≡ rcpt_address env again' address c)
        × (is_some (rcpt_address env again address c) ≡ true)
  rcpt_address_authenticated again again' address c h =
      unfold rcpt_address in
      ground (arith, rcpt_parsed_authenticated again again' (parse_rcpt address) c h)

  rcpt_bind_authenticated :
      (again again' : Conn Db Q → Option (Conn Db Q × Reply)) (o : Option Text) (c : Conn Db Q)
      → is_some c.session.credential ≡ true
      → ((o >>= λ address. rcpt_address env again address c)
          ≡ (o >>= λ address. rcpt_address env again' address c))
        × (is_some o ≡ true → is_some (o >>= λ address. rcpt_address env again address c) ≡ true)
  rcpt_bind_authenticated again again' none c h = (refl, λ e. e)
  rcpt_bind_authenticated again again' (some address) c h =
      let both = rcpt_address_authenticated again again' address c h in (both.0, λ _. both.1)

  rcpt_to_fuel_authenticated :
      (fuel fuel' : ℕ) (input : Text) (c : Conn Db Q)
      → is_some c.session.credential ≡ true
      → rcpt_to_fuel env (suc fuel) input c ≡ rcpt_to_fuel env (suc fuel') input c
  unfolding rcpt_to_fuel
  rcpt_to_fuel_authenticated fuel fuel' input c h =
      ap
        (λ r.
          if may_rcpt c.session.state
          then r
          else some (c, reply (codes "503 EHLO/HELO and MAIL FROM first please")))
        (rcpt_bind_authenticated (rcpt_to_fuel env fuel input) (rcpt_to_fuel env fuel' input)
          (extract_address input (codes "RCPT TO")) c h).0

  rcpt_authenticated_ascii :
      (fuel : ℕ) (input : Text) (c : Conn Db Q)
      → is_some c.session.credential ≡ true
      → is_ascii input ≡ true
      → is_some (rcpt_to_fuel env (suc fuel) input c) ≡ true
  unfolding rcpt_to_fuel
  rcpt_authenticated_ascii fuel input c h a =
      if_both (λ (o : Option (Conn Db Q × Reply)). is_some o ≡ true) (may_rcpt c.session.state)
        (λ _.
          (rcpt_bind_authenticated (rcpt_to_fuel env fuel input) (rcpt_to_fuel env fuel input)
              (extract_address input (codes "RCPT TO")) c h).1
            (extract_address_ascii input (codes "RCPT TO") a))
        (λ _. refl)

  -- The same for any client, where the two continuations agree on authenticated connections.
  module _ (again again' : Conn Db Q → Option (Conn Db Q × Reply))
      (agree : (d : Conn Db Q)
        → is_some d.session.credential ≡ true
        → (again d ≡ again' d) × (is_some (again d) ≡ true)) where
    abbrev Agrees : Option (Conn Db Q × Reply) → Option (Conn Db Q × Reply) → Type 0
    Agrees o o' = (o ≡ o') × (is_some o ≡ true)

    rcpt_by_ip-Agrees :
        (cred : Option Credential) (c : Conn Db Q)
        → Agrees (rcpt_by_ip env again cred c) (rcpt_by_ip env again' cred c)
    unfolding rcpt_by_ip
    rcpt_by_ip-Agrees none c = (refl, refl)
    rcpt_by_ip-Agrees (some cred) c = agree _ refl

    rcpt_unauthenticated-Agrees :
        (a : RcptAddress) (found : Option ResolvedRoute) (c : Conn Db Q)
        → Agrees
            (rcpt_unauthenticated env again a found c)
            (rcpt_unauthenticated env again' a found c)
    unfolding rcpt_unauthenticated
    rcpt_unauthenticated-Agrees a none c = rcpt_by_ip-Agrees _ c
    rcpt_unauthenticated-Agrees a (some found) c = (refl, refl)

    rcpt_by_credential-Agrees :
        (a : RcptAddress) (cred : Option Credential) (c : Conn Db Q)
        → Agrees (rcpt_by_credential env again a cred c) (rcpt_by_credential env again' a cred c)
    unfolding rcpt_by_credential
    rcpt_by_credential-Agrees a none c = rcpt_unauthenticated-Agrees a _ c
    rcpt_by_credential-Agrees a (some cred) c = (refl, refl)

    rcpt_dispatch-Agrees :
        (a : RcptAddress) (c : Conn Db Q)
        → Agrees (rcpt_dispatch env again a c) (rcpt_dispatch env again' a c)
    rcpt_dispatch-Agrees a c =
        unfold rcpt_dispatch in ground (arith, rcpt_by_credential-Agrees a c.session.credential c)

    rcpt_parsed-Agrees :
        (p : Option RcptAddress) (c : Conn Db Q)
        → Agrees (rcpt_parsed env again p c) (rcpt_parsed env again' p c)
    unfolding rcpt_parsed
    rcpt_parsed-Agrees none c = (refl, refl)
    rcpt_parsed-Agrees (some a) c = rcpt_dispatch-Agrees a c

    rcpt_address-Agrees :
        (address : Text) (c : Conn Db Q)
        → Agrees (rcpt_address env again address c) (rcpt_address env again' address c)
    rcpt_address-Agrees address c =
        unfold rcpt_address in ground (arith, rcpt_parsed-Agrees (parse_rcpt address) c)

    rcpt_bind-Agrees :
        (o : Option Text) (c : Conn Db Q)
        → ((o >>= λ address. rcpt_address env again address c)
            ≡ (o >>= λ address. rcpt_address env again' address c))
          × (is_some o ≡ true → is_some (o >>= λ address. rcpt_address env again address c) ≡ true)
    rcpt_bind-Agrees none c = (refl, λ e. e)
    rcpt_bind-Agrees (some address) c =
        let both = rcpt_address-Agrees address c in (both.0, λ _. both.1)

  -- RCPT TO calls itself at most once: two rounds of fuel do what any greater number does.
  pub rcpt_to_fuel_enough :
      (extra : ℕ) (input : Text) (c : Conn Db Q)
      → is_ascii input ≡ true
      → rcpt_to_fuel env (suc (suc extra)) input c ≡ rcpt_to env input c
  unfolding rcpt_to_fuel rcpt_to
  rcpt_to_fuel_enough extra input c a =
      ap
        (λ r.
          if may_rcpt c.session.state
          then r
          else some (c, reply (codes "503 EHLO/HELO and MAIL FROM first please")))
        (rcpt_bind-Agrees (rcpt_to_fuel env (suc extra) input) (rcpt_to_fuel env 1 input)
          (λ d h. (
            rcpt_to_fuel_authenticated extra 0 input d h,
            rcpt_authenticated_ascii extra input d h a,
          ))
          (extract_address input (codes "RCPT TO")) c).0

  pub rcpt_to_ascii :
      (input : Text) (c : Conn Db Q) → is_ascii input ≡ true → is_some (rcpt_to env input c) ≡ true
  unfolding rcpt_to_fuel rcpt_to
  rcpt_to_ascii input c a =
      if_both (λ (o : Option (Conn Db Q × Reply)). is_some o ≡ true) (may_rcpt c.session.state)
        (λ _.
          (rcpt_bind-Agrees (rcpt_to_fuel env 1 input) (rcpt_to_fuel env 1 input)
              (λ d h. (refl, rcpt_authenticated_ascii 0 input d h a))
              (extract_address input (codes "RCPT TO")) c).1
            (extract_address_ascii input (codes "RCPT TO") a))
        (λ _. refl)
