-- ===== src/Smtp/Invariant/Auth.antt =====
-- Authentication keeps the invariant.
use camelmailer.Base.{◌≡◌, refl, false, arith, Option, none, some, List, [], ◌∷◌, is_some}
use camelmailer.Text.{Text}
use camelmailer.Model.{Credential, Server}
use camelmailer.Smtp.Types.{InputMode, Conn, Reply, Moment}
use camelmailer.Smtp.Env.{Env}
use camelmailer.Smtp.Auth.{
  cram_server, granted, authenticate, set_mode, auth_plain_continue, auth_plain, auth_login,
  auth_login_username, auth_login_password, auth_cram_md5, auth_cram_md5_continue, try_credentials,
}
use camelmailer.Smtp.Invariant.{IsConsistent, fits_authenticated, is_data_mode}

module _ {Db Q : Type 0} (env : Env Db Q) where
  pub granted-IsConsistent :
      (cred : Credential) (c : Conn Db Q)
      → IsConsistent c.session
      → IsConsistent (granted env cred c).0.session
  unfolding granted
  granted-IsConsistent cred c h =
      ground (arith, fits_authenticated (is_some c.session.credential) c.session.recipients)

  pub authenticate-IsConsistent :
      (password : Text) (c : Conn Db Q)
      → IsConsistent c.session
      → IsConsistent (authenticate env password c).0.session
  unfolding authenticate
  authenticate-IsConsistent password c h =
      ground (arith, fits_authenticated (is_some c.session.credential) c.session.recipients)

  -- A mode that is no message keeps the invariant.
  pub set_mode-IsConsistent :
      (m : InputMode) (c : Conn Db Q)
      → is_data_mode m ≡ false
      → IsConsistent c.session
      → IsConsistent (set_mode env m c).session
  unfolding set_mode
  set_mode-IsConsistent m c e h = ground arith

  try_credentials-IsConsistent :
      (challenge password : Text) (creds : List Credential) (c : Conn Db Q)
      → IsConsistent c.session
      → IsConsistent (try_credentials env challenge password creds c).0.session
  unfolding try_credentials
  try_credentials-IsConsistent challenge password [] c h = h
  try_credentials-IsConsistent challenge password (cred ∷ rest) c h = ground (
    arith,
    granted-IsConsistent cred c h,
    try_credentials-IsConsistent challenge password rest c h,
  )

  pub auth_plain_continue-IsConsistent :
      (input : Text) (c : Conn Db Q)
      → IsConsistent c.session
      → IsConsistent (auth_plain_continue env input c).0.session
  unfolding auth_plain_continue
  auth_plain_continue-IsConsistent input c h =
      ground (arith, fits_authenticated (is_some c.session.credential) c.session.recipients)

  pub auth_login_username-IsConsistent :
      (c : Conn Db Q) → IsConsistent c.session → IsConsistent (auth_login_username env c).0.session
  unfolding auth_login_username
  auth_login_username-IsConsistent c h = ground arith

  pub auth_login_password-IsConsistent :
      (input : Text) (c : Conn Db Q)
      → IsConsistent c.session
      → IsConsistent (auth_login_password env input c).0.session
  unfolding auth_login_password
  auth_login_password-IsConsistent input c h =
      ground (arith, fits_authenticated (is_some c.session.credential) c.session.recipients)

  pub auth_cram_md5-IsConsistent :
      (m : Moment) (c : Conn Db Q)
      → IsConsistent c.session
      → IsConsistent (auth_cram_md5 env m c).0.session
  unfolding auth_cram_md5
  auth_cram_md5-IsConsistent m c h = ground arith

  pub auth_plain-IsConsistent :
      (input : Text) (c c' : Conn Db Q) (r : Reply)
      → IsConsistent c.session
      → auth_plain env input c ≡ some (c', r)
      → IsConsistent c'.session
  unfolding auth_plain
  auth_plain-IsConsistent input c c' r h e =
      ground (arith, fits_authenticated (is_some c.session.credential) c.session.recipients)

  pub auth_login-IsConsistent :
      (input : Text) (c c' : Conn Db Q) (r : Reply)
      → IsConsistent c.session
      → auth_login env input c ≡ some (c', r)
      → IsConsistent c'.session
  unfolding auth_login
  auth_login-IsConsistent input c c' r h e = ground arith

  cram_server-IsConsistent :
      (challenge password : Text) (srv : Option Server) (c : Conn Db Q)
      → IsConsistent c.session
      → IsConsistent (cram_server env challenge password srv c).0.session
  cram_server-IsConsistent challenge password none c h = unfold cram_server in h
  cram_server-IsConsistent challenge password (some srv) c h =
      unfold cram_server in
      try_credentials-IsConsistent challenge password
        (env.store.smtp_credentials_for_server c.db srv.id) c h

  pub auth_cram_md5_continue-IsConsistent :
      (input challenge : Text) (c : Conn Db Q)
      → IsConsistent c.session
      → IsConsistent (auth_cram_md5_continue env input challenge c).0.session
  auth_cram_md5_continue-IsConsistent input challenge c h =
      unfold auth_cram_md5_continue in
      cram_server-IsConsistent _ _ _ _ (set_mode-IsConsistent InputMode.command c refl h)
