-- ===== src/Smtp/Auth.antt =====
-- crates/camelmailer-smtp/src/session.rs: AUTH PLAIN, AUTH LOGIN and AUTH CRAM-MD5. A result `none`
-- is the panic of `strip_prefix_ci`.
use camelmailer.Base.{
  ℕ, Bool, ◌||◌, Option, none, some, List, [], ◌∷◌, ◌++◌, ◌==◌, if◌then◌else◌, is_empty, unwrap_or,
  map_option, filter, last?, ◌>>=◌, length, ltb,
}
use camelmailer.Text.{
  Text, Bytes, codes, trim, split_where, text_eq, strip_prefix, as_bytes, trim_end_where,
  is_ascii_alphanumeric, lf, cr,
}
use camelmailer.Text.Format.{hex_of_bytes}
use camelmailer.Model.{Organization, Server, Credential}
use camelmailer.Smtp.Types.{Reply, line, InputMode, Conn, Moment}
use camelmailer.Smtp.Env.{Crates, Env}
use camelmailer.Smtp.Address.{strip_prefix_ci}
use camelmailer.Smtp.Basic.{reply}

unfoldable pub is_base64_char : ℕ → Bool
unfolding is_ascii_alphanumeric
is_base64_char c = is_ascii_alphanumeric c || c == b'+' || c == b'/' || c == b'='

unfoldable pub decode64_lenient : Crates → Text → Bytes
unfolding is_base64_char
decode64_lenient crates input = unwrap_or [] (crates.base64_decode (filter is_base64_char input))

-- What follows the mechanism's name, without one leading space.
unfoldable pub mechanism_argument : Text → Text → Option Text
unfolding strip_prefix_ci strip_prefix
mechanism_argument input mechanism = do
  rest ← strip_prefix_ci input mechanism
  some (unwrap_or rest (strip_prefix rest (b' ' ∷ [])))

-- `splitn(2, ..)` and the two `next().unwrap_or("")`: the two halves at the first separator.
unfoldable pub halves : (ℕ → Bool) → Text → Text × Text
halves p [] = ([], [])
halves p (x ∷ r) = let (a, b) = halves p r in if p x then ([], r) else (x ∷ a, b)

module _ {Db Q : Type 0} (env : Env Db Q) where
  unfoldable pub grant_message : Db → Credential → Text
  grant_message db cred =
      let srv = env.store.server db cred.server_id in
      let org = (do s ← srv; env.store.organization db s.organization_id) in
      codes "235 Granted for "
      ++ (unwrap_or [] (map_option (λ (o : Organization). o.permalink) org)
          ++ (codes "/" ++ unwrap_or [] (map_option (λ (s : Server). s.permalink) srv)))

  -- The credential is recorded as used, and the session carries it from here on. The grant is
  -- formatted after the use is recorded.
  unfoldable pub granted : Credential → Conn Db Q → Conn Db Q × Reply
  unfolding grant_message
  granted cred c =
      let used = env.store.record_credential_use c.db cred.id in
      (
        record c { session = record (c.session) { credential = some cred }; db = used },
        line (grant_message used cred),
      )

  authenticate_with : Option Credential → Conn Db Q → Conn Db Q × Reply
  authenticate_with (some cred) c = granted cred c
  authenticate_with none c = (c, reply (codes "535 Invalid credential"))

  unfoldable pub authenticate : Text → Conn Db Q → Conn Db Q × Reply
  unfolding authenticate_with granted reply
  authenticate password c =
      authenticate_with (env.store.find_smtp_credential_by_key c.db password) c

  unfoldable pub set_mode : InputMode → Conn Db Q → Conn Db Q
  set_mode m c = record c { session = record (c.session) { input_mode = m } }

  -- The last of the parts that NUL separates is the password; fewer than two are an error.
  plain_parts : List Text → Conn Db Q → Conn Db Q × Reply
  plain_parts parts c =
      if ltb (length parts) 2
      then (c, reply (codes "535 Authenticated failed - protocol error"))
      else authenticate (unwrap_or [] (last? parts)) c

  unfoldable pub auth_plain_continue : Text → Conn Db Q → Conn Db Q × Reply
  unfolding set_mode plain_parts authenticate reply decode64_lenient split_where
  auth_plain_continue input c =
      plain_parts
        (split_where (λ b. b == 0) (env.crates.from_utf8_lossy (decode64_lenient env.crates input)))
        (set_mode InputMode.command c)

  auth_plain_with : Text → Conn Db Q → Conn Db Q × Reply
  auth_plain_with rest c =
      if is_empty (trim rest)
      then (set_mode InputMode.auth_plain c, reply (codes "334"))
      else auth_plain_continue rest c

  unfoldable pub auth_plain : Text → Conn Db Q → Option (Conn Db Q × Reply)
  unfolding auth_plain_with set_mode auth_plain_continue reply
  auth_plain input c = do
    rest ← mechanism_argument input (codes "AUTH PLAIN")
    some (auth_plain_with rest c)

  unfoldable pub auth_login_username : Conn Db Q → Conn Db Q × Reply
  unfolding set_mode reply
  auth_login_username c =
      (set_mode InputMode.auth_login_password c, reply (codes "334 UGFzc3dvcmQ6"))

  auth_login_with : Text → Conn Db Q → Conn Db Q × Reply
  auth_login_with rest c =
      if is_empty (trim rest)
      then (set_mode InputMode.auth_login_username c, reply (codes "334 VXNlcm5hbWU6"))
      else auth_login_username c

  unfoldable pub auth_login : Text → Conn Db Q → Option (Conn Db Q × Reply)
  unfolding auth_login_with set_mode auth_login_username reply
  auth_login input c = do
    rest ← mechanism_argument input (codes "AUTH LOGIN")
    some (auth_login_with rest c)

  unfoldable pub auth_login_password : Text → Conn Db Q → Conn Db Q × Reply
  unfolding set_mode authenticate decode64_lenient
  auth_login_password input c =
      authenticate (env.crates.from_utf8_lossy (decode64_lenient env.crates input))
        (set_mode InputMode.command c)

  unfoldable pub auth_cram_md5 : Moment → Conn Db Q → Conn Db Q × Reply
  unfolding set_mode
  auth_cram_md5 m c =
      let challenge =
        codes "<" ++ (m.nonce ++ (codes "@" ++ (c.session.config.smtp_hostname ++ codes ">"))) in
      (
        set_mode (InputMode.auth_cram_md5 challenge) c,
        line (codes "334 " ++ env.crates.base64_encode (as_bytes challenge)),
      )

  unfoldable pub cram_response : Text → Credential → Text
  unfolding hex_of_bytes as_bytes
  cram_response challenge cred =
      hex_of_bytes (env.crates.hmac_md5 (as_bytes cred.key) (as_bytes challenge))

  -- The loop over the server's credentials.
  unfoldable pub try_credentials : Text → Text → List Credential → Conn Db Q → Conn Db Q × Reply
  unfolding reply
  try_credentials challenge password [] c = (c, reply (codes "535 Denied"))
  try_credentials challenge password (cred ∷ rest) c =
      let next = try_credentials challenge password rest c in
      if text_eq password (cram_response challenge cred) then granted cred c else next

  unfoldable pub cram_server : Text → Text → Option Server → Conn Db Q → Conn Db Q × Reply
  unfolding try_credentials reply
  cram_server challenge password none c = (c, reply (codes "535 Denied"))
  cram_server challenge password (some srv) c =
      try_credentials challenge password (env.store.smtp_credentials_for_server c.db srv.id) c

  unfoldable pub auth_cram_md5_continue : Text → Text → Conn Db Q → Conn Db Q × Reply
  unfolding halves trim_end_where decode64_lenient
  auth_cram_md5_continue input challenge c =
      let decoded = env.crates.from_utf8_lossy (decode64_lenient env.crates input) in
      let (first, second) = halves (λ b. b == b' ') decoded in
      let username = trim_end_where (λ b. b == cr || b == lf) first in
      let password = trim_end_where (λ b. b == cr || b == lf) second in
      let (org, srv) = halves (λ b. b == b'/' || b == b'_') username in
      cram_server challenge password (env.store.find_server_by_permalinks c.db org srv)
        (set_mode InputMode.command c)
