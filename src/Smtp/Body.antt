-- ===== src/Smtp/Body.antt =====
-- crates/camelmailer-smtp/src/session.rs: DATA and the lines of a message.
use camelmailer.Base.{
  Bool, true, false, ◌&&◌, Option, none, some, List, [], ◌∷◌, ◌++◌, if◌then◌else◌, is_empty,
  unwrap_or, map_option, length, ◌>>=◌,
}
use camelmailer.Text.{Text, Bytes, codes, cr, lf, text_eq, strip_prefix, is_whitespace, as_bytes}
use camelmailer.Model.{Server}
use camelmailer.Smtp.Types.{is_rcpt_to_received, Reply, InputMode, Session, Conn, Moment, Headers}
use camelmailer.Smtp.Env.{Env, Crates}
use camelmailer.Smtp.Address.{split_header}
use camelmailer.Smtp.Received
use camelmailer.Smtp.Basic.{reply}

-- The header map. `insert` replaces, `entry(..).or_default().push(..)` appends a value, and
-- `last_mut` with `push_str` extends the last value of a key that is there.
unfoldable pub header_get : Text → Headers → Option (List Text)
unfolding text_eq
header_get key [] = none
header_get key ((k, vs) ∷ r) = if text_eq k key then some vs else header_get key r

unfoldable pub header_insert : Text → List Text → Headers → Headers
unfolding text_eq
header_insert key vs [] = (key, vs) ∷ []
header_insert key vs ((k, old) ∷ r) =
    if text_eq k key then (k, vs) ∷ r else (k, old) ∷ header_insert key vs r

unfoldable pub header_push : Text → Text → Headers → Headers
unfolding text_eq
header_push key value [] = (key, value ∷ []) ∷ []
header_push key value ((k, old) ∷ r) =
    if text_eq k key then (k, old ++ value ∷ []) ∷ r else (k, old) ∷ header_push key value r

unfoldable pub extend_last : Text → List Text → List Text
extend_last more [] = []
extend_last more (v ∷ []) = (v ++ more) ∷ []
extend_last more (v ∷ w ∷ r) = v ∷ extend_last more (w ∷ r)

unfoldable pub header_extend : Text → Text → Headers → Headers
unfolding text_eq extend_last
header_extend key more [] = []
header_extend key more ((k, old) ∷ r) =
    if text_eq k key then (k, extend_last more old) ∷ r else (k, old) ∷ header_extend key more r

abbrev pub crlf : Bytes
crlf = cr ∷ lf ∷ []

-- `{name}: {value}\r\n`, as bytes.
unfoldable pub header_line : Text → Text → Bytes
unfolding as_bytes
header_line name value = as_bytes (name ++ (codes ": " ++ value)) ++ crlf

unfoldable pub envelope_header : Session → Text
envelope_header s = codes "<" ++ (unwrap_or [] s.mail_from ++ codes ">")

-- The verdict of the SPF check, if the server layer made one, above the two trace headers.
unfoldable pub spf_lines : Option Text → Bytes
unfolding header_line
spf_lines none = []
spf_lines (some verdict) = header_line (codes "Received-SPF") verdict

unfoldable pub spf_headers : Option Text → Headers
spf_headers none = []
spf_headers (some verdict) = (codes "received-spf", verdict ∷ []) ∷ []

unfoldable pub trace_lines : Option Text → Text → Text → Bytes
unfolding spf_lines header_line
trace_lines spf envelope received =
    spf_lines spf
    ++ (header_line (codes "X-Envelope-From") envelope ++ header_line (codes "Received") received)

unfoldable pub trace_headers : Option Text → Text → Text → Headers
unfolding spf_headers header_insert
trace_headers spf envelope received =
    header_insert (codes "received") (received ∷ [])
      (header_insert (codes "x-envelope-from") (envelope ∷ []) (spf_headers spf))

module _ {Db Q : Type 0} (env : Env Db Q) where
  unfoldable pub received_header : Moment → Conn Db Q → Text
  unfolding Received.generate
  received_header m c =
      let s = c.session in
      let srv : Option Server = (do cred ← s.credential; env.store.server c.db cred.server_id) in
      let ip = unwrap_or [] s.ip_address in
      Received.generate env.crates
        (unwrap_or false (map_option (λ (v : Server). v.privacy_mode) srv))
        (unwrap_or [] s.helo_name) (unwrap_or ip s.resolved_hostname) ip Received.smtp
        s.config.smtp_hostname m.now

  unfoldable pub data_command : Moment → Conn Db Q → Conn Db Q × Reply
  unfolding received_header trace_lines trace_headers envelope_header reply
  data_command m c =
      let s = c.session in
      let received = received_header m c in
      let trace = trace_lines s.received_spf (envelope_header s) received in
      if is_rcpt_to_received s.state
      then (
        record c {
          session = record s {
            receiving_headers = true;
            header_key = none;
            client_data_offset = length trace;
            body = some trace;
            headers = some (trace_headers s.received_spf (envelope_header s) received);
            input_mode = InputMode.data_mode;
          };
        },
        reply (codes "354 Go ahead"),
      )
      else (c, reply (codes "503 HELO/EHLO, MAIL FROM and RCPT TO before sending data"))

abbrev is_true : Option Bool → Bool
is_true (some true) = true
is_true _ = false

-- The end of the data: a lone dot between two line ends of CR LF.
unfoldable pub is_end_of_data : Text → Session → Bool
unfolding text_eq
is_end_of_data input s = text_eq input (b'.' ∷ []) && s.cr_present && is_true s.previous_cr_present

-- A leading `..` becomes `.`.
unfoldable pub unstuff : Text → Text
unfolding strip_prefix
unstuff input = elim (strip_prefix input (codes "..")) [ none ↦ input | some r ↦ b'.' ∷ r ]

starts_with_whitespace : Text → Bool
starts_with_whitespace [] = false
starts_with_whitespace (c ∷ _) = is_whitespace c

-- A folded line extends the last value of the header before it.
fold_header : Crates → Text → Option Text → Option Headers → Option Headers
fold_header crates input (some key) (some h) =
    some (header_extend (crates.to_lowercase key) input h)
fold_header crates input _ h = h

-- A new header line. `headers` must be there: the source panics otherwise.
push_header : Crates → Text → Text → Session → Option Session
push_header crates key value s = do
  h ← s.headers
  some (record s {
    header_key = some key;
    headers = some (header_push (crates.to_lowercase key) value h);
  })

unfoldable pub header_step : Crates → Text → Session → Option Session
unfolding fold_header push_header starts_with_whitespace
header_step crates input s =
    if is_empty input
    then some (record s { receiving_headers = false })
    else if starts_with_whitespace input
    then some (record s { headers = fold_header crates input s.header_key s.headers })
    else elim (split_header input) [
      | none ↦ push_header crates input [] s
      | some (key, value) ↦ push_header crates key value s
    ]

-- The line is kept as it came, less the stuffing.
unfoldable pub keep_line : Text → Session → Session
unfolding as_bytes
keep_line input s = record s {
  body = map_option (λ (b : Bytes). b ++ (as_bytes input ++ crlf)) s.body;
}

-- A line of the message that is not its end. `none` is the panic of a missing header map.
unfoldable pub message_line : Crates → Text → Session → Option Session
message_line crates input s =
    let stripped = unstuff input in
    if s.receiving_headers
    then (do t ← header_step crates stripped s; some (keep_line stripped t))
    else some (keep_line stripped s)
