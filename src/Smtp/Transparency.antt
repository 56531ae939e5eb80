-- ===== src/Smtp/Transparency.antt =====
-- The message that the session stores is the message that the client sent, line for line
-- (crates/camelmailer-smtp/src/session.rs, `data_line`).
use camelmailer.Base.{
  ◌≡◌, refl, Bool, true, false, Option, some, List, [], ◌∷◌, ◌++◌, append_assoc, append-nil, ◌==◌,
  if◌then◌else◌, is_some, arith, Yields, Yields->>=, if_both, ◌>>=◌, map,
}
use camelmailer.Text.{Text, Bytes, cr, codes, as_bytes, strip_prefix, text_eq}
use camelmailer.Smtp.Types.{is_preauth, State, Session, Conn, Reply, silent, InputMode, Moment}
use camelmailer.Smtp.Env.{Env, Crates}
use camelmailer.Smtp.Hash.Laws.{strip_suffix_char_snoc}
use camelmailer.Smtp.Body.{crlf, header_step, keep_line, message_line, unstuff, is_end_of_data}
use camelmailer.Smtp.Handle.{
  handle, handle_stripped, run_line, run_mode, data_line, set_cr, remember_cr,
}

-- What a client sends for a line: a leading dot is doubled, and CR LF ends it (the transport takes the
-- line feed away).
pub stuff : Text → Text
stuff [] = []
stuff (c ∷ t) = if c == b'.' then b'.' ∷ c ∷ t else c ∷ t

pub sent : Text → Text
unfolding stuff
sent t = stuff t ++ cr ∷ []

unstuff-stuff : (t : Text) → unstuff (stuff t) ≡ t
unfolding unstuff stuff strip_prefix codes
unstuff-stuff [] = refl
unstuff-stuff (c ∷ []) = ground arith
unstuff-stuff (c ∷ d ∷ t) = ground arith

-- A sent line never is the lone dot that ends the data.
stuff-ne-dot : (t : Text) → text_eq (stuff t) (b'.' ∷ []) ≡ false
unfolding stuff text_eq
stuff-ne-dot [] = refl
stuff-ne-dot (c ∷ []) = ground arith
stuff-ne-dot (c ∷ d ∷ t) = ground arith

-- A session that receives a message, with the bytes so far.
pub record Receives (b : Bytes) (s : Session) : Type 0 where
  pub in_data : s.input_mode ≡ InputMode.data_mode
  pub after_rcpt : s.state ≡ State.rcpt_to_received
  pub has_headers : is_some s.headers ≡ true
  pub bytes : s.body ≡ some b

header_step-Receives :
    (crates : Crates) (input : Text) (b : Bytes) (s : Session)
    → Receives b s
    → Yields (Receives b) (header_step crates input s)
unfolding header_step
header_step-Receives crates input b s h = ground arith

keep_line-Receives :
    (input : Text) (b : Bytes) (s : Session)
    → Receives b s
    → Receives (b ++ (as_bytes input ++ crlf)) (keep_line input s)
unfolding keep_line
keep_line-Receives input b s h = ground arith

message_line-Receives :
    (crates : Crates) (input : Text) (b : Bytes) (s : Session)
    → Receives b s
    → Yields (Receives (b ++ (as_bytes (unstuff input) ++ crlf))) (message_line crates input s)
unfolding message_line
message_line-Receives crates input b s h =
    if_both (Yields (Receives (b ++ (as_bytes (unstuff input) ++ crlf)))) s.receiving_headers
      (λ _.
        Yields->>= (Receives b) (Receives (b ++ (as_bytes (unstuff input) ++ crlf)))
          (header_step crates (unstuff input) s) (λ t. some (keep_line (unstuff input) t))
          (header_step-Receives crates (unstuff input) b s h)
          (λ t k. keep_line-Receives (unstuff input) b t k))
      (λ _. keep_line-Receives (unstuff input) b s h)

-- The bytes of lines on the wire and in storage: each with CR LF.
pub stored_lines : List Text → Bytes
stored_lines [] = []
stored_lines (t ∷ ts) = (as_bytes t ++ crlf) ++ stored_lines ts

module _ {Db Q : Type 0} (env : Env Db Q) where
  -- The connection after a client's lines, whatever the replies.
  pub feed : List (Moment × Text) → Conn Db Q → Option (Conn Db Q)
  feed [] c = some c
  feed ((m, input) ∷ rest) c = handle env m input c >>= λ r. feed rest r.0

  abbrev Holds : Bytes → Conn Db Q → Type 0
  Holds b c = Receives b c.session

  data_line-Receives :
      (m : Moment) (t : Text) (b : Bytes) (c : Conn Db Q)
      → Holds b c
      → Yields (λ r. Holds (b ++ (as_bytes t ++ crlf)) r.0) (data_line env m (stuff t) c)
  unfolding data_line is_end_of_data
  data_line-Receives m t b c h = rw (stuff-ne-dot t) (
      Yields->>= (Receives (b ++ (as_bytes t ++ crlf)))
        (λ (r : Conn Db Q × Reply). Holds (b ++ (as_bytes t ++ crlf)) r.0)
        (message_line env.crates (stuff t) c.session) (λ s. some (record c { session = s }, silent))
        (rw (unstuff-stuff t) at (message_line-Receives env.crates (stuff t) b c.session h))
        (λ s k. k))

  run_mode-Receives :
      (m : Moment) (t : Text) (b : Bytes) (c : Conn Db Q) (mode : InputMode)
      → mode ≡ InputMode.data_mode
      → Holds b c
      → Yields (λ r. Holds (b ++ (as_bytes t ++ crlf)) r.0) (run_mode env m (stuff t) c mode)
  unfolding run_mode
  run_mode-Receives m t b c InputMode.data_mode e h = data_line-Receives m t b c h
  run_mode-Receives m t b c InputMode.command e h = cc
  run_mode-Receives m t b c InputMode.auth_plain e h = cc
  run_mode-Receives m t b c InputMode.auth_login_username e h = cc
  run_mode-Receives m t b c InputMode.auth_login_password e h = cc
  run_mode-Receives m t b c (InputMode.auth_cram_md5 x) e h = cc

  run_line-Receives :
      (m : Moment) (t : Text) (b : Bytes) (c : Conn Db Q)
      → Holds b c
      → Yields (λ r. Holds (b ++ (as_bytes t ++ crlf)) r.0) (run_line env m (stuff t) c)
  unfolding run_line
  run_line-Receives m t b c h =
      if_both (Yields (λ (r : Conn Db Q × Reply). Holds (b ++ (as_bytes t ++ crlf)) r.0))
        (is_preauth c.session.state) (λ e. absurd (ground arith))
        (λ _. run_mode-Receives m t b c c.session.input_mode h.in_data h)

  set_cr-Receives : (x : Bool) (b : Bytes) (c : Conn Db Q) → Holds b c → Holds b (set_cr env x c)
  unfolding set_cr
  set_cr-Receives x b c h = ground arith

  remember_cr-Receives :
      (b : Bytes) (r : Conn Db Q × Reply) → Holds b r.0 → Holds b (remember_cr env r).0
  unfolding remember_cr
  remember_cr-Receives b (c, r) h = ground arith

  handle-Receives :
      (m : Moment) (t : Text) (b : Bytes) (c : Conn Db Q)
      → Holds b c
      → Yields (λ r. Holds (b ++ (as_bytes t ++ crlf)) r.0) (handle env m (sent t) c)
  unfolding handle sent handle_stripped
  handle-Receives m t b c h = rw (strip_suffix_char_snoc cr (stuff t)) (
      Yields->>= (λ (r : Conn Db Q × Reply). Holds (b ++ (as_bytes t ++ crlf)) r.0)
        (λ (r : Conn Db Q × Reply). Holds (b ++ (as_bytes t ++ crlf)) r.0)
        (run_line env m (stuff t) (set_cr env true c)) (λ r. some (remember_cr env r))
        (run_line-Receives m t b (set_cr env true c) (set_cr-Receives true b c h))
        (λ r k. remember_cr-Receives (b ++ (as_bytes t ++ crlf)) r k))

  -- The lines of a message that a client sends, each with its leading dot doubled and with CR LF, are
  -- stored as they were before: after them the session holds what it held and the lines themselves.
  pub data_transparent :
      (lines : List (Moment × Text)) (b : Bytes) (c : Conn Db Q)
      → Receives b c.session
      → Yields
          (λ c'. Receives (b ++ stored_lines (map (λ (l : Moment × Text). l.1) lines)) c'.session)
          (feed (map (λ (l : Moment × Text). (l.0, sent l.1)) lines) c)
  unfolding feed stored_lines
  data_transparent [] b c h = rw append-nil h
  data_transparent ((m, t) ∷ rest) b c h =
      rw
        (← append_assoc b (as_bytes t ++ crlf)
          (stored_lines (map (λ (l : Moment × Text). l.1) rest)))
        (Yields->>= (λ (r : Conn Db Q × Reply). Holds (b ++ (as_bytes t ++ crlf)) r.0)
          (λ c'.
            Receives
              ((b ++ (as_bytes t ++ crlf)) ++ stored_lines (map (λ (l : Moment × Text). l.1) rest))
              c'.session)
          (handle env m (sent t) c)
          (λ r. feed (map (λ (l : Moment × Text). (l.0, sent l.1)) rest) r.0)
          (handle-Receives m t b c h)
          (λ r k. data_transparent rest (b ++ (as_bytes t ++ crlf)) r.0 k))
