-- ===== src/Smtp/Total/Handle.antt =====
-- No line of ASCII text makes a consistent session panic.
use camelmailer.Base.{
  ◌≡◌, refl, Bool, true, false, Option, none, some, List, [], ◌∷◌, all, is_some, unwrap_or, arith,
  OnSome, is_some->>=, if_both,
}
use camelmailer.Text.{Text, Bytes, cr, strip_suffix_char}
use camelmailer.Text.Laws.{is_ascii, all-strip_suffix_char}
use camelmailer.Model.{EntityId}
use camelmailer.Smtp.Types.{Session, Conn, Reply, Moment, InputMode, Recipient, Headers}
use camelmailer.Smtp.Env.{Env, Crates}
use camelmailer.Smtp.Envelope.{mail_from_command}
use camelmailer.Smtp.Finish.{message_for, messages_for}
use camelmailer.Smtp.Invariant.{IsConsistent, fits}
use camelmailer.Smtp.Total.{mail_from_command_ascii, auth_plain_ascii, auth_login_ascii}
use camelmailer.Smtp.Total.Rcpt.{rcpt_to_ascii}
use camelmailer.Smtp.Body.{header_step, message_line, unstuff, is_end_of_data}
use camelmailer.Smtp.Auth.{set_mode}
use camelmailer.Smtp.Handle.{
  Verb, plain_verb, login_verb, mail_verb, rcpt_verb, on_mail, run_verb, guard_auth, handle_command,
  data_line, run_mode, run_line, set_cr, handle_stripped, handle, verb_of,
}
use camelmailer.Smtp.Finish.{
  accept_message, with_key, KeyCheck, no_key, key, bad_key, finish_checked, finish_data,
  authenticated_domain,
}
use camelmailer.Message.{IdempotencyRequest}
use camelmailer.Smtp.Invariant.{is_data_mode}
use camelmailer.Smtp.Invariant.Auth.{set_mode-IsConsistent}
use camelmailer.Smtp.Invariant.Handle.{set_cr-IsConsistent}
use camelmailer.Smtp.Types.{is_preauth}

abbrev Succeeds {ℓ} : {A : Type ℓ} → Option A → Type 0
Succeeds o = is_some o ≡ true

header_step-Succeeds :
    (crates : Crates) (input : Text) (s : Session)
    → is_some s.headers ≡ true
    → Succeeds (header_step crates input s)
unfolding header_step
header_step-Succeeds crates input s h = ground arith

message_line-Succeeds :
    (crates : Crates) (input : Text) (s : Session)
    → is_some s.headers ≡ true
    → Succeeds (message_line crates input s)
unfolding message_line
message_line-Succeeds crates input s h =
    if_both (λ (o : Option Session). is_some o ≡ true) s.receiving_headers
      (λ _.
        is_some->>= (header_step crates (unstuff input) s) _ (header_step-Succeeds crates _ s h)
          (λ t. refl))
      (λ _. refl)

module _ {Db Q : Type 0} (env : Env Db Q) where
  -- A recipient that fits its session yields a message.
  message_for-Succeeds :
      (db : Db) (s : Session) (from : Text) (message : Bytes) (domain_id : Option EntityId)
      (b : Bool) (r : Recipient)
      → fits b r ≡ true
      → Succeeds (message_for env db s from message domain_id r)
  unfolding message_for
  message_for-Succeeds db s from message domain_id b r h = ground arith

  messages_for-Succeeds :
      (db : Db) (s : Session) (from : Text) (message : Bytes) (domain_id : Option EntityId)
      (b : Bool) (rs : List Recipient)
      → all (fits b) rs ≡ true
      → Succeeds (messages_for env db s from message domain_id rs)
  unfolding messages_for
  messages_for-Succeeds db s from message domain_id b [] h = refl
  messages_for-Succeeds db s from message domain_id b (r ∷ rs) h =
      let rest = messages_for-Succeeds db s from message domain_id b rs (ground arith) in
      is_some->>= (message_for env db s from message domain_id r) _
        (message_for-Succeeds db s from message domain_id b r (ground arith))
        (λ x. is_some->>= (messages_for env db s from message domain_id rs) _ rest (λ xs. refl))

  accept_message-Succeeds :
      (m : Moment) (c : Conn Db Q) (headers : Headers) (message : Bytes)
      (i : Option IdempotencyRequest)
      → IsConsistent c.session
      → Succeeds (accept_message env m c headers message i)
  unfolding accept_message
  accept_message-Succeeds m c headers message i h =
      is_some->>=
        (messages_for env c.db c.session (unwrap_or [] c.session.mail_from) message
          (authenticated_domain env c.db headers c.session.credential) c.session.recipients)
        _
        (messages_for-Succeeds c.db c.session (unwrap_or [] c.session.mail_from) message
          (authenticated_domain env c.db headers c.session.credential)
          (is_some c.session.credential) c.session.recipients h.recipients_fit)
        (λ ms. refl)

  with_key-Succeeds :
      (m : Moment) (c : Conn Db Q) (headers : Headers) (message : Bytes) (k : KeyCheck)
      → IsConsistent c.session
      → Succeeds (with_key env m c headers message k)
  unfolding with_key
  with_key-Succeeds m c headers message no_key h =
      accept_message-Succeeds m c headers message none h
  with_key-Succeeds m c headers message (bad_key t) h = refl
  with_key-Succeeds m c headers message (key t) h = accept_message-Succeeds m c headers _ _ h

  finish_checked-Succeeds :
      (m : Moment) (c : Conn Db Q) (message : Bytes) (headers : Headers) (o : Option Text)
      → IsConsistent c.session
      → Succeeds (finish_checked env m c message headers o)
  unfolding finish_checked
  finish_checked-Succeeds m c message headers none h = with_key-Succeeds m c headers message _ h
  finish_checked-Succeeds m c message headers (some t) h = refl

  finish_data-Succeeds :
      (m : Moment) (c : Conn Db Q) → IsConsistent c.session → Succeeds (finish_data env m c)
  unfolding finish_data
  finish_data-Succeeds m c h = finish_checked-Succeeds m c _ _ _ h

  data_line-Succeeds :
      (m : Moment) (input : Text) (c : Conn Db Q)
      → is_data_mode c.session.input_mode ≡ true
      → IsConsistent c.session
      → Succeeds (data_line env m input c)
  unfolding data_line set_mode
  data_line-Succeeds m input c k h =
      if_both (λ (o : Option (Conn Db Q × Reply)). is_some o ≡ true)
        (is_end_of_data input c.session)
        (λ _.
          finish_data-Succeeds m (set_mode env InputMode.command c)
            (unfold set_mode in set_mode-IsConsistent env InputMode.command c refl h))
        (λ _.
          is_some->>= (message_line env.crates input c.session) _
            (message_line-Succeeds env.crates input c.session (h.message_open k).0) (λ s. refl))

  on_mail-Succeeds :
      (input : Text) (c : Conn Db Q) → is_ascii input ≡ true → Succeeds (on_mail env input c)
  unfolding on_mail
  on_mail-Succeeds input c a =
      is_some->>= (mail_from_command input c.session) _ (mail_from_command_ascii input c.session a)
        (λ r. refl)

  run_verb-Succeeds :
      (m : Moment) (input : Text) (c : Conn Db Q) (v : Verb)
      → is_ascii input ≡ true
      → Succeeds (run_verb env m input c v)
  unfolding run_verb
  run_verb-Succeeds m input c plain_verb a = auth_plain_ascii env input c a
  run_verb-Succeeds m input c login_verb a = auth_login_ascii env input c a
  run_verb-Succeeds m input c mail_verb a = on_mail-Succeeds input c a
  run_verb-Succeeds m input c rcpt_verb a = rcpt_to_ascii env input c a
  run_verb-Succeeds m input c _ a = refl

  handle_command-Succeeds :
      (m : Moment) (input : Text) (c : Conn Db Q)
      → is_ascii input ≡ true
      → Succeeds (handle_command env m input c)
  unfolding handle_command guard_auth
  handle_command-Succeeds m input c a =
      ground (arith, run_verb-Succeeds m input c (verb_of input) a)

  run_mode-Succeeds :
      (m : Moment) (input : Text) (c : Conn Db Q) (mode : InputMode)
      → c.session.input_mode ≡ mode
      → is_ascii input ≡ true
      → IsConsistent c.session
      → Succeeds (run_mode env m input c mode)
  unfolding run_mode
  run_mode-Succeeds m input c InputMode.command e a h = handle_command-Succeeds m input c a
  run_mode-Succeeds m input c InputMode.data_mode e a h = data_line-Succeeds m input c (rw e refl) h
  run_mode-Succeeds m input c _ e a h = refl

  run_line-Succeeds :
      (m : Moment) (input : Text) (c : Conn Db Q)
      → is_ascii input ≡ true
      → IsConsistent c.session
      → Succeeds (run_line env m input c)
  unfolding run_line
  run_line-Succeeds m input c a h =
      if_both (λ (o : Option (Conn Db Q × Reply)). is_some o ≡ true) (is_preauth c.session.state)
        (λ _. refl) (λ _. run_mode-Succeeds m input c c.session.input_mode refl a h)

  handle_stripped-Succeeds :
      (m : Moment) (input : Text) (o : Option Text) (c : Conn Db Q)
      → is_ascii input ≡ true
      → OnSome (λ t. is_ascii t ≡ true) o
      → IsConsistent c.session
      → Succeeds (handle_stripped env m input o c)
  unfolding handle_stripped
  handle_stripped-Succeeds m input none c a k h =
      run_line-Succeeds m input (set_cr env false c) a (set_cr-IsConsistent env false c h)
  handle_stripped-Succeeds m input (some t) c a k h =
      run_line-Succeeds m t (set_cr env true c) k (set_cr-IsConsistent env true c h)

  -- In a consistent session `handle` answers every line of ASCII text: it does not panic.
  pub handle_total :
      (m : Moment) (input : Text) (c : Conn Db Q)
      → is_ascii input ≡ true
      → IsConsistent c.session
      → is_some (handle env m input c) ≡ true
  unfolding handle
  handle_total m input c a h =
      is_some->>= (handle_stripped env m input (strip_suffix_char cr input) c) _
        (handle_stripped-Succeeds m input (strip_suffix_char cr input) c a
          (all-strip_suffix_char _ cr input a) h)
        (λ r. refl)
