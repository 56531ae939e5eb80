-- ===== src/Smtp/Invariant/Finish.antt =====
-- DATA, the lines of a message and its end keep the invariant.
use camelmailer.Base.{
  [], unwrap_or, OnSome, ◌≡◌, false, arith, Option, none, some, List, if_both, ◌>>=◌,
}
use camelmailer.Text.{Text, Bytes}
use camelmailer.Smtp.Types.{Session, Conn, Moment, Headers}
use camelmailer.Smtp.Env.{Env, Crates}
use camelmailer.Smtp.Basic.{back_to_welcomed}
use camelmailer.Smtp.Body.{data_command, message_line, header_step, keep_line, unstuff}
use camelmailer.Message.{QueuedMessage, IdempotencyRequest}
use camelmailer.Smtp.Finish.{
  messages_for, authenticated_domain, finish_data, finish_checked, refuse, store_messages,
  accept_message, KeyCheck, no_key, key, bad_key, with_key,
}
use camelmailer.Smtp.Invariant.{IsConsistent, is_data_mode}
use camelmailer.Smtp.Invariant.Envelope.{Keeps}

pub back_to_welcomed-IsConsistent :
    (s : Session) → is_data_mode s.input_mode ≡ false → IsConsistent (back_to_welcomed s)
unfolding back_to_welcomed
back_to_welcomed-IsConsistent s m = ground arith

header_step-IsConsistent :
    (crates : Crates) (input : Text) (s : Session)
    → IsConsistent s
    → OnSome IsConsistent (header_step crates input s)
unfolding header_step
header_step-IsConsistent crates input s h = ground arith

keep_line-IsConsistent :
    (input : Text) (s : Session) → IsConsistent s → IsConsistent (keep_line input s)
unfolding keep_line
keep_line-IsConsistent input s h = ground arith

pub message_line-IsConsistent :
    (crates : Crates) (input : Text) (s : Session)
    → IsConsistent s
    → OnSome IsConsistent (message_line crates input s)
unfolding message_line
message_line-IsConsistent crates input s h =
    if_both (OnSome IsConsistent) s.receiving_headers
      (λ _. kept (header_step crates (unstuff input) s) (header_step-IsConsistent crates _ s h))
      (λ _. keep_line-IsConsistent (unstuff input) s h)
  where
    kept :
        (o : Option Session)
        → OnSome IsConsistent o
        → OnSome IsConsistent (o >>= λ t. some (keep_line (unstuff input) t))
    kept none k = tt
    kept (some t) k = keep_line-IsConsistent (unstuff input) t k

module _ {Db Q : Type 0} (env : Env Db Q) where
  pub data_command-IsConsistent :
      (m : Moment) (c : Conn Db Q) → IsConsistent c.session → Keeps (data_command env m c)
  unfolding data_command
  data_command-IsConsistent m c h = ground arith

  module _ (c : Conn Db Q) (k : is_data_mode c.session.input_mode ≡ false) where
    refuse-IsConsistent : (text : Text) → Keeps (refuse text c)
    unfolding refuse
    refuse-IsConsistent text = back_to_welcomed-IsConsistent c.session k

    store_messages-IsConsistent :
        (m : Moment) (i : Option IdempotencyRequest) (ms : List QueuedMessage)
        → Keeps (store_messages env m c i ms)
    unfolding store_messages
    store_messages-IsConsistent m i ms = back_to_welcomed-IsConsistent c.session k

    accept_message-IsConsistent :
        (m : Moment) (headers : Headers) (message : Bytes) (i : Option IdempotencyRequest)
        → OnSome Keeps (accept_message env m c headers message i)
    unfolding accept_message
    accept_message-IsConsistent m headers message i =
        elim (messages_for env c.db c.session (unwrap_or [] c.session.mail_from) message
            (authenticated_domain env c.db headers c.session.credential) c.session.recipients)
          as (λ o. OnSome Keeps (o >>= λ ms. some (store_messages env m c i ms))) [
            | none ↦ tt
            | some ms ↦ store_messages-IsConsistent m i ms
          ]

    with_key-IsConsistent :
        (m : Moment) (headers : Headers) (message : Bytes) (k' : KeyCheck)
        → OnSome Keeps (with_key env m c headers message k')
    unfolding with_key
    with_key-IsConsistent m headers message no_key =
        accept_message-IsConsistent m headers message none
    with_key-IsConsistent m headers message (bad_key text) = refuse-IsConsistent text
    with_key-IsConsistent m headers message (key t) = accept_message-IsConsistent m headers _ _

    finish_checked-IsConsistent :
        (m : Moment) (message : Bytes) (headers : Headers) (o : Option Text)
        → OnSome Keeps (finish_checked env m c message headers o)
    unfolding finish_checked
    finish_checked-IsConsistent m message headers none = with_key-IsConsistent m headers message _
    finish_checked-IsConsistent m message headers (some text) = refuse-IsConsistent text

    pub finish_data-IsConsistent : (m : Moment) → OnSome Keeps (finish_data env m c)
    unfolding finish_data
    finish_data-IsConsistent m = finish_checked-IsConsistent m _ _ _
