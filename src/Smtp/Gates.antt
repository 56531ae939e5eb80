-- ===== src/Smtp/Gates.antt =====
-- The end of DATA (crates/camelmailer-smtp/src/session.rs, `finish_data`): what a message must pass to
-- reach the sink, what is queued for it, and how the session goes on.
use camelmailer.Base.{
  ◌≤◌, ◌≡◌, refl, ap, ◌⊎◌, inl, inr, true, false, Option, none, some, List, [], ◌∷◌, all, All,
  is_some, unwrap_or, arith, OnSome, OnSome_eq, ◌>>=◌,
}
use camelmailer.Text.{Text, Bytes}
use camelmailer.Model.{EntityId}
use camelmailer.Message.{MessageScope, QueuedMessage, IdempotencyRequest}
use camelmailer.Smtp.Types.{State, Session, Conn, Reply, Moment, Headers, Recipient}
use camelmailer.Smtp.Env.{Env}
use camelmailer.Smtp.Basic.{back_to_welcomed}
use camelmailer.Smtp.Finish.{
  is_too_large, received_by_us, sender_is_valid, rejection, refuse, store_messages, accept_message,
  KeyCheck, no_key, key, bad_key, with_key, finish_checked, finish_data, message_for, messages_for,
  authenticated_domain,
}
use camelmailer.Smtp.Invariant.{IsConsistent, fits}

-- The messages that recipients give rise to.
module _ {Db Q : Type 0} (env : Env Db Q) (db : Db) (s : Session) (from : Text) (message : Bytes)
    (domain_id : Option EntityId) where
  -- What a message has from its recipient.
  abbrev pub IsFor : Recipient → QueuedMessage → Type 0
  IsFor r q =
      (q.rcpt_to ≡ r.rcpt_to)
      × (q.server_id ≡ r.server.id)
      × (q.raw_message ≡ message)
      × (q.mail_from ≡ from)

  message_for-IsFor :
      (r : Recipient) → OnSome (IsFor r) (message_for env db s from message domain_id r)
  unfolding message_for
  message_for-IsFor r = ground arith

  abbrev pub AreFor : List Recipient → List QueuedMessage → Type 0
  AreFor [] [] = Unit
  AreFor (r ∷ rs) (q ∷ qs) = IsFor r q × AreFor rs qs
  AreFor _ _ = ⊥

  -- Where the messages are built (a route recipient without a route panics), they are one for each
  -- recipient, in order, to its address and server, with the envelope sender and the whole message.
  pub messages_for-AreFor :
      (rs : List Recipient) → OnSome (AreFor rs) (messages_for env db s from message domain_id rs)
  unfolding messages_for
  messages_for-AreFor [] = tt
  messages_for-AreFor (r ∷ rs) =
      both (message_for env db s from message domain_id r)
        (messages_for env db s from message domain_id rs) (message_for-IsFor r)
        (messages_for-AreFor rs)
    where
      both :
          (o : Option QueuedMessage) (p : Option (List QueuedMessage))
          → OnSome (IsFor r) o
          → OnSome (AreFor rs) p
          → OnSome (AreFor (r ∷ rs)) (o >>= λ q. p >>= λ qs. some (q ∷ qs))
      both none p h k = tt
      both (some q) none h k = tt
      both (some q) (some qs) h k = (h, k)

module _ {Db Q : Type 0} (env : Env Db Q) where
  -- Without a credential every message is an incoming one: nobody relays without authentication.
  message_for_incoming :
      (db : Db) (s : Session) (from : Text) (message : Bytes) (domain_id : Option EntityId)
      (r : Recipient)
      → fits false r ≡ true
      → OnSome
          (λ q. q.scope ≡ MessageScope.incoming)
          (message_for env db s from message domain_id r)
  unfolding message_for
  message_for_incoming db s from message domain_id r h = ground arith

  messages_for_incoming :
      (db : Db) (s : Session) (from : Text) (message : Bytes) (domain_id : Option EntityId)
      (rs : List Recipient)
      → all (fits false) rs ≡ true
      → OnSome
          (All (λ q. q.scope ≡ MessageScope.incoming))
          (messages_for env db s from message domain_id rs)
  unfolding messages_for
  messages_for_incoming db s from message domain_id [] h = tt
  messages_for_incoming db s from message domain_id (r ∷ rs) h =
      both (message_for env db s from message domain_id r)
        (messages_for env db s from message domain_id rs)
        (message_for_incoming db s from message domain_id r (ground arith))
        (messages_for_incoming db s from message domain_id rs (ground arith))
    where
      both :
          (o : Option QueuedMessage) (p : Option (List QueuedMessage))
          → OnSome (λ q. q.scope ≡ MessageScope.incoming) o
          → OnSome (All (λ q. q.scope ≡ MessageScope.incoming)) p
          → OnSome
              (All (λ q. q.scope ≡ MessageScope.incoming))
              (o >>= λ q. p >>= λ qs. some (q ∷ qs))
      both none p h k = tt
      both (some q) none h k = tt
      both (some q) (some qs) h k = (h, k)

  -- In a consistent session without a credential, every message that is built for its recipients at
  -- the end of DATA is an incoming one.
  pub no_open_relay :
      (db : Db) (s : Session) (from : Text) (message : Bytes) (domain_id : Option EntityId)
      (ms : List QueuedMessage)
      → IsConsistent s
      → s.credential ≡ none
      → messages_for env db s from message domain_id s.recipients ≡ some ms
      → All (λ q. q.scope ≡ MessageScope.incoming) ms
  no_open_relay db s from message domain_id ms h e k =
      OnSome_eq (All (λ (q : QueuedMessage). q.scope ≡ MessageScope.incoming))
        (messages_for_incoming db s from message domain_id s.recipients
          (rw (ap is_some e) at h.recipients_fit))
        k

  -- The session after DATA, whatever came of the message.
  abbrev IsReset : Conn Db Q → Conn Db Q × Reply → Type 0
  IsReset c (c', r) =
      (c'.session ≡ record c.session {
        state = State.welcomed;
        recipients = [];
        mail_from = none;
        body = none;
        client_data_offset = 0;
        headers = none;
      })
      × (c'.db ≡ c.db)

  accept_message_resets :
      (m : Moment) (c : Conn Db Q) (headers : Headers) (message : Bytes)
      (i : Option IdempotencyRequest)
      → OnSome (IsReset c) (accept_message env m c headers message i)
  unfolding accept_message store_messages back_to_welcomed
  accept_message_resets m c headers message i =
      elim (messages_for env c.db c.session (unwrap_or [] c.session.mail_from) message
          (authenticated_domain env c.db headers c.session.credential) c.session.recipients)
        as (λ o. OnSome (IsReset c) (o >>= λ ms. some (store_messages env m c i ms))) [
          | none ↦ tt
          | some ms ↦ (refl, refl)
        ]

  with_key_resets :
      (m : Moment) (c : Conn Db Q) (headers : Headers) (message : Bytes) (k : KeyCheck)
      → OnSome (IsReset c) (with_key env m c headers message k)
  unfolding with_key refuse back_to_welcomed
  with_key_resets m c headers message no_key = accept_message_resets m c headers message none
  with_key_resets m c headers message (bad_key t) = (refl, refl)
  with_key_resets m c headers message (key t) = accept_message_resets m c headers _ _

  finish_checked_resets :
      (m : Moment) (c : Conn Db Q) (message : Bytes) (headers : Headers) (o : Option Text)
      → OnSome (IsReset c) (finish_checked env m c message headers o)
  unfolding finish_checked refuse back_to_welcomed
  finish_checked_resets m c message headers none = with_key_resets m c headers message _
  finish_checked_resets m c message headers (some t) = (refl, refl)

  -- Whatever comes of a message, the session waits for a command as after the greeting: no recipient,
  -- sender, body, header or offset of the transaction is left, every other field of the session, the
  -- credential among them, is as it was, and so is the store.
  pub finish_data_resets :
      (m : Moment) (c c' : Conn Db Q) (r : Reply)
      → finish_data env m c ≡ some (c', r)
      → (c'.session ≡ record c.session {
        state = State.welcomed;
        recipients = [];
        mail_from = none;
        body = none;
        client_data_offset = 0;
        headers = none;
      })
        × (c'.db ≡ c.db)
  unfolding finish_data
  finish_data_resets m c c' r e = OnSome_eq (IsReset c) (finish_checked_resets m c _ _ _) e

  -- What the first three checks ask.
  pub record IsAdmissible (c : Conn Db Q) : Type 0 where
    pub fits_size : is_too_large c.session (unwrap_or [] c.session.body) ≡ false
    pub no_loop : received_by_us c.session (unwrap_or [] c.session.headers) ≤ 4
    pub authorised :
        sender_is_valid env c.db (unwrap_or [] c.session.headers) c.session.credential ≡ true

  rejection-none :
      (c : Conn Db Q)
      → rejection env c (unwrap_or [] c.session.body) (unwrap_or [] c.session.headers) ≡ none
      → IsAdmissible c
  unfolding rejection
  rejection-none c h = ground arith

  -- The sink changes only for a message within the size limit, with at most four Received headers of
  -- this host, whose From header the credential of the session may use.
  pub finish_data_gated :
      (m : Moment) (c c' : Conn Db Q) (r : Reply)
      → finish_data env m c ≡ some (c', r)
      → (c'.queue ≡ c.queue) ⊎ IsAdmissible c
  unfolding finish_data finish_checked refuse
  finish_data_gated m c c' r e =
      gate (rejection env c (unwrap_or [] c.session.body) (unwrap_or [] c.session.headers)) refl e
    where
      gate :
          (o : Option Text)
          → rejection env c (unwrap_or [] c.session.body) (unwrap_or [] c.session.headers) ≡ o
          → finish_checked env m c (unwrap_or [] c.session.body) (unwrap_or [] c.session.headers) o
            ≡ some (c', r)
          → (c'.queue ≡ c.queue) ⊎ IsAdmissible c
      gate none q e = inr (rejection-none c q)
      gate (some t) q e = inl (
          OnSome_eq (λ (p : Conn Db Q × Reply). p.0.queue ≡ c.queue) {o = some (refuse t c)}
            {a = (c', r)} refl e)
