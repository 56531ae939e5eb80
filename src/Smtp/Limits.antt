-- ===== src/Smtp/Limits.antt =====
-- The sending limits at the end of DATA (crates/camelmailer-smtp/src/session.rs, `finish_data`), for a
-- message without an idempotency key, which the session counts itself.
use camelmailer.Base.{◌≡◌, ◌≢◌, ◌⊎◌, true, Option, some, List, [], unwrap_or, pos}
use camelmailer.Text.{Text, codes}
use camelmailer.Model.{Server}
use camelmailer.Limit.{allows}
use camelmailer.Message.{QueuedMessage}
use camelmailer.Message.Sink.{outgoing_count}
use camelmailer.Smtp.Types.{Conn, Reply, line}
use camelmailer.Smtp.Env.{Env}
use camelmailer.Smtp.Finish.{
  messages_for, server_limit, organization_limit, queue_each, authenticated_domain,
}

abbrev accepted : Reply
accepted = line (codes "250 OK")

module _ {Db Q : Type 0} (env : Env Db Q) where
  -- The messages of the session's recipients.
  abbrev pub messages_of : Conn Db Q → Option (List QueuedMessage)
  messages_of c =
      messages_for env c.db c.session (unwrap_or [] c.session.mail_from)
        (unwrap_or [] c.session.body)
        (authenticated_domain env c.db (unwrap_or [] c.session.headers) c.session.credential)
        c.session.recipients

  -- What the reply says of the queue: 250 OK, and every message was queued, in order, and both limits
  -- admit as many outgoing ones; or something else, and none was.
  abbrev pub IsAnswered : Server → Conn Db Q → Conn Db Q × Reply → Type 0
  IsAnswered srv c (c', r) =
      ((r ≢ line (codes "250 OK")) × (c'.queue ≡ c.queue))
      ⊎ ((r ≡ line (codes "250 OK"))
          × ((ms : List QueuedMessage) × (messages_of c ≡ some ms)
              × (c'.queue ≡ queue_each env ms c.queue)
              × (allows (server_limit env c.db srv) (pos (outgoing_count ms)) ≡ true)
              × (allows (organization_limit env c.db srv) (pos (outgoing_count ms)) ≡ true)))
