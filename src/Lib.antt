-- ===== src/Lib.antt =====
-- Verification library of Camelmailer, a mail server in Rust.
--
-- The library models the SMTP side of the program, the path of a message from a client's lines to
-- the message sink, and the parts around it: SPF, bounces, templates, retention and the
-- outbound guard:
--
--   * crates/camelmailer-smtp/src/session.rs, the session state machine. `Smtp.Types` has its types
--     (`Session`, `State`, `InputMode`, `Recipient`, `Reply`), `Smtp.Basic` `new`, `banner`,
--     `transaction_reset` and PROXY, QUIT, STARTTLS, EHLO, HELO, RSET and NOOP, `Smtp.Auth` the AUTH
--     exchanges, `Smtp.Envelope` MAIL FROM and RCPT TO, `Smtp.Body` DATA and the lines of a message,
--     `Smtp.Finish` the end of DATA (`finish_data`), `Smtp.Handle` `handle_command`, `data_line` and
--     `handle`, `Smtp.Address` and `Smtp.Hash` the free functions.
--   * crates/camelmailer-smtp/src/server.rs, `drive_session` with its SPF check: `Smtp.Drive`, and
--     `Smtp.Conversation` on whole conversations.
--   * crates/camelmailer-core/src/message.rs, the queued message, `parse_headers` and `MemorySink`:
--     `Message`, `Message.Headers` and `Message.Sink`.
--   * crates/camelmailer-core/src/retention.rs, the retention periods: `Retention`.
--   * crates/camelmailer-core/src/send_limit.rs, `SendAllowance`: `Limit`.
--   * crates/camelmailer-core/src/received_header.rs and hashing.rs: `Smtp.Received`, `Smtp.Hash`.
--   * crates/camelmailer-core/src/model.rs, and the records of quota.rs and server_store.rs that the
--     session uses: `Model`, `Message`.
--   * crates/camelmailer-config/src/lib.rs, `normalize_dns_domain_name`: `Smtp.Address`.
--   * crates/camelmailer-core/src/spf.rs, the SPF evaluator: `Spf.Term` reads records and terms,
--     `Spf.Eval` walks them (`check_host`) with the budget of lookups, `Spf.Header` prints the verdict.
--   * crates/camelmailer-core/src/template.rs, message templates: `Template.Parse` and `Template.Render`.
--   * crates/camelmailer-worker/src/ssrf.rs, the guard on outbound requests: `Ssrf` and `Ssrf.Guard`.
--   * crates/camelmailer-core/src/bounce.rs: `Bounce` classifies, `Bounce.Report` recognises delivery
--     status notifications, `Bounce.Token` has the correlation header.
--   * crates/camelmailer-core/src/dmarc.rs, the analysis of DNS records: `Dmarc`.
--   * crates/camelmailer-core/src/store.rs, the in-memory store: `Memory` has its state, `Memory.Lookup`
--     the lookups of a session, `Memory.Count` the counters and usage alerts, `Memory.Send` the storing of
--     planned sends with the requeueing of outbound messages, `Memory.Inbound` that of incoming ones,
--     and `Memory.Instance` makes it the store of a session.
--   * crates/camelmailer-core/src/quota.rs, the monthly limit's thresholds: `Quota`, and the text of
--     a month: `Quota.Month`.
--   * crates/camelmailer-db/src/queue.rs, the turns of the servers in `dequeue`: `Queue`.
--   * crates/camelmailer-worker/src/dkim.rs, the DKIM signature: `Dkim`.
--
-- `Base` and `Text` are shared: Boolean tests, lists and signed integers over the native numbers, and
-- the functions of Rust's `str` that the code calls.
--
-- How the parts meet. A session reads the installation through the trait `Store` and hands messages
-- to the trait `MessageSink`. Both are records of functions (`Smtp.Env`) on a state of their own, and
-- every theorem about the session holds for all of them. `Conn` is a session with these two states:
-- an operation takes it and returns it with the reply, so that the effects on the store (a
-- credential's use) and on the sink are values. `Message.Sink` is one implementation of the sink
-- and `Memory.Instance` one of the store: `Memory.Gate` puts the end of DATA on top of it.
-- The functions of other crates (base64, idna, HMAC-MD5, SHA-256, the date format) and of Rust's
-- Unicode tables are the record `Crates`; clock, wall clock and randomness are the argument `Moment`.
-- The other parts take what they call in the same way: `SpfResolver` is DNS and `Nets` the arithmetic of
-- networks, `Ssrf.Guard.Network` the parsers and DNS of the guard, and the decoding of bytes and the
-- lower case of Unicode are arguments of `Bounce` and `Message.Headers`.
--
-- Text is a list of code points, and its bytes are their UTF-8 encoding. Where the source slices a
-- string at a byte, or unwraps, the model returns `none` for its panic. An `i64` keeps its
-- wrap-around; an `Id` and a length are numbers, but a message's id is the `i64` of a counter that wraps
-- at 2 ^ 64. RCPT TO calls itself after it has authenticated a
-- client by its address: the model has two rounds of fuel, which is enough, since the second call
-- finds a credential. The walk over SPF records has one round for each lookup of the budget, and the
-- template parser one for each character. All calls of one step of the in-memory store read
-- one clock. `Smtp.Drive.Tests` runs whole conversations.
--
-- Not modelled: sockets, TLS and the accept loop, logging, the getters of the session, the HTTP API,
-- the PostgreSQL stores, the read models of the in-memory store (its templates, streams, shares and
-- logs), most of the delivery worker, DMARC reports, and the web application. They are input and
-- output, calls of libraries, or parts to be added.
pub mod Base
pub mod Text
pub mod Limit
pub mod Model
pub mod Message
pub mod Memory
pub mod Smtp
pub mod Retention
pub mod Spf
pub mod Template
pub mod Ssrf
pub mod Bounce
pub mod Dmarc
pub mod Quota
pub mod Queue
pub mod Dkim
