-- ===== src/Smtp/Drive/Tests.antt =====
-- A whole conversation of a client with a small installation.
use camelmailer.Base.{
  ℕ, ◌≡◌, refl, some, none, false, List, [], ◌∷◌, map, map_option, length, is_some, Yields,
}
use camelmailer.Text.{Text, codes}
use camelmailer.Smtp.Types.{Reply, line, lines, silent, Moment}
use camelmailer.Smtp.Drive.{drive}
use camelmailer.Smtp.Conversation.{IsAnswered, drive_answers}
use camelmailer.Message.Sink.{empty_sink}
use camelmailer.Smtp.Fixture.{small_env, greeted, connected, noon, config_with_tls}

abbrev conversation : List Text
conversation =
    codes "EHLO client\r"
    ∷ codes "MAIL FROM:<a@b.de>\r"
    ∷ codes "RCPT TO:<info@camel.dev>\r"
    ∷ codes "DATA\r"
    ∷ codes "Subject: hi\r"
    ∷ codes "\r"
    ∷ codes "..\r"
    ∷ codes ".\r"
    ∷ codes "QUIT\r"
    ∷ []

abbrev greeting_lines : List (Moment × Text)
greeting_lines = (noon, codes "EHLO client\r") ∷ (noon, codes "QUIT\r") ∷ []

drive_answers_greeting :
    Yields
      (IsAnswered small_env none 2)
      (drive small_env none greeting_lines false (connected greeted))
unfolding codes
drive_answers_greeting =
    drive_answers small_env none config_with_tls (codes "T1") (some (codes "10.0.0.1")) []
      empty_sink greeting_lines (refl, (refl, tt))

-- The replies to it, and the number of messages in the sink at its end.
conversation_replies :
    map_option {B = List Reply × ℕ}
      (λ r. (r.1, length r.0.queue.messages))
      (drive small_env none (map (λ t. (noon, t)) conversation) false (connected greeted))
    ≡ some (
      lines (codes "250-My capabilities are" ∷ codes "250 STARTTLS" ∷ [])
          ∷ line (codes "250 OK")
          ∷ line (codes "250 OK")
          ∷ line (codes "354 Go ahead")
          ∷ silent
          ∷ silent
          ∷ silent
          ∷ line (codes "250 OK")
          ∷ line (codes "221 Closing Connection")
          ∷ [],
      1,
    )
unfolding drive camelmailer.Text.is_whitespace camelmailer.Text.to_ascii_uppercase
    camelmailer.Text.to_ascii_lowercase camelmailer.Text.is_ascii_digit
    camelmailer.Text.is_ascii_alphanumeric camelmailer.Text.text_eq
    camelmailer.Text.eq_ignore_ascii_case camelmailer.Text.trim_start
    camelmailer.Text.trim_end_where camelmailer.Text.trim_end camelmailer.Text.trim
    camelmailer.Text.starts_with camelmailer.Text.strip_prefix camelmailer.Text.strip_suffix_char
    camelmailer.Text.split_once camelmailer.Text.after_last camelmailer.Text.before_first
    camelmailer.Text.before_text camelmailer.Text.contains camelmailer.Text.split_where
    camelmailer.Text.width camelmailer.Text.encode_char camelmailer.Text.as_bytes
    camelmailer.Text.byte_len camelmailer.Text.split_at_byte camelmailer.Text.Format.decimal_fuel
    camelmailer.Text.Format.decimal camelmailer.Text.Format.decimal_i64
    camelmailer.Text.Format.hex_digit camelmailer.Text.Format.hex_of_bytes
    camelmailer.Limit.unlimited camelmailer.Limit.server_allowance
    camelmailer.Limit.organization_allowance camelmailer.Limit.max_zero camelmailer.Limit.remaining
    camelmailer.Limit.stricter camelmailer.Limit.error_code camelmailer.Limit.allows
    camelmailer.Limit.rejection_message camelmailer.Message.Sink.empty_sink
    camelmailer.Message.Sink.has_key camelmailer.Message.Sink.cache_get
    camelmailer.Message.Sink.cache_remove camelmailer.Message.Sink.queue_message
    camelmailer.Message.Sink.cache_server camelmailer.Message.Sink.outgoing_count
    camelmailer.Message.Sink.cached_outcome camelmailer.Message.Sink.cache_lookup
    camelmailer.Message.Sink.cache_store camelmailer.Message.Sink.store_fresh
    camelmailer.Message.Sink.answered camelmailer.Message.Sink.queue_messages
    camelmailer.Smtp.Address.strip_prefix_ci camelmailer.Smtp.Address.bare_address
    camelmailer.Smtp.Address.extract_address camelmailer.Smtp.Address.split_header
    camelmailer.Smtp.Address.is_valid_label camelmailer.Smtp.Address.is_valid_domain
    camelmailer.Smtp.Address.normalize_dns_domain_name camelmailer.Smtp.Received.method_name
    camelmailer.Smtp.Received.generate camelmailer.Smtp.Basic.reply camelmailer.Smtp.Basic.new
    camelmailer.Smtp.Basic.banner camelmailer.Smtp.Basic.transaction_reset
    camelmailer.Smtp.Basic.back_to_welcomed camelmailer.Smtp.Basic.auth_permitted
    camelmailer.Smtp.Basic.proxy_address camelmailer.Smtp.Basic.proxy camelmailer.Smtp.Basic.quit
    camelmailer.Smtp.Basic.starttls camelmailer.Smtp.Basic.helo_argument
    camelmailer.Smtp.Basic.frame_lines camelmailer.Smtp.Basic.capabilities
    camelmailer.Smtp.Basic.ehlo camelmailer.Smtp.Basic.helo camelmailer.Smtp.Basic.rset
    camelmailer.Smtp.Basic.noop camelmailer.Smtp.Basic.on_session
    camelmailer.Smtp.Auth.is_base64_char camelmailer.Smtp.Auth.decode64_lenient
    camelmailer.Smtp.Auth.mechanism_argument camelmailer.Smtp.Auth.halves
    camelmailer.Smtp.Auth.grant_message camelmailer.Smtp.Auth.granted
    camelmailer.Smtp.Auth.authenticate camelmailer.Smtp.Auth.set_mode
    camelmailer.Smtp.Auth.auth_plain_continue camelmailer.Smtp.Auth.auth_plain
    camelmailer.Smtp.Auth.auth_login_username camelmailer.Smtp.Auth.auth_login
    camelmailer.Smtp.Auth.auth_login_password camelmailer.Smtp.Auth.auth_cram_md5
    camelmailer.Smtp.Auth.cram_response camelmailer.Smtp.Auth.try_credentials
    camelmailer.Smtp.Auth.cram_server camelmailer.Smtp.Auth.auth_cram_md5_continue
    camelmailer.Smtp.Envelope.without_auth_parameter camelmailer.Smtp.Envelope.mail_from_command
    camelmailer.Smtp.Envelope.parse_rcpt camelmailer.Smtp.Envelope.is_return_path
    camelmailer.Smtp.Envelope.add_recipient camelmailer.Smtp.Envelope.accept_recipient
    camelmailer.Smtp.Envelope.rcpt_return_path camelmailer.Smtp.Envelope.rcpt_route
    camelmailer.Smtp.Envelope.route_address camelmailer.Smtp.Envelope.rcpt_route_token
    camelmailer.Smtp.Envelope.rcpt_outgoing camelmailer.Smtp.Envelope.in_rcpt
    camelmailer.Smtp.Envelope.rcpt_by_ip camelmailer.Smtp.Envelope.rcpt_unauthenticated
    camelmailer.Smtp.Envelope.rcpt_by_credential camelmailer.Smtp.Envelope.rcpt_dispatch
    camelmailer.Smtp.Envelope.rcpt_parsed camelmailer.Smtp.Envelope.rcpt_address
    camelmailer.Smtp.Envelope.rcpt_to_fuel camelmailer.Smtp.Envelope.rcpt_to
    camelmailer.Smtp.Body.header_get camelmailer.Smtp.Body.header_insert
    camelmailer.Smtp.Body.header_push camelmailer.Smtp.Body.extend_last
    camelmailer.Smtp.Body.header_extend camelmailer.Smtp.Body.header_line
    camelmailer.Smtp.Body.envelope_header camelmailer.Smtp.Body.spf_lines
    camelmailer.Smtp.Body.spf_headers camelmailer.Smtp.Body.trace_lines
    camelmailer.Smtp.Body.trace_headers camelmailer.Smtp.Body.received_header
    camelmailer.Smtp.Body.data_command camelmailer.Smtp.Body.is_end_of_data
    camelmailer.Smtp.Body.unstuff camelmailer.Smtp.Body.header_step camelmailer.Smtp.Body.keep_line
    camelmailer.Smtp.Body.message_line camelmailer.Smtp.Finish.max_bytes
    camelmailer.Smtp.Finish.is_too_large camelmailer.Smtp.Finish.received_by_us
    camelmailer.Smtp.Finish.is_valid_key camelmailer.Smtp.Finish.all_credential
    camelmailer.Smtp.Finish.check_key camelmailer.Smtp.Finish.queued
    camelmailer.Smtp.Finish.outcome_reply camelmailer.Smtp.Finish.refuse
    camelmailer.Smtp.Finish.find_authenticated_domain
    camelmailer.Smtp.Finish.confirmed_sender_address_in_from
    camelmailer.Smtp.Finish.authenticated_domain camelmailer.Smtp.Finish.sender_is_valid
    camelmailer.Smtp.Finish.message_for camelmailer.Smtp.Finish.messages_for
    camelmailer.Smtp.Finish.server_limit camelmailer.Smtp.Finish.organization_limit
    camelmailer.Smtp.Finish.allowance_of camelmailer.Smtp.Finish.allowance
    camelmailer.Smtp.Finish.queue_each camelmailer.Smtp.Finish.hand_over
    camelmailer.Smtp.Finish.request_of camelmailer.Smtp.Finish.store_messages
    camelmailer.Smtp.Finish.accept_message camelmailer.Smtp.Finish.with_key
    camelmailer.Smtp.Finish.rejection camelmailer.Smtp.Finish.finish_checked
    camelmailer.Smtp.Finish.finish_data camelmailer.Smtp.Handle.auth_verb
    camelmailer.Smtp.Handle.verb_of_upper camelmailer.Smtp.Handle.verb_of
    camelmailer.Smtp.Handle.on_mail camelmailer.Smtp.Handle.run_verb
    camelmailer.Smtp.Handle.guard_auth camelmailer.Smtp.Handle.handle_command
    camelmailer.Smtp.Handle.data_line camelmailer.Smtp.Handle.run_mode
    camelmailer.Smtp.Handle.run_line camelmailer.Smtp.Handle.set_cr
    camelmailer.Smtp.Handle.remember_cr camelmailer.Smtp.Handle.handle_stripped
    camelmailer.Smtp.Handle.handle camelmailer.Smtp.Drive.is_data_command
    camelmailer.Smtp.Drive.sender_domain camelmailer.Smtp.Drive.inbound_spf
    camelmailer.Smtp.Drive.evaluate_inbound_spf camelmailer.Smtp.Drive.before_line
    camelmailer.Smtp.Drive.next_of camelmailer.Smtp.Drive.asks_data
    camelmailer.Smtp.Drive.drive_line codes
conversation_replies = refl

-- A MAIL FROM behind five no-break spaces is taken for the command, and its slice ends inside the
-- fifth: the line panics.
abbrev padded_mail_from : List Text
padded_mail_from =
    codes "EHLO client\r" ∷ (0xa0 ∷ 0xa0 ∷ 0xa0 ∷ 0xa0 ∷ 0xa0 ∷ codes "MAIL FROM:<a@b.de>\r") ∷ []

padded_mail_from_panics :
    is_some (drive small_env none (map (λ t. (noon, t)) padded_mail_from) false (connected greeted))
    ≡ false
unfolding drive camelmailer.Text.is_whitespace camelmailer.Text.to_ascii_uppercase
    camelmailer.Text.to_ascii_lowercase camelmailer.Text.is_ascii_digit
    camelmailer.Text.is_ascii_alphanumeric camelmailer.Text.text_eq
    camelmailer.Text.eq_ignore_ascii_case camelmailer.Text.trim_start
    camelmailer.Text.trim_end_where camelmailer.Text.trim_end camelmailer.Text.trim
    camelmailer.Text.starts_with camelmailer.Text.strip_prefix camelmailer.Text.strip_suffix_char
    camelmailer.Text.split_once camelmailer.Text.after_last camelmailer.Text.before_first
    camelmailer.Text.before_text camelmailer.Text.contains camelmailer.Text.split_where
    camelmailer.Text.width camelmailer.Text.encode_char camelmailer.Text.as_bytes
    camelmailer.Text.byte_len camelmailer.Text.split_at_byte camelmailer.Text.Format.decimal_fuel
    camelmailer.Text.Format.decimal camelmailer.Text.Format.decimal_i64
    camelmailer.Text.Format.hex_digit camelmailer.Text.Format.hex_of_bytes
    camelmailer.Limit.unlimited camelmailer.Limit.server_allowance
    camelmailer.Limit.organization_allowance camelmailer.Limit.max_zero camelmailer.Limit.remaining
    camelmailer.Limit.stricter camelmailer.Limit.error_code camelmailer.Limit.allows
    camelmailer.Limit.rejection_message camelmailer.Message.Sink.empty_sink
    camelmailer.Message.Sink.has_key camelmailer.Message.Sink.cache_get
    camelmailer.Message.Sink.cache_remove camelmailer.Message.Sink.queue_message
    camelmailer.Message.Sink.cache_server camelmailer.Message.Sink.outgoing_count
    camelmailer.Message.Sink.cached_outcome camelmailer.Message.Sink.cache_lookup
    camelmailer.Message.Sink.cache_store camelmailer.Message.Sink.store_fresh
    camelmailer.Message.Sink.answered camelmailer.Message.Sink.queue_messages
    camelmailer.Smtp.Address.strip_prefix_ci camelmailer.Smtp.Address.bare_address
    camelmailer.Smtp.Address.extract_address camelmailer.Smtp.Address.split_header
    camelmailer.Smtp.Address.is_valid_label camelmailer.Smtp.Address.is_valid_domain
    camelmailer.Smtp.Address.normalize_dns_domain_name camelmailer.Smtp.Received.method_name
    camelmailer.Smtp.Received.generate camelmailer.Smtp.Basic.reply camelmailer.Smtp.Basic.new
    camelmailer.Smtp.Basic.banner camelmailer.Smtp.Basic.transaction_reset
    camelmailer.Smtp.Basic.back_to_welcomed camelmailer.Smtp.Basic.auth_permitted
    camelmailer.Smtp.Basic.proxy_address camelmailer.Smtp.Basic.proxy camelmailer.Smtp.Basic.quit
    camelmailer.Smtp.Basic.starttls camelmailer.Smtp.Basic.helo_argument
    camelmailer.Smtp.Basic.frame_lines camelmailer.Smtp.Basic.capabilities
    camelmailer.Smtp.Basic.ehlo camelmailer.Smtp.Basic.helo camelmailer.Smtp.Basic.rset
    camelmailer.Smtp.Basic.noop camelmailer.Smtp.Basic.on_session
    camelmailer.Smtp.Auth.is_base64_char camelmailer.Smtp.Auth.decode64_lenient
    camelmailer.Smtp.Auth.mechanism_argument camelmailer.Smtp.Auth.halves
    camelmailer.Smtp.Auth.grant_message camelmailer.Smtp.Auth.granted
    camelmailer.Smtp.Auth.authenticate camelmailer.Smtp.Auth.set_mode
    camelmailer.Smtp.Auth.auth_plain_continue camelmailer.Smtp.Auth.auth_plain
    camelmailer.Smtp.Auth.auth_login_username camelmailer.Smtp.Auth.auth_login
    camelmailer.Smtp.Auth.auth_login_password camelmailer.Smtp.Auth.auth_cram_md5
    camelmailer.Smtp.Auth.cram_response camelmailer.Smtp.Auth.try_credentials
    camelmailer.Smtp.Auth.cram_server camelmailer.Smtp.Auth.auth_cram_md5_continue
    camelmailer.Smtp.Envelope.without_auth_parameter camelmailer.Smtp.Envelope.mail_from_command
    camelmailer.Smtp.Envelope.parse_rcpt camelmailer.Smtp.Envelope.is_return_path
    camelmailer.Smtp.Envelope.add_recipient camelmailer.Smtp.Envelope.accept_recipient
    camelmailer.Smtp.Envelope.rcpt_return_path camelmailer.Smtp.Envelope.rcpt_route
    camelmailer.Smtp.Envelope.route_address camelmailer.Smtp.Envelope.rcpt_route_token
    camelmailer.Smtp.Envelope.rcpt_outgoing camelmailer.Smtp.Envelope.in_rcpt
    camelmailer.Smtp.Envelope.rcpt_by_ip camelmailer.Smtp.Envelope.rcpt_unauthenticated
    camelmailer.Smtp.Envelope.rcpt_by_credential camelmailer.Smtp.Envelope.rcpt_dispatch
    camelmailer.Smtp.Envelope.rcpt_parsed camelmailer.Smtp.Envelope.rcpt_address
    camelmailer.Smtp.Envelope.rcpt_to_fuel camelmailer.Smtp.Envelope.rcpt_to
    camelmailer.Smtp.Body.header_get camelmailer.Smtp.Body.header_insert
    camelmailer.Smtp.Body.header_push camelmailer.Smtp.Body.extend_last
    camelmailer.Smtp.Body.header_extend camelmailer.Smtp.Body.header_line
    camelmailer.Smtp.Body.envelope_header camelmailer.Smtp.Body.spf_lines
    camelmailer.Smtp.Body.spf_headers camelmailer.Smtp.Body.trace_lines
    camelmailer.Smtp.Body.trace_headers camelmailer.Smtp.Body.received_header
    camelmailer.Smtp.Body.data_command camelmailer.Smtp.Body.is_end_of_data
    camelmailer.Smtp.Body.unstuff camelmailer.Smtp.Body.header_step camelmailer.Smtp.Body.keep_line
    camelmailer.Smtp.Body.message_line camelmailer.Smtp.Finish.max_bytes
    camelmailer.Smtp.Finish.is_too_large camelmailer.Smtp.Finish.received_by_us
    camelmailer.Smtp.Finish.is_valid_key camelmailer.Smtp.Finish.all_credential
    camelmailer.Smtp.Finish.check_key camelmailer.Smtp.Finish.queued
    camelmailer.Smtp.Finish.outcome_reply camelmailer.Smtp.Finish.refuse
    camelmailer.Smtp.Finish.find_authenticated_domain
    camelmailer.Smtp.Finish.confirmed_sender_address_in_from
    camelmailer.Smtp.Finish.authenticated_domain camelmailer.Smtp.Finish.sender_is_valid
    camelmailer.Smtp.Finish.message_for camelmailer.Smtp.Finish.messages_for
    camelmailer.Smtp.Finish.server_limit camelmailer.Smtp.Finish.organization_limit
    camelmailer.Smtp.Finish.allowance_of camelmailer.Smtp.Finish.allowance
    camelmailer.Smtp.Finish.queue_each camelmailer.Smtp.Finish.hand_over
    camelmailer.Smtp.Finish.request_of camelmailer.Smtp.Finish.store_messages
    camelmailer.Smtp.Finish.accept_message camelmailer.Smtp.Finish.with_key
    camelmailer.Smtp.Finish.rejection camelmailer.Smtp.Finish.finish_checked
    camelmailer.Smtp.Finish.finish_data camelmailer.Smtp.Handle.auth_verb
    camelmailer.Smtp.Handle.verb_of_upper camelmailer.Smtp.Handle.verb_of
    camelmailer.Smtp.Handle.on_mail camelmailer.Smtp.Handle.run_verb
    camelmailer.Smtp.Handle.guard_auth camelmailer.Smtp.Handle.handle_command
    camelmailer.Smtp.Handle.data_line camelmailer.Smtp.Handle.run_mode
    camelmailer.Smtp.Handle.run_line camelmailer.Smtp.Handle.set_cr
    camelmailer.Smtp.Handle.remember_cr camelmailer.Smtp.Handle.handle_stripped
    camelmailer.Smtp.Handle.handle camelmailer.Smtp.Drive.is_data_command
    camelmailer.Smtp.Drive.sender_domain camelmailer.Smtp.Drive.inbound_spf
    camelmailer.Smtp.Drive.evaluate_inbound_spf camelmailer.Smtp.Drive.before_line
    camelmailer.Smtp.Drive.next_of camelmailer.Smtp.Drive.asks_data
    camelmailer.Smtp.Drive.drive_line codes
padded_mail_from_panics = refl

-- The check of the first transaction's sender.
abbrev sender_of_verdict : Text → Text → Text → Text → Text
sender_of_verdict domain ip from helo = from

abbrev two_transactions : List Text
two_transactions =
    codes "EHLO client\r"
    ∷ codes "MAIL FROM:<first@b.de>\r"
    ∷ codes "RCPT TO:<info@camel.dev>\r"
    ∷ codes "DATA\r"
    ∷ codes "\r"
    ∷ codes ".\r"
    ∷ codes "MAIL FROM:<second@c.de>\r"
    ∷ codes "RCPT TO:<info@camel.dev>\r"
    ∷ codes "DATA\r"
    ∷ []

-- In the second transaction of a connection the verdict is still that of the first.
second_transaction_verdict :
    map_option
      (λ r. r.0.session.received_spf)
      (drive small_env
        (some sender_of_verdict)
        (map (λ t. (noon, t)) two_transactions)
        false
        (connected greeted))
    ≡ some (some (codes "first@b.de"))
unfolding drive camelmailer.Text.is_whitespace camelmailer.Text.to_ascii_uppercase
    camelmailer.Text.to_ascii_lowercase camelmailer.Text.is_ascii_digit
    camelmailer.Text.is_ascii_alphanumeric camelmailer.Text.text_eq
    camelmailer.Text.eq_ignore_ascii_case camelmailer.Text.trim_start
    camelmailer.Text.trim_end_where camelmailer.Text.trim_end camelmailer.Text.trim
    camelmailer.Text.starts_with camelmailer.Text.strip_prefix camelmailer.Text.strip_suffix_char
    camelmailer.Text.split_once camelmailer.Text.after_last camelmailer.Text.before_first
    camelmailer.Text.before_text camelmailer.Text.contains camelmailer.Text.split_where
    camelmailer.Text.width camelmailer.Text.encode_char camelmailer.Text.as_bytes
    camelmailer.Text.byte_len camelmailer.Text.split_at_byte camelmailer.Text.Format.decimal_fuel
    camelmailer.Text.Format.decimal camelmailer.Text.Format.decimal_i64
    camelmailer.Text.Format.hex_digit camelmailer.Text.Format.hex_of_bytes
    camelmailer.Limit.unlimited camelmailer.Limit.server_allowance
    camelmailer.Limit.organization_allowance camelmailer.Limit.max_zero camelmailer.Limit.remaining
    camelmailer.Limit.stricter camelmailer.Limit.error_code camelmailer.Limit.allows
    camelmailer.Limit.rejection_message camelmailer.Message.Sink.empty_sink
    camelmailer.Message.Sink.has_key camelmailer.Message.Sink.cache_get
    camelmailer.Message.Sink.cache_remove camelmailer.Message.Sink.queue_message
    camelmailer.Message.Sink.cache_server camelmailer.Message.Sink.outgoing_count
    camelmailer.Message.Sink.cached_outcome camelmailer.Message.Sink.cache_lookup
    camelmailer.Message.Sink.cache_store camelmailer.Message.Sink.store_fresh
    camelmailer.Message.Sink.answered camelmailer.Message.Sink.queue_messages
    camelmailer.Smtp.Address.strip_prefix_ci camelmailer.Smtp.Address.bare_address
    camelmailer.Smtp.Address.extract_address camelmailer.Smtp.Address.split_header
    camelmailer.Smtp.Address.is_valid_label camelmailer.Smtp.Address.is_valid_domain
    camelmailer.Smtp.Address.normalize_dns_domain_name camelmailer.Smtp.Received.method_name
    camelmailer.Smtp.Received.generate camelmailer.Smtp.Basic.reply camelmailer.Smtp.Basic.new
    camelmailer.Smtp.Basic.banner camelmailer.Smtp.Basic.transaction_reset
    camelmailer.Smtp.Basic.back_to_welcomed camelmailer.Smtp.Basic.auth_permitted
    camelmailer.Smtp.Basic.proxy_address camelmailer.Smtp.Basic.proxy camelmailer.Smtp.Basic.quit
    camelmailer.Smtp.Basic.starttls camelmailer.Smtp.Basic.helo_argument
    camelmailer.Smtp.Basic.frame_lines camelmailer.Smtp.Basic.capabilities
    camelmailer.Smtp.Basic.ehlo camelmailer.Smtp.Basic.helo camelmailer.Smtp.Basic.rset
    camelmailer.Smtp.Basic.noop camelmailer.Smtp.Basic.on_session
    camelmailer.Smtp.Auth.is_base64_char camelmailer.Smtp.Auth.decode64_lenient
    camelmailer.Smtp.Auth.mechanism_argument camelmailer.Smtp.Auth.halves
    camelmailer.Smtp.Auth.grant_message camelmailer.Smtp.Auth.granted
    camelmailer.Smtp.Auth.authenticate camelmailer.Smtp.Auth.set_mode
    camelmailer.Smtp.Auth.auth_plain_continue camelmailer.Smtp.Auth.auth_plain
    camelmailer.Smtp.Auth.auth_login_username camelmailer.Smtp.Auth.auth_login
    camelmailer.Smtp.Auth.auth_login_password camelmailer.Smtp.Auth.auth_cram_md5
    camelmailer.Smtp.Auth.cram_response camelmailer.Smtp.Auth.try_credentials
    camelmailer.Smtp.Auth.cram_server camelmailer.Smtp.Auth.auth_cram_md5_continue
    camelmailer.Smtp.Envelope.without_auth_parameter camelmailer.Smtp.Envelope.mail_from_command
    camelmailer.Smtp.Envelope.parse_rcpt camelmailer.Smtp.Envelope.is_return_path
    camelmailer.Smtp.Envelope.add_recipient camelmailer.Smtp.Envelope.accept_recipient
    camelmailer.Smtp.Envelope.rcpt_return_path camelmailer.Smtp.Envelope.rcpt_route
    camelmailer.Smtp.Envelope.route_address camelmailer.Smtp.Envelope.rcpt_route_token
    camelmailer.Smtp.Envelope.rcpt_outgoing camelmailer.Smtp.Envelope.in_rcpt
    camelmailer.Smtp.Envelope.rcpt_by_ip camelmailer.Smtp.Envelope.rcpt_unauthenticated
    camelmailer.Smtp.Envelope.rcpt_by_credential camelmailer.Smtp.Envelope.rcpt_dispatch
    camelmailer.Smtp.Envelope.rcpt_parsed camelmailer.Smtp.Envelope.rcpt_address
    camelmailer.Smtp.Envelope.rcpt_to_fuel camelmailer.Smtp.Envelope.rcpt_to
    camelmailer.Smtp.Body.header_get camelmailer.Smtp.Body.header_insert
    camelmailer.Smtp.Body.header_push camelmailer.Smtp.Body.extend_last
    camelmailer.Smtp.Body.header_extend camelmailer.Smtp.Body.header_line
    camelmailer.Smtp.Body.envelope_header camelmailer.Smtp.Body.spf_lines
    camelmailer.Smtp.Body.spf_headers camelmailer.Smtp.Body.trace_lines
    camelmailer.Smtp.Body.trace_headers camelmailer.Smtp.Body.received_header
    camelmailer.Smtp.Body.data_command camelmailer.Smtp.Body.is_end_of_data
    camelmailer.Smtp.Body.unstuff camelmailer.Smtp.Body.header_step camelmailer.Smtp.Body.keep_line
    camelmailer.Smtp.Body.message_line camelmailer.Smtp.Finish.max_bytes
    camelmailer.Smtp.Finish.is_too_large camelmailer.Smtp.Finish.received_by_us
    camelmailer.Smtp.Finish.is_valid_key camelmailer.Smtp.Finish.all_credential
    camelmailer.Smtp.Finish.check_key camelmailer.Smtp.Finish.queued
    camelmailer.Smtp.Finish.outcome_reply camelmailer.Smtp.Finish.refuse
    camelmailer.Smtp.Finish.find_authenticated_domain
    camelmailer.Smtp.Finish.confirmed_sender_address_in_from
    camelmailer.Smtp.Finish.authenticated_domain camelmailer.Smtp.Finish.sender_is_valid
    camelmailer.Smtp.Finish.message_for camelmailer.Smtp.Finish.messages_for
    camelmailer.Smtp.Finish.server_limit camelmailer.Smtp.Finish.organization_limit
    camelmailer.Smtp.Finish.allowance_of camelmailer.Smtp.Finish.allowance
    camelmailer.Smtp.Finish.queue_each camelmailer.Smtp.Finish.hand_over
    camelmailer.Smtp.Finish.request_of camelmailer.Smtp.Finish.store_messages
    camelmailer.Smtp.Finish.accept_message camelmailer.Smtp.Finish.with_key
    camelmailer.Smtp.Finish.rejection camelmailer.Smtp.Finish.finish_checked
    camelmailer.Smtp.Finish.finish_data camelmailer.Smtp.Handle.auth_verb
    camelmailer.Smtp.Handle.verb_of_upper camelmailer.Smtp.Handle.verb_of
    camelmailer.Smtp.Handle.on_mail camelmailer.Smtp.Handle.run_verb
    camelmailer.Smtp.Handle.guard_auth camelmailer.Smtp.Handle.handle_command
    camelmailer.Smtp.Handle.data_line camelmailer.Smtp.Handle.run_mode
    camelmailer.Smtp.Handle.run_line camelmailer.Smtp.Handle.set_cr
    camelmailer.Smtp.Handle.remember_cr camelmailer.Smtp.Handle.handle_stripped
    camelmailer.Smtp.Handle.handle camelmailer.Smtp.Drive.is_data_command
    camelmailer.Smtp.Drive.sender_domain camelmailer.Smtp.Drive.inbound_spf
    camelmailer.Smtp.Drive.evaluate_inbound_spf camelmailer.Smtp.Drive.before_line
    camelmailer.Smtp.Drive.next_of camelmailer.Smtp.Drive.asks_data
    camelmailer.Smtp.Drive.drive_line codes
second_transaction_verdict = refl
