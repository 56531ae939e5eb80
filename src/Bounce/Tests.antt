-- ===== src/Bounce/Tests.antt =====
-- Bounces on small inputs.
use camelmailer.Base.{
  ◌≡◌, refl, true, not, none, some, List, [], ◌∷◌, ◌++◌, map, is_some, first?, all, arith,
}
use camelmailer.Text.{Text, Bytes, codes, lf, cr, to_ascii_lowercase}
use camelmailer.Smtp.Hash.{split_inclusive}
use camelmailer.Bounce.{hard, soft, undetermined, classify_response, classify_dsn, line_text}
use camelmailer.Bounce.Laws.{SomeLine, SpeaksFor, classify_dsn_total, classify_dsn-SpeaksFor}
use camelmailer.Bounce.Token.{add_message_token_header, original_message_tokens}
use camelmailer.Bounce.Token.Laws.{token_line, original_message_tokens-add}
use camelmailer.Bounce.Token.Block.{names_token, header_lines, add_message_token_header-only}
use camelmailer.Bounce.Report.{is_failed_delivery_status_notification}

reply_code_is_hard : classify_response (codes "552 or so: 4.2.2, full") ≡ hard
unfolding classify_response
reply_code_is_hard = refl

bracketed_code_is_undetermined : classify_response (codes "mailbox full (4.2.2);") ≡ undetermined
unfolding classify_response
bracketed_code_is_undetermined = refl

-- A decoder for messages that are ASCII.
abbrev ascii_text : Bytes → Text
ascii_text raw = raw

abbrev dsn : Bytes
unfolding codes
dsn = codes "550 people" ++ (lf ∷ codes "Status: 4.2.2")

dsn_is_soft : classify_dsn ascii_text dsn ≡ some soft
unfolding classify_dsn camelmailer.Text.trim_end camelmailer.Text.trim_start
dsn_is_soft = refl

-- A line whose seventh byte is inside a character: the slice of the source panics.
slice_panics : classify_dsn (λ raw. codes "abcdef" ++ (8364 ∷ [])) [] ≡ none
unfolding classify_dsn camelmailer.Text.trim_end camelmailer.Text.trim_start
slice_panics = refl

classify_dsn_total_example : is_some (classify_dsn ascii_text dsn) ≡ true
unfolding dsn
classify_dsn_total_example = classify_dsn_total ascii_text dsn refl

classify_dsn-SpeaksFor_example :
    SomeLine (SpeaksFor soft) (map line_text (split_inclusive (ascii_text dsn)))
classify_dsn-SpeaksFor_example =
    classify_dsn-SpeaksFor ascii_text dsn soft (λ e. absurd (cc)) dsn_is_soft

abbrev outbound : Bytes
unfolding codes
outbound =
    codes "X-Postal-MsgID: forged"
    ++ (cr ∷ lf ∷ (codes "To: a" ++ (cr ∷ lf ∷ cr ∷ lf ∷ codes "X-Postal-MsgID: quoted")))

tokens_of_outbound :
    original_message_tokens (add_message_token_header outbound (codes "abc1"))
    ≡ codes "abc1" ∷ codes "quoted" ∷ []
unfolding original_message_tokens add_message_token_header
tokens_of_outbound = refl

original_message_tokens-add_abc1 :
    first? (original_message_tokens (add_message_token_header outbound (codes "abc1")))
    ≡ some (codes "abc1")
unfolding codes camelmailer.Text.is_ascii_alphanumeric
original_message_tokens-add_abc1 =
    original_message_tokens-add outbound (codes "abc1") refl refl (omega arith)

add_message_token_header-only_abc1 :
    (rest : List Bytes) × (header_lines
        (split_inclusive (add_message_token_header outbound (codes "abc1")))
      ≡ (token_line (codes "abc1") ++ cr ∷ lf ∷ []) ∷ rest)
    × (all (λ l. not (names_token l)) rest ≡ true)
unfolding codes camelmailer.Text.is_ascii_alphanumeric
add_message_token_header-only_abc1 = add_message_token_header-only outbound (codes "abc1") refl

abbrev report : Bytes
unfolding codes
report = codes "Content-Type: message/delivery-status" ++ (lf ∷ lf ∷ codes "Action: failed")

report_is_failed :
    is_failed_delivery_status_notification ascii_text (λ t. map to_ascii_lowercase t) report ≡ true
unfolding is_failed_delivery_status_notification camelmailer.Text.trim_end
    camelmailer.Text.trim_start camelmailer.Message.Headers.parse_headers
report_is_failed = refl
