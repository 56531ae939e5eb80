-- ===== src/Smtp/Trace.antt =====
-- The trace headers that the session puts in front of a message (crates/camelmailer-smtp/src/session.rs,
-- `data_command`) do not take part in the idempotency of a submission.
use camelmailer.Base.{
  ℕ, ◌≡◌, refl, ap, sym, ◌∙◌, true, false, not, Option, none, some, [], ◌∷◌, ◌++◌, append_assoc,
  ◌==◌, is_empty, arith, OnSome,
}
use camelmailer.Text.{Text, Bytes, lf, cr, as_bytes, encode_char, codes, before_first}
use camelmailer.Smtp.Env.{Env}
use camelmailer.Smtp.Hash.{strip_message_header, line_content, is_folded, has_name}
use camelmailer.Smtp.Hash.Laws.{no_lf, strip-other_header, strip_suffix_char_snoc}
use camelmailer.Smtp.Body.{crlf, header_line, spf_lines, trace_lines}
use camelmailer.Smtp.Finish.{idempotency_header}

all-append_true : (xs ys : Bytes) → no_lf xs ≡ true → no_lf ys ≡ true → no_lf (xs ++ ys) ≡ true
all-append_true [] ys h k = k
all-append_true (x ∷ xs) ys h k = ground (arith, all-append_true xs ys)

no_lf-encode_char : (c : ℕ) → not (c == lf) ≡ true → no_lf (encode_char c) ≡ true
unfolding encode_char
no_lf-encode_char c h = ground arith

-- A text without a line feed has none in its bytes.
pub no_lf-as_bytes : (t : Text) → no_lf t ≡ true → no_lf (as_bytes t) ≡ true
unfolding as_bytes
no_lf-as_bytes [] h = refl
no_lf-as_bytes (c ∷ t) h =
    all-append_true (encode_char c) (as_bytes t) (no_lf-encode_char c (ground arith))
      (no_lf-as_bytes t (ground arith))

line_content-crlf : (s : Bytes) → line_content ((s ++ cr ∷ []) ++ lf ∷ []) ≡ s
unfolding line_content
line_content-crlf s =
    rw (strip_suffix_char_snoc lf (s ++ cr ∷ []), strip_suffix_char_snoc cr s) refl

-- The conditions on a line, on its content.
record IsPlain (s : Bytes) : Type 0 where
  one_line : no_lf s ≡ true
  not_empty : is_empty s ≡ false
  not_folded : is_folded s ≡ false
  other_name : has_name idempotency_header s ≡ false

strip-plain :
    (s rest : Bytes)
    → IsPlain s
    → strip_message_header ((s ++ crlf) ++ rest) idempotency_header
      ≡ (s ++ crlf) ++ strip_message_header rest idempotency_header
strip-plain s rest h = rw (← append_assoc s (cr ∷ []) (lf ∷ [])) (
    rw (append_assoc (s ++ cr ∷ []) (lf ∷ []) rest) (
      strip-other_header idempotency_header (s ++ cr ∷ []) rest (record {
        one_line = all-append_true s (cr ∷ []) h.one_line refl;
        not_empty = rw (line_content-crlf s) h.not_empty;
        not_folded = rw (line_content-crlf s) h.not_folded;
        other_name = rw (line_content-crlf s) h.other_name;
      })))

module _ (value : Text) (h : no_lf value ≡ true) where
  received-IsPlain : IsPlain (as_bytes (codes "Received" ++ (codes ": " ++ value)))
  unfolding as_bytes encode_char codes is_folded has_name before_first
  received-IsPlain = record {
    one_line = ground (arith, no_lf-as_bytes value h);
    not_empty = refl;
    not_folded = refl;
    other_name = refl;
  }

  envelope-IsPlain : IsPlain (as_bytes (codes "X-Envelope-From" ++ (codes ": " ++ value)))
  unfolding as_bytes encode_char codes is_folded has_name before_first
  envelope-IsPlain = record {
    one_line = ground (arith, no_lf-as_bytes value h);
    not_empty = refl;
    not_folded = refl;
    other_name = refl;
  }

  spf-IsPlain : IsPlain (as_bytes (codes "Received-SPF" ++ (codes ": " ++ value)))
  unfolding as_bytes encode_char codes is_folded has_name before_first
  spf-IsPlain = record {
    one_line = ground (arith, no_lf-as_bytes value h);
    not_empty = refl;
    not_folded = refl;
    other_name = refl;
  }

-- The three texts of the trace headers are single lines.
abbrev pub IsOneLine : Text → Type 0
IsOneLine t = no_lf t ≡ true

abbrev strip : Bytes → Bytes
strip b = strip_message_header b idempotency_header

-- Bytes in front of a message that the stripping passes over.
abbrev Passes : Bytes → Type 0
Passes a = (rest : Bytes) → strip (a ++ rest) ≡ a ++ strip rest

Passes-append : (a b : Bytes) → Passes a → Passes b → Passes (a ++ b)
Passes-append a b pa pb rest =
    ap strip (append_assoc a b rest)
    ∙ (pa (b ++ rest)
        ∙ (ap (λ (t : Bytes). a ++ t) (pb rest) ∙ sym (append_assoc a b (strip rest))))

line-Passes :
    (name value : Text)
    → IsPlain (as_bytes (name ++ (codes ": " ++ value)))
    → Passes (header_line name value)
unfolding header_line
line-Passes name value h rest = strip-plain _ rest h

spf_lines-Passes : (spf : Option Text) → OnSome IsOneLine spf → Passes (spf_lines spf)
unfolding spf_lines
spf_lines-Passes none h rest = refl
spf_lines-Passes (some verdict) h rest =
    line-Passes (codes "Received-SPF") verdict (spf-IsPlain verdict h) rest

-- Stripping the idempotency header from a stored message strips it from what the client sent, and
-- leaves the trace headers as they are.
pub strip-trace_lines :
    (spf : Option Text) (envelope received : Text) (client : Bytes)
    → OnSome IsOneLine spf
    → IsOneLine envelope
    → IsOneLine received
    → strip_message_header (trace_lines spf envelope received ++ client) idempotency_header
      ≡ trace_lines spf envelope received ++ strip_message_header client idempotency_header
unfolding trace_lines
strip-trace_lines spf envelope received client hs he hr =
    Passes-append (spf_lines spf)
      (header_line (codes "X-Envelope-From") envelope ++ header_line (codes "Received") received)
      (spf_lines-Passes spf hs)
      (Passes-append (header_line (codes "X-Envelope-From") envelope)
        (header_line (codes "Received") received)
        (line-Passes (codes "X-Envelope-From") envelope (envelope-IsPlain envelope he))
        (line-Passes (codes "Received") received (received-IsPlain received hr)))
      client
