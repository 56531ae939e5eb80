-- ===== src/Bounce.antt =====
-- crates/camelmailer-core/src/bounce.rs: what a bounce says. Here the classification of replies and of
-- delivery status notifications.
pub mod Laws
pub mod Token
pub mod Report
mod Tests
use camelmailer.Base.{
  ℕ, Bool, true, false, ◌&&◌, ◌||◌, not, Option, none, some, List, [], ◌∷◌, leb, ◌==◌,
  if◌then◌else◌, is_empty, all, map, unwrap_or,
}
use camelmailer.Text.{
  Text, Bytes, codes, lf, cr, byte_len, is_ascii_digit, split_where, before_first, trim_end_where,
  trim, text_eq, eq_ignore_ascii_case, split_at_byte, strip_suffix_char,
}
use camelmailer.Smtp.Hash.{split_inclusive}
use camelmailer.Spf.Term.{split_whitespace}

pub data BounceCategory : Type 0 where
  hard soft undetermined : BounceCategory

unfoldable pub category_name : BounceCategory → Text
unfolding codes
category_name hard = codes "hard"
category_name soft = codes "soft"
category_name undetermined = codes "undetermined"

-- The class of a leading digit.
code_class : ℕ → Option BounceCategory
code_class c = if c == b'5' then some hard else if c == b'4' then some soft else none

first_class : Text → Option BounceCategory
first_class [] = none
first_class (c ∷ _) = code_class c

unfoldable pub reply_code_class : Text → Option BounceCategory
unfolding first_class code_class before_first byte_len is_ascii_digit
reply_code_class token =
    let digits = before_first b'-' token in
    if byte_len digits == 3 && all is_ascii_digit digits then first_class digits else none

is_numeric : Text → Bool
unfolding byte_len is_ascii_digit
is_numeric s = not (is_empty s) && leb (byte_len s) 3 && all is_ascii_digit s

enhanced_parts : List Text → Option BounceCategory
enhanced_parts (class ∷ subject ∷ detail ∷ []) =
    if is_numeric subject && is_numeric detail
    then (if text_eq class (codes "5")
        then some hard
        else if text_eq class (codes "4")
        then some soft
        else none)
    else none
enhanced_parts _ = none

unfoldable pub enhanced_code_class : Text → Option BounceCategory
unfolding enhanced_parts is_numeric split_where trim_end_where text_eq codes
enhanced_code_class token = enhanced_parts (
    split_where (λ c. c == b'.')
      (trim_end_where (λ c. c == b'.' || c == b',' || c == b';' || c == b')') token))

unfoldable pub classify_tokens : List Text → BounceCategory
unfolding reply_code_class enhanced_code_class
classify_tokens [] = undetermined
classify_tokens (token ∷ tokens) =
    let rest = classify_tokens tokens in
    elim (reply_code_class token) [
      | some category ↦ category
      | none ↦ elim (enhanced_code_class token) [ some category ↦ category | none ↦ rest ]
    ]

unfoldable pub classify_response : Text → BounceCategory
unfolding classify_tokens split_whitespace
classify_response response = classify_tokens (split_whitespace response)

-- What stands behind a prefix, in any case of letters. The outer `none` is the panic of the slice
-- inside a character.
unfoldable pub after_prefix : Text → Text → Option (Option Text)
unfolding byte_len split_at_byte eq_ignore_ascii_case
after_prefix prefix line =
    if leb (byte_len prefix) (byte_len line)
    then elim (split_at_byte line (byte_len prefix)) [
      | none ↦ none
      | some (head, value) ↦ some (if eq_ignore_ascii_case head prefix then some value else none)
    ]
    else some none

unfoldable pub diagnostic_value : Text → Option (Option Text)
unfolding after_prefix codes
diagnostic_value line = elim (after_prefix (codes "Status:") line) [
  | none ↦ none
  | some (some value) ↦ some (some value)
  | some none ↦ after_prefix (codes "Diagnostic-Code:") line
]

-- `category`, unless it is undetermined.
unfoldable pub or_else : BounceCategory → Option BounceCategory → Option BounceCategory
or_else hard rest = some hard
or_else soft rest = some soft
or_else undetermined rest = rest

unfoldable pub classify_lines : List Text → Option BounceCategory
unfolding diagnostic_value classify_response or_else trim
classify_lines [] = some undetermined
classify_lines (line ∷ lines) =
    let rest = classify_lines lines in
    elim (diagnostic_value (trim line)) [
      | none ↦ none
      | some none ↦ rest
      | some (some value) ↦ or_else (classify_response value) rest
    ]

-- A line of `str::lines`: without its line feed, and without the carriage return before that.
unfoldable pub line_text : Text → Text
unfolding strip_suffix_char
line_text line = elim (strip_suffix_char lf line) [
  | none ↦ line
  | some l ↦ unwrap_or l (strip_suffix_char cr l)
]

unfoldable pub classify_dsn : (Bytes → Text) → Bytes → Option BounceCategory
unfolding classify_lines line_text split_inclusive
classify_dsn from_utf8_lossy raw_message =
    classify_lines (map line_text (split_inclusive (from_utf8_lossy raw_message)))
