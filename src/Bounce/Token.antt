-- ===== src/Bounce/Token.antt =====
-- The correlation header of outbound messages, and its tokens in a returned message
-- (crates/camelmailer-core/src/bounce.rs).
pub mod Laws
pub mod Block
use camelmailer.Base.{
  ℕ, Bool, true, false, ◌&&◌, ◌||◌, Option, none, some, List, [], ◌∷◌, ◌++◌, ltb, ◌==◌,
  if◌then◌else◌, is_empty, length, unwrap_or, any,
}
use camelmailer.Text.{
  Text, Bytes, codes, lf, cr, as_bytes, is_ascii_alphanumeric, split_where, split_once,
  before_first, trim_start_where, trim_end_where, text_eq, eq_ignore_ascii_case, strip_suffix_char,
}
use camelmailer.Smtp.Hash.{split_inclusive}

unfoldable pub message_token_header : Text
unfolding codes
message_token_header = codes "X-CamelMailer-MsgID"

unfoldable pub postal_message_token_header : Text
unfolding codes
postal_message_token_header = codes "X-Postal-MsgID"

unfoldable pub is_message_token_header : Bytes → Bool
unfolding message_token_header postal_message_token_header eq_ignore_ascii_case
is_message_token_header name =
    eq_ignore_ascii_case name message_token_header
    || eq_ignore_ascii_case name postal_message_token_header

-- `u8::is_ascii_whitespace`
unfoldable pub is_ascii_whitespace : ℕ → Bool
is_ascii_whitespace b = b == b' ' || b == 9 || b == lf || b == 12 || b == cr

unfoldable pub trim_ascii : Bytes → Bytes
unfolding trim_start_where trim_end_where is_ascii_whitespace
trim_ascii value = trim_end_where is_ascii_whitespace (trim_start_where is_ascii_whitespace value)

unfoldable pub without_suffix : ℕ → Bytes → Bytes
unfolding strip_suffix_char
without_suffix b line = unwrap_or line (strip_suffix_char b line)

-- A line without its ending.
unfoldable pub bare_line : Bytes → Bytes
unfolding without_suffix
bare_line line = without_suffix cr (without_suffix lf line)

unfoldable pub is_continuation : Bytes → Bool
is_continuation [] = false
is_continuation (b ∷ _) = b == b' ' || b == 9

concat : List Bytes → Bytes
concat [] = []
concat (l ∷ ls) = l ++ concat ls

-- Whether a line is left out, from whether the one before was.
unfoldable pub skips : Bool → Bytes → Bool
unfolding is_continuation is_message_token_header before_first
skips skipping line =
    if is_continuation line then skipping else is_message_token_header (before_first b':' line)

-- The loop over the lines with their endings.
unfoldable pub without_tokens : Bool → List Bytes → Bytes
unfolding skips bare_line concat
without_tokens skipping [] = []
without_tokens skipping (l ∷ ls) =
    let skips_line = skips skipping (bare_line l) in
    let rest = without_tokens skips_line ls in
    if is_empty (bare_line l) then l ++ concat ls else if skips_line then rest else l ++ rest

unfoldable pub add_message_token_header : Bytes → Text → Bytes
unfolding message_token_header without_tokens split_inclusive as_bytes codes
add_message_token_header raw_message token =
    message_token_header
    ++ (codes ": "
        ++ (as_bytes token ++ (cr ∷ lf ∷ without_tokens false (split_inclusive raw_message))))

-- `take_while`
unfoldable pub take_while : (ℕ → Bool) → Bytes → Bytes
take_while p [] = []
take_while p (b ∷ s) = let rest = take_while p s in if p b then b ∷ rest else []

valid_token : Bytes → Option Bytes
valid_token token = if is_empty token || ltb 64 (length token) then none else some token

named_token : Option (Bytes × Bytes) → Option Bytes
named_token none = none
named_token (some (name, value)) =
    if is_message_token_header name
    then valid_token (take_while is_ascii_alphanumeric (trim_ascii value))
    else none

-- The token of one line, if it has one.
unfoldable pub token_of : Bytes → Option Bytes
unfolding named_token valid_token take_while trim_ascii is_message_token_header
    is_ascii_alphanumeric split_once without_suffix
token_of line = named_token (split_once b':' (without_suffix cr line))

unfoldable pub push_token : List Bytes → Option Bytes → List Bytes
unfolding text_eq
push_token tokens none = tokens
push_token tokens (some token) =
    if any (λ t. text_eq t token) tokens then tokens else tokens ++ (token ∷ [])

unfoldable pub tokens_of : List Bytes → List Bytes → List Bytes
unfolding push_token token_of
tokens_of tokens [] = tokens
tokens_of tokens (line ∷ lines) = tokens_of (push_token tokens (token_of line)) lines

unfoldable pub original_message_tokens : Bytes → List Bytes
unfolding tokens_of split_where
original_message_tokens raw_message = tokens_of [] (split_where (λ b. b == lf) raw_message)
