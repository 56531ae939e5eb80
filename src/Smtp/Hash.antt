-- ===== src/Smtp/Hash.antt =====
-- What the idempotency of an SMTP submission hashes: `strip_message_header` and `smtp_request_hash`
-- of crates/camelmailer-smtp/src/session.rs, and `sha256_hex` of
-- crates/camelmailer-core/src/hashing.rs.
pub mod Laws
use camelmailer.Base.{
  ℕ, ◌+◌, ◌/◌, ◌%◌, ◌^◌, Bool, true, false, ◌||◌, Option, none, some, List, [], ◌∷◌, ◌++◌, ◌==◌,
  if◌then◌else◌, is_empty, length, unwrap_or,
}
use camelmailer.Text.{
  Text, Bytes, lf, cr, as_bytes, before_first, eq_ignore_ascii_case, strip_suffix_char,
}
use camelmailer.Text.Format.{hex_of_bytes}
use camelmailer.Smtp.Types.{Recipient}
use camelmailer.Smtp.Env.{Crates}

-- `raw.split_inclusive(|byte| *byte == b'\n')`
unfoldable pub split_inclusive : Bytes → List Bytes
split_inclusive [] = []
split_inclusive (b ∷ r) =
    let rest = split_inclusive r in
    if b == lf then (b ∷ []) ∷ rest else elim rest [ [] ↦ (b ∷ []) ∷ [] | w ∷ ws ↦ (b ∷ w) ∷ ws ]

-- A line without its line end.
unfoldable pub line_content : Bytes → Bytes
unfolding strip_suffix_char
line_content s =
    let content = unwrap_or s (strip_suffix_char lf s) in
    unwrap_or content (strip_suffix_char cr content)

unfoldable pub is_folded : Bytes → Bool
is_folded [] = false
is_folded (b ∷ _) = b == b' ' || b == 9

unfoldable pub has_name : Bytes → Bytes → Bool
unfolding before_first eq_ignore_ascii_case
has_name name content = eq_ignore_ascii_case (before_first b':' content) name

-- The loop of `strip_message_header`, over the lines that are left, with `in_headers` and `skipping`.
unfoldable pub strip_lines : Bytes → Bool → Bool → List Bytes → Bytes
unfolding line_content is_folded has_name
strip_lines name in_headers skipping [] = []
strip_lines name false skipping (s ∷ rest) = s ++ strip_lines name false skipping rest
strip_lines name true skipping (s ∷ rest) =
    let content = line_content s in
    let in_body = s ++ strip_lines name false false rest in
    let skipped = strip_lines name true true rest in
    let kept = s ++ strip_lines name true false rest in
    if is_empty content
    then in_body
    else if is_folded content
    then if skipping then skipped else kept
    else if has_name name content
    then skipped
    else kept

unfoldable pub strip_message_header : Bytes → Bytes → Bytes
unfolding strip_lines split_inclusive
strip_message_header raw name = strip_lines name true false (split_inclusive raw)

-- `(n as u64).to_be_bytes()`
unfoldable pub to_be_bytes : ℕ → Bytes
to_be_bytes n =
    (n / 2 ^ 56 % 256)
    ∷ (n / 2 ^ 48 % 256)
    ∷ (n / 2 ^ 40 % 256)
    ∷ (n / 2 ^ 32 % 256)
    ∷ (n / 2 ^ 24 % 256)
    ∷ (n / 2 ^ 16 % 256)
    ∷ (n / 2 ^ 8 % 256)
    ∷ (n % 256)
    ∷ []

-- `add` of `smtp_request_hash`: what one part contributes to the digest.
unfoldable pub framed : Bytes → Bytes
unfolding to_be_bytes
framed bytes = to_be_bytes (length bytes) ++ bytes

unfoldable pub framed_recipients : List Recipient → Bytes
unfolding framed as_bytes
framed_recipients [] = []
framed_recipients (r ∷ rs) = framed (as_bytes r.rcpt_to) ++ framed_recipients rs

-- All that the hasher is fed, in order.
unfoldable pub hash_input : Text → List Recipient → Bytes → Bytes
unfolding framed to_be_bytes framed_recipients as_bytes
hash_input mail_from recipients client_data =
    framed (as_bytes mail_from)
    ++ (to_be_bytes (length recipients) ++ (framed_recipients recipients ++ framed client_data))

unfoldable pub sha256_hex : Crates → Bytes → Text
unfolding hex_of_bytes
sha256_hex crates bytes = hex_of_bytes (crates.sha256 bytes)

unfoldable pub smtp_request_hash : Crates → Text → List Recipient → Bytes → Text
unfolding hash_input hex_of_bytes
smtp_request_hash crates mail_from recipients client_data =
    hex_of_bytes (crates.sha256 (hash_input mail_from recipients client_data))
