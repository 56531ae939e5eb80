-- ===== src/Smtp/Address.antt =====
-- The address helpers of crates/camelmailer-smtp/src/session.rs and `normalize_dns_domain_name` of
-- crates/camelmailer-config/src/lib.rs. `none` in a result of type `Option Text` of the first three
-- functions is the panic of a slice that is no character boundary.
use camelmailer.Base.{
  ℕ, Bool, false, not, ◌&&◌, ◌||◌, Option, none, some, [], ◌∷◌, map, leb, ◌==◌, if◌then◌else◌,
  is_empty, length, all, first?, last?, unwrap_or, ◌>>=◌,
}
use camelmailer.Text.{
  Text, eq_ignore_ascii_case, trim, trim_start, trim_end_where, strip_prefix, after_last,
  before_first, split_where, split_once, byte_len, as_bytes, split_at_byte, to_ascii_lowercase,
  is_ascii_alphanumeric,
}
use camelmailer.Smtp.Env.{Crates}

prefix_of : Text → Text → Option (Text × Text) → Option Text
prefix_of s prefix none = none
prefix_of s prefix (some (head, rest)) = some (if eq_ignore_ascii_case head prefix then rest else s)

-- `data[..prefix.len()]` panics inside a character.
unfoldable pub strip_prefix_ci : Text → Text → Option Text
unfolding prefix_of
strip_prefix_ci s prefix =
    if leb (byte_len prefix) (byte_len s)
    then prefix_of s prefix (split_at_byte s (byte_len prefix))
    else some s

-- What remains after the command: the optional colon, and the part between the last `<` and the
-- first `>` that follows.
unfoldable pub bare_address : Text → Text
unfolding trim_start trim before_first after_last strip_prefix
bare_address rest =
    let trimmed = trim_start rest in
    let value = trim_start (unwrap_or trimmed (strip_prefix trimmed (b':' ∷ []))) in
    trim (before_first b'>' (unwrap_or value (after_last b'<' value)))

unfoldable pub extract_address : Text → Text → Option Text
unfolding strip_prefix_ci bare_address
extract_address s cmd = do rest ← strip_prefix_ci s cmd; some (bare_address rest)

-- `split_header`: the key before the first colon, and the value after it.
unfoldable pub split_header : Text → Option (Text × Text)
unfolding split_once trim_start
split_header s = elim (split_once b':' s) [
  | none ↦ none
  | some (key, value) ↦ some (key, trim_start value)
]

valid_label_byte : ℕ → Bool
valid_label_byte b = is_ascii_alphanumeric b || b == b'-'

ends_alphanumeric : Option ℕ → Bool
ends_alphanumeric none = false
ends_alphanumeric (some b) = is_ascii_alphanumeric b

-- The negation of the condition on one label.
unfoldable pub is_valid_label : Text → Bool
unfolding valid_label_byte ends_alphanumeric as_bytes byte_len
is_valid_label label =
    not (is_empty label)
    && leb (byte_len label) 63
    && all valid_label_byte (as_bytes label)
    && ends_alphanumeric (first? (as_bytes label))
    && ends_alphanumeric (last? (as_bytes label))

unfoldable pub is_valid_domain : Text → Bool
unfolding is_valid_label split_where byte_len
is_valid_domain domain =
    let labels = split_where (λ c. c == b'.') domain in
    leb 2 (length labels) && leb (byte_len domain) 253 && all is_valid_label labels

unfoldable pub normalize_dns_domain_name : Crates → Text → Option Text
unfolding is_valid_domain trim trim_end_where
normalize_dns_domain_name crates value = do
  ascii ← crates.domain_to_ascii (trim_end_where (λ c. c == b'.') (trim value))
  let domain = map to_ascii_lowercase ascii
  if is_valid_domain domain then some domain else none
