-- ===== src/Message/Headers.antt =====
-- crates/camelmailer-core/src/message.rs: `parse_headers` and `header_value`. The decoding of bytes and
-- the lower-casing are functions of the Rust library, and arguments.
pub mod Laws
mod Tests
use camelmailer.Base.{
  ℕ, Bool, false, ◌||◌, Option, none, some, List, [], ◌∷◌, ◌++◌, ◌==◌, if◌then◌else◌, is_empty,
  unwrap_or,
}
use camelmailer.Text.{
  Text, Bytes, lf, cr, codes, trim, split_once, split_where, strip_suffix_char, text_eq,
}

-- The last header, with a space and a piece of text at its end.
unfoldable pub extend_last : Text → List (Text × Text) → List (Text × Text)
extend_last t [] = []
extend_last t ((key, value) ∷ []) = (key, value ++ (codes " " ++ t)) ∷ []
extend_last t (h ∷ h' ∷ r) = h ∷ extend_last t (h' ∷ r)

unfoldable pub starts_folded : Text → Bool
starts_folded [] = false
starts_folded (c ∷ _) = c == b' ' || c == 9

module _ (from_utf8_lossy : Bytes → Text) (to_lowercase : Text → Text) where
  add_pair : List (Text × Text) → Option (Text × Text) → List (Text × Text)
  unfolding trim
  add_pair headers none = headers
  add_pair headers (some (key, value)) = headers ++ ((to_lowercase (trim key), trim value) ∷ [])

  -- What one line of the header block does.
  unfoldable pub add_line : List (Text × Text) → Text → List (Text × Text)
  unfolding add_pair extend_last starts_folded split_once trim
  add_line headers text =
      if starts_folded text
      then extend_last (trim text) headers
      else add_pair headers (split_once b':' text)

  -- The loop over the lines, up to the first empty one.
  unfoldable pub parse_lines : List (Text × Text) → List Bytes → List (Text × Text)
  unfolding add_line strip_suffix_char
  parse_lines headers [] = headers
  parse_lines headers (l ∷ rest) =
      let content = unwrap_or l (strip_suffix_char cr l) in
      let next = parse_lines (add_line headers (from_utf8_lossy content)) rest in
      if is_empty content then headers else next

  unfoldable pub parse_headers : Bytes → List (Text × Text)
  unfolding parse_lines split_where
  parse_headers raw_message = parse_lines [] (split_where (λ b. b == lf) raw_message)

  unfoldable pub find_key : Text → List (Text × Text) → Option Text
  unfolding text_eq
  find_key name [] = none
  find_key name ((key, value) ∷ r) = if text_eq key name then some value else find_key name r

  unfoldable pub header_value : Bytes → Text → Option Text
  unfolding find_key
  header_value raw_message name = find_key (to_lowercase name) (parse_headers raw_message)
