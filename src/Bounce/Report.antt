-- ===== src/Bounce/Report.antt =====
-- Which messages are delivery status notifications, and which of them report a failure
-- (crates/camelmailer-core/src/bounce.rs).
pub mod Laws
use camelmailer.Base.{
  ℕ, Bool, true, false, ◌&&◌, ◌||◌, not, Option, none, some, List, [], ◌∷◌, ◌==◌, if◌then◌else◌,
  is_empty, is_some, unwrap_or, any, map, first?, drop, ◌>>=◌,
}
use camelmailer.Text.{
  Text, Bytes, codes, lf, split_where, split_once, before_first, starts_with, strip_prefix, trim,
  trim_start_where, trim_end_where, text_eq, eq_ignore_ascii_case, to_ascii_lowercase,
}
use camelmailer.Message.Headers.{header_value}
use camelmailer.Spf.Term.{split_whitespace}
use camelmailer.Bounce.{enhanced_code_class}
use camelmailer.Bounce.Token.{trim_ascii, without_suffix}

unfoldable pub content_type_is : Text → Text → Bool
unfolding before_first trim eq_ignore_ascii_case
content_type_is value expected = eq_ignore_ascii_case (trim (before_first b';' value)) expected

-- A line without the white space around it.
unfoldable pub trimmed_line : Bytes → Bytes
unfolding trim_ascii without_suffix
trimmed_line line = trim_ascii (without_suffix 13 line)

-- The name and the value of a line.
unfoldable pub field_of : Bytes → Option (Bytes × Bytes)
unfolding split_once trim_ascii
field_of line = elim (split_once b':' line) [
  | none ↦ none
  | some (name, value) ↦ some (trim_ascii name, trim_ascii value)
]

unfoldable pub is_named : Text → Bytes → Bool
unfolding eq_ignore_ascii_case
is_named name other = eq_ignore_ascii_case other name

-- What the lines of a report have shown so far.
pub record Shape : Type 0 where
  pub has_recipient : Bool
  pub has_bounce_action : Bool
  pub has_bounce_status : Bool
  pub has_reporting_mta : Bool

unfoldable pub lines_of : Bytes → List Bytes
unfolding split_where
lines_of raw_message = split_where (λ b. b == lf) raw_message

-- `none` where a line has an action that is not `failed`, and otherwise whether one was seen.
unfoldable pub failed_action : Option (Bytes × Bytes) → Bool → Option Bool
unfolding is_named codes
failed_action none saw = some saw
failed_action (some (name, value)) saw =
    if is_named (codes "Action") name
    then (if is_named (codes "failed") value then some true else none)
    else some saw

unfoldable pub only_failed : List Bytes → Bool → Bool
unfolding failed_action field_of trimmed_line
only_failed [] saw = saw
only_failed (line ∷ lines) saw = elim (failed_action (field_of (trimmed_line line)) saw) [
  | none ↦ false
  | some saw' ↦ only_failed lines saw'
]

unfoldable pub has_only_failed_actions : Bytes → Bool
unfolding only_failed lines_of
has_only_failed_actions raw_message = only_failed (lines_of raw_message) false

is_status_parameter : Text → Bool
unfolding strip_prefix trim_start_where trim_end_where codes is_named trim
is_status_parameter parameter = elim (strip_prefix (trim parameter) (codes "report-type=")) [
  | none ↦ false
  | some value ↦
      is_named (codes "delivery-status")
        (trim_end_where (λ c. c == 34) (trim_start_where (λ c. c == 34) value))
]

first_code : List Text → Bool
first_code [] = false
first_code (token ∷ _) = is_some (enhanced_code_class token)

module _ (from_utf8_lossy : Bytes → Text) (to_lowercase : Text → Text) where
  unfoldable pub shape_field : Option (Bytes × Bytes) → Shape → Shape
  unfolding is_named first_code enhanced_code_class split_whitespace codes
  shape_field none shape = shape
  shape_field (some (name, value)) shape =
      if is_named (codes "Final-Recipient") name || is_named (codes "Original-Recipient") name
      then record shape { has_recipient = shape.has_recipient || not (is_empty value) }
      else if is_named (codes "Action") name
      then record shape {
        has_bounce_action =
            shape.has_bounce_action
            || (is_named (codes "failed") value || is_named (codes "delayed") value);
      }
      else if is_named (codes "Status") name
      then record shape {
        has_bounce_status =
            shape.has_bounce_status || first_code (split_whitespace (from_utf8_lossy value));
      }
      else if is_named (codes "Reporting-MTA") name
      then record shape { has_reporting_mta = shape.has_reporting_mta || not (is_empty value) }
      else shape

  unfoldable pub shape_of : List Bytes → Shape → Shape
  unfolding shape_field field_of trimmed_line
  shape_of [] shape = shape
  shape_of (line ∷ lines) shape = shape_of lines (shape_field (field_of (trimmed_line line)) shape)

  has_content_type : Text → Bytes → Bool
  unfolding field_of trimmed_line is_named content_type_is codes
  has_content_type expected line = elim (field_of (trimmed_line line)) [
    | none ↦ false
    | some (name, value) ↦
        is_named (codes "Content-Type") name && content_type_is (from_utf8_lossy value) expected
  ]

  unfoldable pub has_content_type_part : Bytes → Text → Bool
  unfolding has_content_type lines_of
  has_content_type_part raw_message expected =
      any (has_content_type expected) (lines_of raw_message)

  unfoldable pub content_type_of : Bytes → Text
  unfolding header_value to_ascii_lowercase codes
  content_type_of raw_message =
      map to_ascii_lowercase (
        unwrap_or [] (header_value from_utf8_lossy to_lowercase raw_message (codes "content-type")))

  unfoldable pub is_delivery_status_notification : Bytes → Bool
  unfolding content_type_of content_type_is is_status_parameter has_content_type_part shape_of
      lines_of codes
  is_delivery_status_notification raw_message =
      let content_type = content_type_of raw_message in
      let shape = shape_of (lines_of raw_message) (record {
        has_recipient = false;
        has_bounce_action = false;
        has_bounce_status = false;
        has_reporting_mta = false;
      }) in
      if content_type_is content_type (codes "message/delivery-status")
      then true
      else if content_type_is content_type (codes "multipart/report")
          && (any is_status_parameter (drop 1 (split_where (λ c. c == b';') content_type))
              || has_content_type_part raw_message (codes "message/delivery-status"))
      then true
      else shape.has_recipient && shape.has_bounce_action && shape.has_bounce_status
        && shape.has_reporting_mta

  -- The scan of a multipart report: whether it stands in a delivery status part, and whether it saw a
  -- failed action there.
  unfoldable pub part_step : Bytes → Bool × Bool → Option (Bool × Bool)
  unfolding field_of is_named content_type_is failed_action starts_with codes
  part_step line (in_part, saw) =
      if starts_with line (codes "--") then some (false, saw) else elim (field_of line) [
        | none ↦ some (in_part, saw)
        | some (name, value) ↦
            if is_named (codes "Content-Type") name
            then some
                (content_type_is (from_utf8_lossy value) (codes "message/delivery-status"), saw)
            else if in_part && is_named (codes "Action") name
            then (if is_named (codes "failed") value then some (in_part, true) else none)
            else some (in_part, saw)
      ]

  unfoldable pub scan_parts : List Bytes → Bool × Bool → Bool
  unfolding part_step trimmed_line
  scan_parts [] state = state.1
  scan_parts (line ∷ lines) state = elim (part_step (trimmed_line line) state) [
    | none ↦ false
    | some state' ↦ scan_parts lines state'
  ]

  unfoldable pub is_failed_delivery_status_notification : Bytes → Bool
  unfolding is_delivery_status_notification has_only_failed_actions scan_parts content_type_of
      content_type_is lines_of codes
  is_failed_delivery_status_notification raw_message =
      let content_type = content_type_of raw_message in
      if not (is_delivery_status_notification raw_message)
      then false
      else if content_type_is content_type (codes "message/delivery-status")
      then has_only_failed_actions raw_message
      else if content_type_is content_type (codes "multipart/report")
      then scan_parts (lines_of raw_message) (false, false)
      else has_only_failed_actions raw_message
