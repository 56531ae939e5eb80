-- ===== src/Bounce/Report/Laws.antt =====
-- What a failed delivery status notification shows.
use camelmailer.Base.{
  ◌≡◌, refl, Bool, true, false, ◌&&◌, ◌||◌, not, Option, none, some, List, [], ◌∷◌, if◌then◌else◌,
  any, arith,
}
use camelmailer.Text.{Text, Bytes, codes, starts_with}
use camelmailer.Bounce.Report.{
  content_type_is, trimmed_line, field_of, is_named, content_type_of, lines_of,
  is_delivery_status_notification, failed_action, only_failed, has_only_failed_actions, part_step,
  scan_parts, is_failed_delivery_status_notification,
}

is_failed_field : Option (Bytes × Bytes) → Bool
is_failed_field none = false
is_failed_field (some (name, value)) =
    is_named (codes "Action") name && is_named (codes "failed") value

-- A line that says `Action: failed`.
unfoldable pub is_failed_action : Bytes → Bool
unfolding is_failed_field is_named codes
is_failed_action line = is_failed_field (field_of (trimmed_line line))

or_weaken : (s x a : Bool) → (s || a) ≡ true → (s || (x || a)) ≡ true
or_weaken s x a h = ground arith

module _ (from_utf8_lossy : Bytes → Text) (to_lowercase : Text → Text) where
  only_failed-any :
      (lines : List Bytes) (saw : Bool)
      → only_failed lines saw ≡ true
      → (saw || any is_failed_action lines) ≡ true
  unfolding only_failed is_failed_action failed_action
  only_failed-any [] true h = refl
  only_failed-any [] false h = h
  only_failed-any (l ∷ ls) saw h =
      acted (field_of (trimmed_line l)) h (λ s k. only_failed-any ls s k)
    where
      judged :
          (action failed : Bool)
          → (elim (if action then (if failed then some true else none) else some saw) [
            | none ↦ false
            | some saw' ↦ only_failed ls saw'
          ])
            ≡ true
          → ((s : Bool) → only_failed ls s ≡ true → (s || any is_failed_action ls) ≡ true)
          → (saw || ((action && failed) || any is_failed_action ls)) ≡ true
      judged true true k ih = ground arith
      judged true false k ih = absurd (cc)
      judged false failed k ih = ih saw k

      acted :
          (f : Option (Bytes × Bytes))
          → (elim (failed_action f saw) [ none ↦ false | some saw' ↦ only_failed ls saw' ]) ≡ true
          → ((s : Bool) → only_failed ls s ≡ true → (s || any is_failed_action ls) ≡ true)
          → (saw || (is_failed_field f || any is_failed_action ls)) ≡ true
      acted none k ih = ih saw k
      acted (some (name, value)) k ih =
          judged (is_named (codes "Action") name) (is_named (codes "failed") value) k ih

  scan_parts-any :
      (lines : List Bytes) (part saw : Bool)
      → scan_parts from_utf8_lossy to_lowercase lines (part, saw) ≡ true
      → (saw || any is_failed_action lines) ≡ true
  unfolding scan_parts is_failed_action part_step
  scan_parts-any [] part true h = refl
  scan_parts-any [] part false h = h
  scan_parts-any (l ∷ ls) part saw h =
      stepped (starts_with (trimmed_line l) (codes "--")) (field_of (trimmed_line l)) h
        (λ p s k. scan_parts-any ls p s k)
    where
      Later : Type 0
      Later =
          (p s : Bool)
          → scan_parts from_utf8_lossy to_lowercase ls (p, s) ≡ true
          → (s || any is_failed_action ls) ≡ true

      go : Option (Bool × Bool) → Bool
      go o = elim o [ none ↦ false | some state ↦ scan_parts from_utf8_lossy to_lowercase ls state ]

      judged :
          (type p action failed new : Bool)
          → go (
              if type
              then some (new, saw)
              else if p && action
              then (if failed then some (p, true) else none)
              else some (p, saw))
            ≡ true
          → Later
          → (saw || ((action && failed) || any is_failed_action ls)) ≡ true
      judged true p action failed new k later =
          or_weaken saw (action && failed) (any is_failed_action ls) (later new saw k)
      judged false true true true new k later = ground arith
      judged false true true false new k later = absurd (cc)
      judged false true false failed new k later = later true saw k
      judged false false action failed new k later =
          or_weaken saw (action && failed) (any is_failed_action ls) (later false saw k)

      stepped :
          (dash : Bool) (f : Option (Bytes × Bytes))
          → go (
              if dash then some (false, saw) else elim f [
                | none ↦ some (part, saw)
                | some (name, value) ↦
                    if is_named (codes "Content-Type") name
                    then some (
                      content_type_is (from_utf8_lossy value) (codes "message/delivery-status"),
                      saw,
                    )
                    else if part && is_named (codes "Action") name
                    then (if is_named (codes "failed") value then some (part, true) else none)
                    else some (part, saw)
              ])
            ≡ true
          → Later
          → (saw || (is_failed_field f || any is_failed_action ls)) ≡ true
      stepped true f k later =
          or_weaken saw (is_failed_field f) (any is_failed_action ls) (later false saw k)
      stepped false none k later = later part saw k
      stepped false (some (name, value)) k later =
          judged (is_named (codes "Content-Type") name) part (is_named (codes "Action") name)
            (is_named (codes "failed") value)
            (content_type_is (from_utf8_lossy value) (codes "message/delivery-status")) k later

  -- A notification counts as a failure only if a line of it says `Action: failed`.
  pub is_failed-any :
      (raw : Bytes)
      → is_failed_delivery_status_notification from_utf8_lossy to_lowercase raw ≡ true
      → any is_failed_action (lines_of raw) ≡ true
  unfolding is_failed_delivery_status_notification has_only_failed_actions
  is_failed-any raw h =
      judged (is_delivery_status_notification from_utf8_lossy to_lowercase raw)
        (content_type_is (content_type_of from_utf8_lossy to_lowercase raw)
          (codes "message/delivery-status"))
        (content_type_is (content_type_of from_utf8_lossy to_lowercase raw)
          (codes "multipart/report"))
        h
    where
      lines : List Bytes
      lines = lines_of raw

      judged :
          (dsn status multipart : Bool)
          → (if not dsn
              then false
              else if status
              then only_failed lines false
              else if multipart
              then scan_parts from_utf8_lossy to_lowercase lines (false, false)
              else only_failed lines false)
            ≡ true
          → any is_failed_action lines ≡ true
      judged false status multipart k = absurd (cc)
      judged true true multipart k = only_failed-any lines false k
      judged true false true k = scan_parts-any lines false false k
      judged true false false k = only_failed-any lines false k
