-- ===== src/Dmarc.antt =====
-- The analysis of DNS records in crates/camelmailer-core/src/dmarc.rs: DMARC policies, and SPF records
-- as the domain checks read and extend them.
pub mod Policy
pub mod Merge
mod Tests
use camelmailer.Base.{
  ℕ, Bool, true, false, ◌&&◌, ◌||◌, not, Option, none, some, List, [], ◌∷◌, ◌++◌, ◌==◌,
  if◌then◌else◌, is_empty, any, map, drop, filter, leb, map_option,
}
use camelmailer.Text.{
  Text, codes, is_whitespace, to_ascii_lowercase, split_where, split_once, before_first,
  trim_start_where, trim, text_eq, eq_ignore_ascii_case,
}
use camelmailer.Spf.Term.{split_whitespace, parse_u8}

pub record DmarcPolicy : Type 0 where
  pub p : Option Text
  pub sp : Option Text
  pub rua : List Text
  pub pct : ℕ

unfoldable pub is_dmarc_record : Text → Bool
unfolding before_first trim eq_ignore_ascii_case codes
is_dmarc_record txt = eq_ignore_ascii_case (trim (before_first b';' txt)) (codes "v=DMARC1")

unfoldable pub is_policy : Text → Bool
unfolding text_eq codes
is_policy value =
    text_eq value (codes "none")
    || text_eq value (codes "quarantine")
    || text_eq value (codes "reject")

report_addresses : Text → List Text
unfolding split_where trim
report_addresses value =
    filter (λ address. not (is_empty address)) (map trim (split_where (λ c. c == b',') value))

sampled : Option ℕ → DmarcPolicy → DmarcPolicy
sampled none policy = policy
sampled (some pct) policy = record policy { pct = if leb pct 100 then pct else 100 }

-- What one tag, its name in lower case and its value, sets.
unfoldable pub set_tag : Text → Text → DmarcPolicy → DmarcPolicy
unfolding text_eq codes is_policy report_addresses sampled to_ascii_lowercase parse_u8
set_tag name value policy =
    let lower = map to_ascii_lowercase value in
    if text_eq name (codes "p")
    then (if is_policy lower then record policy { p = some lower } else policy)
    else if text_eq name (codes "sp")
    then (if is_policy lower then record policy { sp = some lower } else policy)
    else if text_eq name (codes "rua")
    then record policy { rua = report_addresses value }
    else if text_eq name (codes "pct")
    then sampled (parse_u8 value) policy
    else policy

tag_of : Option (Text × Text) → DmarcPolicy → DmarcPolicy
unfolding trim to_ascii_lowercase
tag_of none policy = policy
tag_of (some (name, value)) policy =
    set_tag (map to_ascii_lowercase (trim name)) (trim value) policy

unfoldable pub read_tags : List Text → DmarcPolicy → DmarcPolicy
unfolding tag_of set_tag split_once
read_tags [] policy = policy
read_tags (tag ∷ tags) policy = read_tags tags (tag_of (split_once b'=' tag) policy)

unfoldable pub parse_dmarc_record : Text → Option DmarcPolicy
unfolding is_dmarc_record read_tags split_where
parse_dmarc_record txt =
    if is_dmarc_record txt
    then some (
        read_tags (split_where (λ c. c == b';') txt)
          (record { p = none; sp = none; rua = []; pct = 100 }))
    else none

first_is : Text → List Text → Bool
unfolding eq_ignore_ascii_case codes
first_is name [] = eq_ignore_ascii_case [] name
first_is name (term ∷ _) = eq_ignore_ascii_case term name

unfoldable pub is_spf1_record : Text → Bool
unfolding first_is split_whitespace codes
is_spf1_record txt = first_is (codes "v=spf1") (split_whitespace txt)

unfoldable pub is_sign : ℕ → Bool
is_sign c = c == b'-' || c == b'~' || c == b'?' || c == b'+'

-- A term's qualifier and its mechanism.
unfoldable pub qualified : Text → ℕ × Text
unfolding is_sign
qualified [] = (b'+', [])
qualified (c ∷ t) = if is_sign c then (c, t) else (b'+', c ∷ t)

unfoldable pub all_qualifier : List Text → Option ℕ
unfolding qualified eq_ignore_ascii_case codes
all_qualifier [] = none
all_qualifier (term ∷ terms) =
    let rest = all_qualifier terms in
    if eq_ignore_ascii_case (qualified term).1 (codes "all") then some (qualified term).0 else rest

unfoldable pub spf_all_qualifier : Text → Option ℕ
unfolding all_qualifier split_whitespace
spf_all_qualifier txt = all_qualifier (drop 1 (split_whitespace txt))

-- A term without its qualifiers.
unfoldable pub bare_term : Text → Text
unfolding trim_start_where is_sign
bare_term term = trim_start_where is_sign term

unfoldable pub has_mechanism : Text → List Text → Bool
unfolding bare_term eq_ignore_ascii_case
has_mechanism mechanism terms = any (λ term. eq_ignore_ascii_case (bare_term term) mechanism) terms

unfoldable pub spf_contains_mechanism : Text → Text → Bool
unfolding has_mechanism split_whitespace
spf_contains_mechanism txt mechanism = has_mechanism mechanism (drop 1 (split_whitespace txt))

-- `join(" ")`
unfoldable pub join : List Text → Text
join [] = []
join (t ∷ []) = t
join (t ∷ u ∷ r) = t ++ b' ' ∷ join (u ∷ r)

-- The loop of the merge: the mechanism goes before the first `all`, or to the end.
unfoldable pub insert_mechanism : Text → List Text → List Text
unfolding bare_term eq_ignore_ascii_case codes
insert_mechanism mechanism [] = mechanism ∷ []
insert_mechanism mechanism (term ∷ terms) =
    let rest = insert_mechanism mechanism terms in
    if eq_ignore_ascii_case (bare_term term) (codes "all")
    then mechanism ∷ term ∷ terms
    else term ∷ rest

unfoldable pub spf_with_mechanism : Text → Text → Text
unfolding spf_contains_mechanism join insert_mechanism split_whitespace
spf_with_mechanism txt mechanism =
    if spf_contains_mechanism txt mechanism
    then join (split_whitespace txt)
    else join (insert_mechanism mechanism (split_whitespace txt))

unfoldable pub find_key_tag : List Text → Option Text
unfolding split_once trim eq_ignore_ascii_case is_whitespace codes
find_key_tag [] = none
find_key_tag (tag ∷ tags) =
    let rest = find_key_tag tags in
    elim (split_once b'=' tag) [
      | none ↦ rest
      | some (name, value) ↦
          if eq_ignore_ascii_case (trim name) (codes "p")
          then some (filter (λ c. not (is_whitespace c)) value)
          else rest
    ]

unfoldable pub dkim_public_key_of_record : Text → Option Text
unfolding find_key_tag split_where
dkim_public_key_of_record txt = find_key_tag (split_where (λ c. c == b';') txt)
