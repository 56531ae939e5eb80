-- ===== src/Spf/Term.antt =====
-- The terms of an SPF record (crates/camelmailer-core/src/spf.rs): qualifiers, mechanisms, the part
-- `domain[/cidr]`, and the terms that the evaluator does not resolve.
use camelmailer.Base.{
  ℕ, ◌+◌, ◌*◌, ◌-◌, Bool, not, ◌&&◌, ◌||◌, Option, none, some, List, [], ◌∷◌, ◌++◌, map, ltb, ◌==◌,
  if◌then◌else◌, is_empty, length, drop, all, filter, unwrap_or, ◌>>=◌,
}
use camelmailer.Text.{
  Text, codes, is_whitespace, is_ascii_digit, to_ascii_lowercase, starts_with, strip_prefix,
  split_once, split_where, contains, text_eq, trim_start,
}
use camelmailer.Spf.{
  SpfResult, pass, fail, soft_fail, neutral, UnsupportedKind, macro_term, exists_term, ptr_term,
  Nets,
}

-- `str::split_whitespace`
unfoldable pub split_whitespace : Text → List Text
unfolding split_where is_whitespace
split_whitespace s = filter (λ t. not (is_empty t)) (split_where is_whitespace s)

unfoldable pub from_qualifier : ℕ → SpfResult
from_qualifier q =
    if q == b'-' then fail else if q == b'~' then soft_fail else if q == b'?' then neutral else pass

unfoldable pub term_uses_macro : Text → Bool
unfolding contains codes
term_uses_macro term = contains term (codes "%{")

unfoldable pub unsupported_kind : Text → Option UnsupportedKind
unfolding term_uses_macro text_eq starts_with codes to_ascii_lowercase
unsupported_kind term =
    let lower = map to_ascii_lowercase term in
    if term_uses_macro term
    then some macro_term
    else if starts_with lower (codes "exists:")
    then some exists_term
    else if text_eq lower (codes "ptr") || starts_with lower (codes "ptr:")
    then some ptr_term
    else none

-- A `v=spf1` record.
unfoldable pub is_spf_record : Text → Bool
unfolding text_eq starts_with trim_start codes
is_spf_record r =
    let head = trim_start r in text_eq head (codes "v=spf1") || starts_with head (codes "v=spf1 ")

is_qualifier : ℕ → Bool
is_qualifier c = c == b'+' || c == b'-' || c == b'~' || c == b'?'

unfoldable pub split_qualifier : Text → ℕ × Text
unfolding is_qualifier
split_qualifier [] = (b'+', [])
split_qualifier (c ∷ t) = if is_qualifier c then (c, t) else (b'+', c ∷ t)

digits_value : ℕ → Text → ℕ
digits_value acc [] = acc
digits_value acc (c ∷ t) = digits_value (acc * 10 + (c - b'0')) t

-- `str::parse::<u8>`: an optional plus sign, then digits.
unfoldable pub parse_u8 : Text → Option ℕ
unfolding digits_value is_ascii_digit strip_prefix codes
parse_u8 t =
    let digits = unwrap_or t (strip_prefix t (codes "+")) in
    if not (is_empty digits) && all is_ascii_digit digits && ltb (digits_value 0 digits) 256
    then some (digits_value 0 digits)
    else none

-- The explicit domain of a mechanism, or the current one.
explicit_domain : Text → Option Text → Text
explicit_domain current none = current
explicit_domain current (some explicit) = if is_empty explicit then current else explicit

domain_and_cidr : Text → Option (Text × Text) → Text × Option Text
domain_and_cidr rest none = (rest, none)
domain_and_cidr rest (some (domain, cidr)) = (domain, some cidr)

-- The keyword is ASCII and the mechanism starts with it in some casing, so its length in bytes is
-- its length in characters.
unfoldable pub parse_domain_spec : Text → Text → Text → Text × Option ℕ
unfolding explicit_domain domain_and_cidr split_once strip_prefix parse_u8 codes
parse_domain_spec mechanism keyword current_domain =
    let rest = drop (length keyword) mechanism in
    let (domain_part, cidr) = domain_and_cidr rest (split_once b'/' rest) in
    (
      explicit_domain current_domain (strip_prefix domain_part (codes ":")),
      (do c ← cidr; parse_u8 c),
    )

-- Which mechanism a text is, by its lower-cased form: the branches of `match_mechanism`.
pub data Mechanism : Type 0 where
  all_mechanism : Mechanism
  ip_mechanism : Text → Mechanism
  a_mechanism mx_mechanism : Mechanism
  include_mechanism : Text → Mechanism
  other_mechanism : Mechanism

ip_prefix : Text → Option Text → Option Text
ip_prefix lower none = strip_prefix lower (codes "ip6:")
ip_prefix lower (some rest) = some rest

has_keyword : Text → Text → Bool
has_keyword lower keyword =
    text_eq lower keyword
    || starts_with lower (keyword ++ codes ":")
    || starts_with lower (keyword ++ codes "/")

after_ip : Text → Option Text → Mechanism
unfolding has_keyword
after_ip lower (some rest) = ip_mechanism rest
after_ip lower none =
    if has_keyword lower (codes "a")
    then a_mechanism
    else if has_keyword lower (codes "mx")
    then mx_mechanism
    else elim (strip_prefix lower (codes "include:")) [
      | some target ↦ include_mechanism target
      | none ↦ other_mechanism
    ]

unfoldable pub mechanism_of : Text → Mechanism
unfolding ip_prefix after_ip has_keyword strip_prefix text_eq starts_with codes to_ascii_lowercase
mechanism_of mechanism =
    let lower = map to_ascii_lowercase mechanism in
    if text_eq lower (codes "all")
    then all_mechanism
    else after_ip lower (ip_prefix lower (strip_prefix lower (codes "ip4:")))

-- What a term is: a `redirect=`, another modifier, or a mechanism with its qualifier.
pub data TermKind : Type 0 where
  redirect_term : Text → TermKind
  modifier_term : TermKind
  mechanism_term : ℕ → Text → TermKind

redirect_or : Text → Option Text → TermKind
redirect_or term (some target) = redirect_term target
redirect_or term none =
    if contains term (codes "=")
    then modifier_term
    else (let (q, m) = split_qualifier term in mechanism_term q m)

unfoldable pub term_kind : Text → TermKind
unfolding redirect_or strip_prefix contains codes split_qualifier
term_kind term = redirect_or term (strip_prefix term (codes "redirect="))

module _ {Ip Net : Type 0} (nets : Nets Ip Net) where
  in_net : Text → Ip → Option Net → Option Bool
  in_net spec ip (some net) = some (nets.contains net ip)
  in_net spec ip none = do addr ← nets.parse_ip spec; some (nets.ip_eq addr ip)

  unfoldable pub ip_in_cidr : Text → Ip → Option Bool
  unfolding in_net
  ip_in_cidr spec ip = in_net spec ip (nets.parse_net spec)

  matches_net : Ip → Ip → Option Net → Bool
  matches_net record_ip ip (some net) = nets.contains net ip
  matches_net record_ip ip none = nets.ip_eq record_ip ip

  unfoldable pub ip_matches : Ip → Ip → Option ℕ → Bool
  unfolding matches_net
  ip_matches record_ip ip none = nets.ip_eq record_ip ip
  ip_matches record_ip ip (some len) = matches_net record_ip ip (nets.new_net record_ip len)
