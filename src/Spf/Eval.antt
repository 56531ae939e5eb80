-- ===== src/Spf/Eval.antt =====
-- The walk of the SPF evaluator (crates/camelmailer-core/src/spf.rs). The budget of lookups and the
-- first unresolved term are the state of an evaluation; the resolver is an argument. `include:` and
-- `redirect=` call the walk again: the fuel counts how deep, and `none` means that it ran out.
use camelmailer.Base.{
  ℕ, zero, suc, ◌+◌, ◌-◌, Bool, true, false, ◌&&◌, Option, none, some, List, [], ◌∷◌, ltb,
  if◌then◌else◌, is_empty, length, any, drop, filter, ◌>>=◌, is_none, map_option,
}
use camelmailer.Text.{Text, codes, trim}
use camelmailer.Spf.{
  SpfResult, pass, fail, soft_fail, neutral, no_policy, temp_error, perm_error, UnsupportedKind,
  macro_term, UnsupportedTerm, SpfVerdict, determined, unverifiable, MacroMode, lenient, report,
  is_report, MechanismOutcome, matched, no_match, error, SpfResolver, Nets,
}
use camelmailer.Spf.Term.{
  split_whitespace, from_qualifier, term_uses_macro, unsupported_kind, is_spf_record,
  parse_domain_spec, mechanism_of, Mechanism, all_mechanism, ip_mechanism, a_mechanism,
  mx_mechanism, include_mechanism, other_mechanism, term_kind, TermKind, redirect_term,
  modifier_term, mechanism_term, ip_in_cidr, ip_matches,
}

abbrev pub max_dns_lookups : ℕ
max_dns_lookups = 10

abbrev pub max_mx_address_lookups : ℕ
max_mx_address_lookups = 10

-- The state of an `Evaluator`. `asked` counts the queries that the resolver got, for the theorems: the
-- source does not keep it.
pub record Walk : Type 0 where
  pub budget : ℕ
  pub blocked : Option UnsupportedTerm
  pub asked : ℕ

unfoldable pub start : Walk
start = record { budget = max_dns_lookups; blocked = none; asked = 0 }

unfoldable pub ask : Walk → Walk
ask w = record w { asked = w.asked + 1 }

-- The lookup is granted, or the budget is exhausted.
unfoldable pub spend_lookup : Walk → Bool × Walk
spend_lookup w = if ltb 0 w.budget then (true, record w { budget = w.budget - 1 }) else (false, w)

unfoldable pub note_unsupported : Text → Text → UnsupportedKind → Walk → Walk
note_unsupported term domain kind w =
    if is_none w.blocked
    then record w { blocked = some (record { term = term; domain = domain; kind = kind }) }
    else w

-- The result of `fetch_spf_record`.
pub data Fetched : Type 0 where
  found : Text → Fetched
  missing : Fetched
  failed : SpfResult → Fetched

one_record : List Text → Fetched
one_record [] = missing
one_record (r ∷ []) = found r
one_record (r ∷ _ ∷ _) = failed perm_error

fetched : Option (List Text) → Fetched
fetched none = failed temp_error
fetched (some records) = one_record (filter is_spf_record records)

-- `include` matches on pass, and its missing policy is an error of this one.
unfoldable pub include_outcome : SpfResult → MechanismOutcome
include_outcome pass = matched
include_outcome fail = no_match
include_outcome soft_fail = no_match
include_outcome neutral = no_match
include_outcome no_policy = error perm_error
include_outcome temp_error = error temp_error
include_outcome perm_error = error perm_error

-- How the loop goes on after a term: with a redirect target, or with the result.
pub data TermStep : Type 0 where
  next : Option Text → Walk → TermStep
  stop : SpfResult → Walk → TermStep

unfoldable pub after_mechanism : ℕ → Option Text → MechanismOutcome × Walk → TermStep
unfolding from_qualifier
after_mechanism q redirect (matched, w) = stop (from_qualifier q) w
after_mechanism q redirect (no_match, w) = next redirect w
after_mechanism q redirect (error result, w) = stop result w

ip_outcome : Option Bool → MechanismOutcome
ip_outcome (some true) = matched
ip_outcome (some false) = no_match
ip_outcome none = error perm_error

module _ {Ip Net : Type 0} (nets : Nets Ip Net) (resolver : SpfResolver Ip) (mode : MacroMode)
    (ip : Ip) where
  unfoldable pub fetch_spf_record : Text → Walk → Fetched × Walk
  unfolding fetched one_record is_spf_record ask
  fetch_spf_record domain w = (fetched (resolver.txt domain), ask w)

  unfoldable pub addresses_outcome : Option ℕ → Option (List Ip) → MechanismOutcome
  addresses_outcome cidr none = error temp_error
  addresses_outcome cidr (some addresses) =
      if any (λ addr. ip_matches nets addr ip cidr) addresses then matched else no_match

  unfoldable pub match_a : Text → Text → Walk → MechanismOutcome × Walk
  unfolding addresses_outcome parse_domain_spec spend_lookup ask ip_matches
  match_a mechanism current_domain w =
      let (target, cidr) = parse_domain_spec mechanism (codes "a") current_domain in
      let (granted, w') = spend_lookup w in
      if granted
      then (addresses_outcome cidr (resolver.ip_addresses target), ask w')
      else (error perm_error, w')

  -- The loop over the exchanges, up to the first one that matches or fails.
  unfoldable pub match_hosts : Option ℕ → List Text → Walk → MechanismOutcome × Walk
  unfolding addresses_outcome ask
  match_hosts cidr [] w = (no_match, w)
  match_hosts cidr (host ∷ hosts) w = elim (addresses_outcome cidr (resolver.ip_addresses host)) [
    | matched ↦ (matched, ask w)
    | error result ↦ (error result, ask w)
    | no_match ↦ match_hosts cidr hosts (ask w)
  ]

  unfoldable pub match_exchanges : Option ℕ → Option (List Text) → Walk → MechanismOutcome × Walk
  unfolding match_hosts
  match_exchanges cidr none w = (error temp_error, w)
  match_exchanges cidr (some hosts) w =
      if ltb max_mx_address_lookups (length hosts)
      then (error perm_error, w)
      else match_hosts cidr hosts w

  unfoldable pub match_mx : Text → Text → Walk → MechanismOutcome × Walk
  unfolding match_exchanges parse_domain_spec spend_lookup ask
  match_mx mechanism current_domain w =
      let (target, cidr) = parse_domain_spec mechanism (codes "mx") current_domain in
      let (granted, w') = spend_lookup w in
      if granted
      then match_exchanges cidr (resolver.mx_hosts target) (ask w')
      else (error perm_error, w')

  -- `check` is `check_host`.
  module _ (check : Text → Walk → Option (SpfResult × Walk)) where
    unfoldable pub match_include : Text → Walk → Option (MechanismOutcome × Walk)
    unfolding spend_lookup include_outcome
    match_include target w =
        let (granted, w') = spend_lookup w in
        if granted
        then (do r ← check target w'; some (include_outcome r.0, r.1))
        else some (error perm_error, w')

    unfoldable pub match_supported :
        Text → Text → Mechanism → Walk → Option (MechanismOutcome × Walk)
    unfolding ip_outcome match_a match_mx match_include ip_in_cidr
    match_supported mechanism domain all_mechanism w = some (matched, w)
    match_supported mechanism domain (ip_mechanism rest) w =
        some (ip_outcome (ip_in_cidr nets rest ip), w)
    match_supported mechanism domain a_mechanism w = some (match_a mechanism domain w)
    match_supported mechanism domain mx_mechanism w = some (match_mx mechanism domain w)
    match_supported mechanism domain (include_mechanism target) w = match_include target w
    match_supported mechanism domain other_mechanism w = some (no_match, w)

    unfoldable pub match_mechanism : Text → Text → Walk → Option (MechanismOutcome × Walk)
    unfolding match_supported mechanism_of note_unsupported unsupported_kind
    match_mechanism mechanism domain w =
        elim (if is_report mode then unsupported_kind mechanism else none) [
          | some kind ↦ some (no_match, note_unsupported mechanism domain kind w)
          | none ↦ match_supported mechanism domain (mechanism_of mechanism) w
        ]

    -- One round of the loop over the terms.
    unfoldable pub term_step : Text → Text → TermKind → Option Text → Walk → Option TermStep
    unfolding match_mechanism after_mechanism note_unsupported term_uses_macro
    term_step domain term (redirect_term target) redirect w =
        if is_report mode && term_uses_macro target
        then some (next redirect (note_unsupported term domain macro_term w))
        else some (next (some target) w)
    term_step domain term modifier_term redirect w = some (next redirect w)
    term_step domain term (mechanism_term q mechanism) redirect w = do
      r ← match_mechanism mechanism domain w
      some (after_mechanism q redirect r)

    unfoldable pub follow_redirect : Option Text → Walk → Option (SpfResult × Walk)
    unfolding spend_lookup
    follow_redirect none w = some (neutral, w)
    follow_redirect (some target) w =
        let (granted, w') = spend_lookup w in
        if granted then check target w' else some (perm_error, w')

    unfoldable pub walk_terms : Text → List Text → Option Text → Walk → Option (SpfResult × Walk)
    unfolding term_step follow_redirect term_kind
    walk_terms domain [] redirect w = follow_redirect redirect w
    walk_terms domain (term ∷ terms) redirect w =
        term_step domain term (term_kind term) redirect w >>= λ st. elim st [
          | next redirect' w' ↦ walk_terms domain terms redirect' w'
          | stop result w' ↦ some (result, w')
        ]

    unfoldable pub walk_record : Text → Fetched × Walk → Option (SpfResult × Walk)
    unfolding walk_terms split_whitespace
    walk_record domain (found r, w) = walk_terms domain (drop 1 (split_whitespace r)) none w
    walk_record domain (missing, w) = some (no_policy, w)
    walk_record domain (failed result, w) = some (result, w)

  unfoldable pub check_host : ℕ → Text → Walk → Option (SpfResult × Walk)
  unfolding walk_record fetch_spf_record
  check_host zero domain w = none
  check_host (suc fuel) domain w = walk_record (check_host fuel) domain (fetch_spf_record domain w)

  -- Each call of `check_host` by itself spends a lookup: one more round than lookups is enough fuel.
  unfoldable pub run_check : Text → Option (SpfResult × Walk)
  unfolding check_host start
  run_check domain = check_host (suc max_dns_lookups) domain start

module _ {Ip Net : Type 0} (nets : Nets Ip Net) (resolver : SpfResolver Ip) where
  unfoldable pub evaluate : Text → Ip → Option SpfResult
  unfolding trim
  evaluate domain ip =
      if is_empty (trim domain)
      then some no_policy
      else map_option (λ (r : SpfResult × Walk). r.0) (run_check nets resolver lenient ip domain)

  unfoldable pub verdict_of : SpfResult → Option UnsupportedTerm → SpfVerdict
  verdict_of pass blocked = determined pass
  verdict_of result (some term) = unverifiable term
  verdict_of result none = determined result

  unfoldable pub evaluate_verifiable : Text → Ip → Option SpfVerdict
  unfolding verdict_of trim
  evaluate_verifiable domain ip =
      if is_empty (trim domain)
      then some (determined no_policy)
      else map_option (λ (r : SpfResult × Walk). verdict_of r.0 r.1.blocked)
          (run_check nets resolver report ip domain)
