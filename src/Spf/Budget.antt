-- ===== src/Spf/Budget.antt =====
-- The bounds of an SPF evaluation: it ends, and it asks the resolver a bounded number of questions,
-- whatever the records say.
use camelmailer.Base.{
  ℕ, zero, suc, ◌+◌, ◌*◌, ◌-◌, ◌≤◌, ◌<◌, ◌≡◌, refl, Option, none, some, List, [], ◌∷◌, arith,
  Yields, Yields->>=, inl, inr, ◌&&◌, if_both, ltb, ltb→lt, if◌then◌else◌, Bool-cases, length, drop,
}
use camelmailer.Text.{Text, codes}
use camelmailer.Spf.{
  SpfResult, MacroMode, is_report, MechanismOutcome, matched, no_match, error, SpfResolver, Nets,
  UnsupportedKind, macro_term,
}
use camelmailer.Spf.Term.{
  Mechanism, all_mechanism, ip_mechanism, a_mechanism, mx_mechanism, include_mechanism,
  other_mechanism, mechanism_of, unsupported_kind, TermKind, redirect_term, modifier_term,
  mechanism_term, term_kind, parse_domain_spec, term_uses_macro, split_whitespace,
}
use camelmailer.Spf.Eval.{
  Walk, start, ask, spend_lookup, note_unsupported, Fetched, found, missing, failed, TermStep, next,
  stop, after_mechanism, fetch_spf_record, match_a, match_hosts, match_exchanges, match_mx,
  match_include, match_supported, match_mechanism, term_step, follow_redirect, walk_terms,
  walk_record, check_host, run_check, addresses_outcome, include_outcome,
}

-- A lookup pays for its own query and for those of ten exchanges.
abbrev credit : Walk → ℕ
credit w = w.asked + 11 * w.budget

-- What a part of the walk may do: spend lookups, and ask within its credit and `extra` questions.
abbrev Spends : ℕ → Walk → Walk → Type 0
Spends extra w w' = (w'.budget ≤ w.budget) × (credit w' ≤ credit w + extra)

abbrev step_walk : TermStep → Walk
step_walk (next r w) = w
step_walk (stop r w) = w

note_unsupported-Spends :
    (term domain : Text) (k : UnsupportedKind) (w : Walk)
    → Spends 0 w (note_unsupported term domain k w)
unfolding note_unsupported
note_unsupported-Spends term domain k w = ground arith

module _ {Ip Net : Type 0} (nets : Nets Ip Net) (resolver : SpfResolver Ip) (mode : MacroMode)
    (ip : Ip) where
  match_a-Spends :
      (mechanism domain : Text) (w : Walk)
      → Spends 0 w (match_a nets resolver mode ip mechanism domain w).1
  unfolding match_a
  match_a-Spends mechanism domain w = ground arith

  match_hosts_asks :
      (cidr : Option ℕ) (hosts : List Text) (w : Walk)
      → ((match_hosts nets resolver mode ip cidr hosts w).1.budget ≡ w.budget)
        × ((match_hosts nets resolver mode ip cidr hosts w).1.asked ≤ w.asked + length hosts)
  unfolding match_hosts
  match_hosts_asks cidr [] w = omega arith
  match_hosts_asks cidr (h ∷ hosts) w =
      outcome (addresses_outcome nets resolver mode ip cidr (resolver.ip_addresses h))
        (match_hosts_asks cidr hosts (ask w))
    where
      outcome :
          (o : MechanismOutcome)
          → ((match_hosts nets resolver mode ip cidr hosts (ask w)).1.budget ≡ (ask w).budget)
            × ((match_hosts nets resolver mode ip cidr hosts (ask w)).1.asked
                ≤ (ask w).asked + length hosts)
          → ((elim o as (λ _. MechanismOutcome × Walk) [
            | matched ↦ (matched, ask w)
            | error result ↦ (error result, ask w)
            | no_match ↦ match_hosts nets resolver mode ip cidr hosts (ask w)
          ]).1.budget
              ≡ w.budget)
            × ((elim o as (λ _. MechanismOutcome × Walk) [
              | matched ↦ (matched, ask w)
              | error result ↦ (error result, ask w)
              | no_match ↦ match_hosts nets resolver mode ip cidr hosts (ask w)
            ]).1.asked
                ≤ w.asked + suc (length hosts))
      outcome matched h = unfold ask in omega arith
      outcome (error r) h = unfold ask in omega arith
      outcome no_match h = unfold ask in omega (arith, h)

  match_exchanges_asks :
      (cidr : Option ℕ) (o : Option (List Text)) (w : Walk)
      → ((match_exchanges nets resolver mode ip cidr o w).1.budget ≡ w.budget)
        × ((match_exchanges nets resolver mode ip cidr o w).1.asked ≤ w.asked + 10)
  unfolding match_exchanges
  match_exchanges_asks cidr none w = omega arith
  match_exchanges_asks cidr (some hosts) w = ground (arith, match_hosts_asks cidr hosts w)

  match_mx-Spends :
      (mechanism domain : Text) (w : Walk)
      → Spends 0 w (match_mx nets resolver mode ip mechanism domain w).1
  unfolding match_mx ask spend_lookup
  match_mx-Spends mechanism domain w = ground (
    arith,
    match_exchanges_asks (parse_domain_spec mechanism (codes "mx") domain).1
        (resolver.mx_hosts (parse_domain_spec mechanism (codes "mx") domain).0)
        (record w { budget = w.budget - 1; asked = w.asked + 1 }),
  )

  -- `check` ends on less than `n` lookups, with at most one question that no lookup pays for.
  abbrev Ends : ℕ → (Text → Walk → Option (SpfResult × Walk)) → Type 0
  Ends n check =
      (domain : Text) (w : Walk) → w.budget < n → Yields (λ r. Spends 1 w r.1) (check domain w)

  module _ (n : ℕ) (check : Text → Walk → Option (SpfResult × Walk)) (ends : Ends n check) where
    match_include_ends :
        (target : Text) (w : Walk)
        → w.budget < suc n
        → Yields (λ r. Spends 0 w r.1) (match_include nets resolver mode ip check target w)
    unfolding match_include spend_lookup
    match_include_ends target w h = elim (Bool-cases (ltb 0 w.budget)) [
      | inr e ↦ rw e (omega arith)
      | inl e ↦ rw e (
          Yields->>= (λ (r : SpfResult × Walk). Spends 1 (record w { budget = w.budget - 1 }) r.1)
            (λ (r : MechanismOutcome × Walk). Spends 0 w r.1)
            (check target (record w { budget = w.budget - 1 }))
            (λ r. some (include_outcome r.0, r.1))
            (ends target (record w { budget = w.budget - 1 }) (omega (arith, ltb→lt)))
            (λ r k. omega (arith, ltb→lt)))
    ]

    follow_redirect_ends :
        (redirect : Option Text) (w : Walk)
        → w.budget < suc n
        → Yields (λ r. Spends 0 w r.1) (follow_redirect nets resolver mode ip check redirect w)
    unfolding follow_redirect spend_lookup
    follow_redirect_ends none w h = omega arith
    follow_redirect_ends (some target) w h = elim (Bool-cases (ltb 0 w.budget)) [
      | inr e ↦ rw e (omega arith)
      | inl e ↦ rw e (
          paid (check target (record w { budget = w.budget - 1 })) (ltb→lt 0 w.budget e)
            (ends target (record w { budget = w.budget - 1 }) (omega (arith, ltb→lt))))
    ]
      where
        paid :
            (o : Option (SpfResult × Walk))
            → 0 < w.budget
            → Yields (λ r. Spends 1 (record w { budget = w.budget - 1 }) r.1) o
            → Yields (λ r. Spends 0 w r.1) o
        paid none p k = k
        paid (some r) p k = omega arith

    match_supported_ends :
        (mechanism domain : Text) (m : Mechanism) (w : Walk)
        → w.budget < suc n
        → Yields
            (λ r. Spends 0 w r.1)
            (match_supported nets resolver mode ip check mechanism domain m w)
    unfolding match_supported
    match_supported_ends mechanism domain all_mechanism w h = omega arith
    match_supported_ends mechanism domain (ip_mechanism rest) w h = omega arith
    match_supported_ends mechanism domain a_mechanism w h = match_a-Spends mechanism domain w
    match_supported_ends mechanism domain mx_mechanism w h = match_mx-Spends mechanism domain w
    match_supported_ends mechanism domain (include_mechanism target) w h =
        match_include_ends target w h
    match_supported_ends mechanism domain other_mechanism w h = omega arith

    match_mechanism_ends :
        (mechanism domain : Text) (w : Walk)
        → w.budget < suc n
        → Yields
            (λ r. Spends 0 w r.1)
            (match_mechanism nets resolver mode ip check mechanism domain w)
    unfolding match_mechanism
    match_mechanism_ends mechanism domain w h =
        kind (if is_report mode then unsupported_kind mechanism else none)
      where
        kind :
            (o : Option UnsupportedKind)
            → Yields
                (λ (r : MechanismOutcome × Walk). Spends 0 w r.1)
                (elim o as (λ _. Option (MechanismOutcome × Walk)) [
                  | some kind ↦ some (no_match, note_unsupported mechanism domain kind w)
                  | none ↦
                      match_supported nets resolver mode ip check mechanism domain
                        (mechanism_of mechanism)
                        w
                ])
        kind none = match_supported_ends mechanism domain (mechanism_of mechanism) w h
        kind (some k) = note_unsupported-Spends mechanism domain k w

    after_mechanism_walk :
        (q : ℕ) (redirect : Option Text) (r : MechanismOutcome × Walk)
        → step_walk (after_mechanism q redirect r) ≡ r.1
    unfolding after_mechanism
    after_mechanism_walk q redirect (matched, w) = refl
    after_mechanism_walk q redirect (no_match, w) = refl
    after_mechanism_walk q redirect (error e, w) = refl

    term_step_ends :
        (domain term : Text) (t : TermKind) (redirect : Option Text) (w : Walk)
        → w.budget < suc n
        → Yields
            (λ st. Spends 0 w (step_walk st))
            (term_step nets resolver mode ip check domain term t redirect w)
    unfolding term_step
    term_step_ends domain term (redirect_term target) redirect w h =
        if_both (Yields (λ st. Spends 0 w (step_walk st)))
          (is_report mode && term_uses_macro target)
          (λ _. note_unsupported-Spends term domain macro_term w) (λ _. omega arith)
    term_step_ends domain term modifier_term redirect w h = omega arith
    term_step_ends domain term (mechanism_term q mechanism) redirect w h =
        Yields->>= (λ (r : MechanismOutcome × Walk). Spends 0 w r.1)
          (λ st. Spends 0 w (step_walk st))
          (match_mechanism nets resolver mode ip check mechanism domain w)
          (λ r. some (after_mechanism q redirect r)) (match_mechanism_ends mechanism domain w h)
          (λ r k. rw (after_mechanism_walk q redirect r) k)

    walk_terms_ends :
        (domain : Text) (terms : List Text) (redirect : Option Text) (w : Walk)
        → w.budget < suc n
        → Yields
            (λ r. Spends 0 w r.1)
            (walk_terms nets resolver mode ip check domain terms redirect w)
    unfolding walk_terms
    walk_terms_ends domain [] redirect w h = follow_redirect_ends redirect w h
    walk_terms_ends domain (term ∷ terms) redirect w h =
        Yields->>= (λ (st : TermStep). Spends 0 w (step_walk st))
          (λ (r : SpfResult × Walk). Spends 0 w r.1)
          (term_step nets resolver mode ip check domain term (term_kind term) redirect w)
          (λ st. elim st [
            | next redirect' w' ↦ walk_terms nets resolver mode ip check domain terms redirect' w'
            | stop result w' ↦ some (result, w')
          ])
          (term_step_ends domain term (term_kind term) redirect w h)
          (go_on (λ r w'. walk_terms_ends domain terms r w'))
      where
        onward :
            (w' : Walk) (o : Option (SpfResult × Walk))
            → Spends 0 w w'
            → Yields (λ r. Spends 0 w' r.1) o
            → Yields (λ r. Spends 0 w r.1) o
        onward w' none p k = k
        onward w' (some r) p k = omega arith

        go_on :
            ((r : Option Text) (w' : Walk)
              → w'.budget < suc n
              → Yields
                  (λ x. Spends 0 w' x.1)
                  (walk_terms nets resolver mode ip check domain terms r w'))
            → (st : TermStep) → Spends 0 w (step_walk st)
            → Yields
                (λ (r : SpfResult × Walk). Spends 0 w r.1)
                (elim st as (λ _. Option (SpfResult × Walk)) [
                  | next redirect' w' ↦
                      walk_terms nets resolver mode ip check domain terms redirect' w'
                  | stop result w' ↦ some (result, w')
                ])
        go_on ih (next r w') p =
            onward w' (walk_terms nets resolver mode ip check domain terms r w') p
              (ih r w' (omega arith))
        go_on ih (stop result w') p = p

  walk_record-Ends :
      (n : ℕ) (check : Text → Walk → Option (SpfResult × Walk))
      → Ends n check
      → (domain : Text) (f : Fetched) (w : Walk) → w.budget < suc n
      → Yields (λ r. Spends 0 w r.1) (walk_record nets resolver mode ip check domain (f, w))
  unfolding walk_record
  walk_record-Ends n check ends domain (found r) w h =
      walk_terms_ends n check ends domain (drop 1 (split_whitespace r)) none w h
  walk_record-Ends n check ends domain missing w h = omega arith
  walk_record-Ends n check ends domain (failed e) w h = omega arith

  check_host-Ends : (n : ℕ) → Ends n (check_host nets resolver mode ip n)
  unfolding check_host fetch_spf_record ask
  check_host-Ends zero domain w h = absurd (omega arith)
  check_host-Ends (suc n) domain w h =
      asked_first
        (walk_record nets resolver mode ip (check_host nets resolver mode ip n) domain
          (fetch_spf_record nets resolver mode ip domain w))
        (walk_record-Ends n (check_host nets resolver mode ip n) (check_host-Ends n) domain
          (fetch_spf_record nets resolver mode ip domain w).0 (ask w) h)
    where
      asked_first :
          (o : Option (SpfResult × Walk))
          → Yields (λ r. Spends 0 (ask w) r.1) o
          → Yields (λ r. Spends 1 w r.1) o
      asked_first none k = k
      asked_first (some r) k = omega arith

  -- An evaluation ends: it has a result on the fuel given, whatever the records refer to. And it
  -- asks the resolver at most 111 questions: the record of the domain, and for each of the ten
  -- lookups one question and the addresses of ten exchanges.
  pub run_check_bounded :
      (domain : Text) → Yields (λ r. r.1.asked ≤ 111) (run_check nets resolver mode ip domain)
  unfolding run_check start
  run_check_bounded domain =
      bounded (check_host nets resolver mode ip 11 domain start)
        (check_host-Ends 11 domain start (omega arith))
    where
      bounded :
          (o : Option (SpfResult × Walk))
          → Yields (λ r. Spends 1 start r.1) o
          → Yields (λ r. r.1.asked ≤ 111) o
      bounded none k = k
      bounded (some r) k = omega arith
