-- ===== src/Spf/Verdict.antt =====
-- The two modes of the SPF evaluator agree wherever the reporting one met no term that it cannot
-- resolve.
use camelmailer.Base.{
  ℕ, zero, suc, ◌+◌, ◌-◌, ◌≡◌, ◌≢◌, refl, sym, ap, ◌∙◌, Option, none, some, List, [], ◌∷◌, arith,
  OnSome, inl, inr, if_both, ltb, Bool-cases, length, drop, ◌>>=◌, is_empty, map_option,
}
use camelmailer.Text.{Text, codes, trim}
use camelmailer.Spf.{
  SpfResult, pass, lenient, report, MechanismOutcome, matched, no_match, error, SpfResolver, Nets,
  UnsupportedKind, macro_term, determined, UnsupportedTerm,
}
use camelmailer.Spf.Term.{
  Mechanism, all_mechanism, ip_mechanism, a_mechanism, mx_mechanism, include_mechanism,
  other_mechanism, mechanism_of, unsupported_kind, TermKind, redirect_term, modifier_term,
  mechanism_term, term_kind, term_uses_macro, split_whitespace, parse_domain_spec,
}
use camelmailer.Spf.Eval.{
  Walk, start, ask, spend_lookup, note_unsupported, Fetched, found, missing, failed, TermStep, next,
  stop, after_mechanism, fetch_spf_record, match_a, match_hosts, match_exchanges, match_mx,
  match_include, match_supported, match_mechanism, term_step, follow_redirect, walk_terms,
  walk_record, check_host, run_check, evaluate, evaluate_verifiable, verdict_of, include_outcome,
  addresses_outcome,
}

-- A part of the reporting walk against the same part of the lenient one: where the first ends with no
-- term noted, none was noted before it, and the second ends the same way.
abbrev Agrees {ℓ} : {A : Type ℓ} → (A → Walk) → Walk → Option A → Option A → Type ℓ
Agrees {A = A} walk w reporting lenient_one =
    OnSome (λ (a : A). (walk a).blocked ≡ none → (w.blocked ≡ none) × (lenient_one ≡ some a))
      reporting

Agrees->>= {ℓ} :
    {A B : Type ℓ} (walk_a : A → Walk) (walk_b : B → Walk) (w : Walk) (r l : Option A)
    (f g : A → Option B)
    → Agrees walk_a w r l
    → ((a : A) → Agrees walk_b (walk_a a) (f a) (g a))
    → Agrees walk_b w (r >>= f) (l >>= g)
Agrees->>= {A = A} {B = B} walk_a walk_b w none l f g h k = tt
Agrees->>= {A = A} {B = B} walk_a walk_b w (some a) l f g h k = joined (f a) (k a)
  where
    joined : (o : Option B) → Agrees walk_b (walk_a a) o (g a) → Agrees walk_b w o (l >>= g)
    joined none q = tt
    joined (some b) q =
        λ e. (let s = q e in let t = h s.0 in (t.0, ap (λ (o : Option A). o >>= g) t.1 ∙ s.1))

-- A part that does the same in both modes, and notes no term.
same {ℓ} :
    {A : Type ℓ} (walk : A → Walk) (w : Walk) (a b : A)
    → (walk a).blocked ≡ w.blocked
    → b ≡ a
    → Agrees walk w (some a) (some b)
same walk w a b h e = λ k. (sym h ∙ k, ap some e)

abbrev step_walk : TermStep → Walk
step_walk (next r w) = w
step_walk (stop r w) = w

note_unsupported-ne-none :
    (term domain : Text) (k : UnsupportedKind) (w : Walk)
    → (note_unsupported term domain k w).blocked ≢ none
unfolding note_unsupported
note_unsupported-ne-none term domain k w = λ e. ground arith

module _ {Ip Net : Type 0} (nets : Nets Ip Net) (resolver : SpfResolver Ip) (ip : Ip) where
  match_a-blocked :
      (mechanism domain : Text) (w : Walk)
      → (match_a nets resolver report ip mechanism domain w).1.blocked ≡ w.blocked
  unfolding match_a
  match_a-blocked mechanism domain w = ground arith

  match_hosts-modes :
      (cidr : Option ℕ) (hosts : List Text) (w : Walk)
      → ((match_hosts nets resolver report ip cidr hosts w).1.blocked ≡ w.blocked)
        × (match_hosts nets resolver lenient ip cidr hosts w
            ≡ match_hosts nets resolver report ip cidr hosts w)
  unfolding match_hosts
  match_hosts-modes cidr [] w = (refl, refl)
  match_hosts-modes cidr (h ∷ hosts) w =
      outcome (addresses_outcome nets resolver report ip cidr (resolver.ip_addresses h))
        (match_hosts-modes cidr hosts (ask w))
    where
      outcome :
          (o : MechanismOutcome)
          → ((match_hosts nets resolver report ip cidr hosts (ask w)).1.blocked ≡ (ask w).blocked)
            × (match_hosts nets resolver lenient ip cidr hosts (ask w)
                ≡ match_hosts nets resolver report ip cidr hosts (ask w))
          → ((elim o as (λ _. MechanismOutcome × Walk) [
            | matched ↦ (matched, ask w)
            | error result ↦ (error result, ask w)
            | no_match ↦ match_hosts nets resolver report ip cidr hosts (ask w)
          ]).1.blocked
              ≡ w.blocked)
            × ((elim o as (λ _. MechanismOutcome × Walk) [
              | matched ↦ (matched, ask w)
              | error result ↦ (error result, ask w)
              | no_match ↦ match_hosts nets resolver lenient ip cidr hosts (ask w)
            ])
                ≡ (elim o as (λ _. MechanismOutcome × Walk) [
                  | matched ↦ (matched, ask w)
                  | error result ↦ (error result, ask w)
                  | no_match ↦ match_hosts nets resolver report ip cidr hosts (ask w)
                ]))
      outcome matched h = unfold ask in (refl, refl)
      outcome (error r) h = unfold ask in (refl, refl)
      outcome no_match h = unfold ask in h

  match_exchanges-modes :
      (cidr : Option ℕ) (o : Option (List Text)) (w : Walk)
      → ((match_exchanges nets resolver report ip cidr o w).1.blocked ≡ w.blocked)
        × (match_exchanges nets resolver lenient ip cidr o w
            ≡ match_exchanges nets resolver report ip cidr o w)
  unfolding match_exchanges
  match_exchanges-modes cidr none w = (refl, refl)
  match_exchanges-modes cidr (some hosts) w = elim (Bool-cases (ltb 10 (length hosts))) [
    | inl e ↦ rw e (refl, refl)
    | inr e ↦ rw e (match_hosts-modes cidr hosts w)
  ]

  match_mx-modes :
      (mechanism domain : Text) (w : Walk)
      → ((match_mx nets resolver report ip mechanism domain w).1.blocked ≡ w.blocked)
        × (match_mx nets resolver lenient ip mechanism domain w
            ≡ match_mx nets resolver report ip mechanism domain w)
  unfolding match_mx spend_lookup ask
  match_mx-modes mechanism domain w = elim (Bool-cases (ltb 0 w.budget)) [
    | inr e ↦ rw e (refl, refl)
    | inl e ↦ rw e (
        match_exchanges-modes (parse_domain_spec mechanism (codes "mx") domain).1
          (resolver.mx_hosts (parse_domain_spec mechanism (codes "mx") domain).0)
          (record w { budget = w.budget - 1; asked = w.asked + 1 }))
  ]

  abbrev Check : Type 0
  Check = Text → Walk → Option (SpfResult × Walk)

  module _ (reporting lenient_one : Check)
      (agree : (domain : Text) (w : Walk)
        → Agrees (λ r. r.1) w (reporting domain w) (lenient_one domain w)) where
    match_include-Agrees :
        (target : Text) (w : Walk)
        → Agrees
            (λ r. r.1)
            w
            (match_include nets resolver report ip reporting target w)
            (match_include nets resolver lenient ip lenient_one target w)
    unfolding match_include spend_lookup
    match_include-Agrees target w = elim (Bool-cases (ltb 0 w.budget)) [
      | inr e ↦ rw e (λ k. (k, refl))
      | inl e ↦ rw e (
          Agrees->>= (λ (r : SpfResult × Walk). r.1) (λ (r : MechanismOutcome × Walk). r.1) w
            (reporting target (record w { budget = w.budget - 1 }))
            (lenient_one target (record w { budget = w.budget - 1 }))
            (λ r. some (include_outcome r.0, r.1)) (λ r. some (include_outcome r.0, r.1))
            (agree target (record w { budget = w.budget - 1 })) (λ r k. (k, refl)))
    ]

    follow_redirect-Agrees :
        (redirect : Option Text) (w : Walk)
        → Agrees
            (λ r. r.1)
            w
            (follow_redirect nets resolver report ip reporting redirect w)
            (follow_redirect nets resolver lenient ip lenient_one redirect w)
    unfolding follow_redirect spend_lookup
    follow_redirect-Agrees none w = λ k. (k, refl)
    follow_redirect-Agrees (some target) w = elim (Bool-cases (ltb 0 w.budget)) [
      | inr e ↦ rw e (λ k. (k, refl))
      | inl e ↦ rw e (agree target (record w { budget = w.budget - 1 }))
    ]

    match_supported-Agrees :
        (mechanism domain : Text) (m : Mechanism) (w : Walk)
        → Agrees
            (λ r. r.1)
            w
            (match_supported nets resolver report ip reporting mechanism domain m w)
            (match_supported nets resolver lenient ip lenient_one mechanism domain m w)
    unfolding match_supported
    match_supported-Agrees mechanism domain all_mechanism w = λ k. (k, refl)
    match_supported-Agrees mechanism domain (ip_mechanism rest) w = λ k. (k, refl)
    match_supported-Agrees mechanism domain a_mechanism w =
        same (λ (r : MechanismOutcome × Walk). r.1) w
          (match_a nets resolver report ip mechanism domain w)
          (match_a nets resolver lenient ip mechanism domain w) (match_a-blocked mechanism domain w)
          (unfold match_a in refl)
    match_supported-Agrees mechanism domain mx_mechanism w =
        same (λ (r : MechanismOutcome × Walk). r.1) w
          (match_mx nets resolver report ip mechanism domain w)
          (match_mx nets resolver lenient ip mechanism domain w)
          (match_mx-modes mechanism domain w).0 (match_mx-modes mechanism domain w).1
    match_supported-Agrees mechanism domain (include_mechanism target) w =
        match_include-Agrees target w
    match_supported-Agrees mechanism domain other_mechanism w = λ k. (k, refl)

    match_mechanism-Agrees :
        (mechanism domain : Text) (w : Walk)
        → Agrees
            (λ r. r.1)
            w
            (match_mechanism nets resolver report ip reporting mechanism domain w)
            (match_mechanism nets resolver lenient ip lenient_one mechanism domain w)
    unfolding match_mechanism
    match_mechanism-Agrees mechanism domain w = kind (unsupported_kind mechanism)
      where
        kind :
            (o : Option UnsupportedKind)
            → Agrees
                (λ (r : MechanismOutcome × Walk). r.1)
                w
                (elim o as (λ _. Option (MechanismOutcome × Walk)) [
                  | some kind ↦ some (no_match, note_unsupported mechanism domain kind w)
                  | none ↦
                      match_supported nets resolver report ip reporting mechanism domain
                        (mechanism_of mechanism)
                        w
                ])
                (match_supported nets resolver lenient ip lenient_one mechanism domain
                  (mechanism_of mechanism)
                  w)
        kind none = match_supported-Agrees mechanism domain (mechanism_of mechanism) w
        kind (some k) = λ e. absurd (note_unsupported-ne-none mechanism domain k w e)

    after_mechanism_walk :
        (q : ℕ) (redirect : Option Text) (r : MechanismOutcome × Walk)
        → step_walk (after_mechanism q redirect r) ≡ r.1
    unfolding after_mechanism
    after_mechanism_walk q redirect (matched, w) = refl
    after_mechanism_walk q redirect (no_match, w) = refl
    after_mechanism_walk q redirect (error e, w) = refl

    term_step-Agrees :
        (domain term : Text) (t : TermKind) (redirect : Option Text) (w : Walk)
        → Agrees step_walk w
            (term_step nets resolver report ip reporting domain term t redirect w)
            (term_step nets resolver lenient ip lenient_one domain term t redirect w)
    unfolding term_step
    term_step-Agrees domain term (redirect_term target) redirect w =
        if_both (λ o. Agrees step_walk w o (some (next (some target) w))) (term_uses_macro target)
          (λ _ e. absurd (note_unsupported-ne-none term domain macro_term w e)) (λ _ k. (k, refl))
    term_step-Agrees domain term modifier_term redirect w = λ k. (k, refl)
    term_step-Agrees domain term (mechanism_term q mechanism) redirect w =
        Agrees->>= (λ (r : MechanismOutcome × Walk). r.1) step_walk w
          (match_mechanism nets resolver report ip reporting mechanism domain w)
          (match_mechanism nets resolver lenient ip lenient_one mechanism domain w)
          (λ r. some (after_mechanism q redirect r)) (λ r. some (after_mechanism q redirect r))
          (match_mechanism-Agrees mechanism domain w)
          (λ r k.
            (sym (ap (λ (x : Walk). x.blocked) (after_mechanism_walk q redirect r)) ∙ k, refl))

    walk_terms-Agrees :
        (domain : Text) (terms : List Text) (redirect : Option Text) (w : Walk)
        → Agrees
            (λ r. r.1)
            w
            (walk_terms nets resolver report ip reporting domain terms redirect w)
            (walk_terms nets resolver lenient ip lenient_one domain terms redirect w)
    unfolding walk_terms
    walk_terms-Agrees domain [] redirect w = follow_redirect-Agrees redirect w
    walk_terms-Agrees domain (term ∷ terms) redirect w =
        Agrees->>= step_walk (λ (r : SpfResult × Walk). r.1) w
          (term_step nets resolver report ip reporting domain term (term_kind term) redirect w)
          (term_step nets resolver lenient ip lenient_one domain term (term_kind term) redirect w)
          (λ st. elim st [
            | next redirect' w' ↦
                walk_terms nets resolver report ip reporting domain terms redirect' w'
            | stop result w' ↦ some (result, w')
          ])
          (λ st. elim st [
            | next redirect' w' ↦
                walk_terms nets resolver lenient ip lenient_one domain terms redirect' w'
            | stop result w' ↦ some (result, w')
          ])
          (term_step-Agrees domain term (term_kind term) redirect w)
          (go_on (λ r w'. walk_terms-Agrees domain terms r w'))
      where
        go_on :
            ((r : Option Text) (w' : Walk)
              → Agrees
                  (λ x. x.1)
                  w'
                  (walk_terms nets resolver report ip reporting domain terms r w')
                  (walk_terms nets resolver lenient ip lenient_one domain terms r w'))
            → (st : TermStep)
            → Agrees
                (λ (r : SpfResult × Walk). r.1)
                (step_walk st)
                (elim st as (λ _. Option (SpfResult × Walk)) [
                  | next redirect' w' ↦
                      walk_terms nets resolver report ip reporting domain terms redirect' w'
                  | stop result w' ↦ some (result, w')
                ])
                (elim st as (λ _. Option (SpfResult × Walk)) [
                  | next redirect' w' ↦
                      walk_terms nets resolver lenient ip lenient_one domain terms redirect' w'
                  | stop result w' ↦ some (result, w')
                ])
        go_on ih (next r w') = ih r w'
        go_on ih (stop result w') = λ k. (k, refl)

    walk_record-Agrees :
        (domain : Text) (f : Fetched) (w : Walk)
        → Agrees
            (λ r. r.1)
            w
            (walk_record nets resolver report ip reporting domain (f, w))
            (walk_record nets resolver lenient ip lenient_one domain (f, w))
    unfolding walk_record
    walk_record-Agrees domain (found r) w =
        walk_terms-Agrees domain (drop 1 (split_whitespace r)) none w
    walk_record-Agrees domain missing w = λ k. (k, refl)
    walk_record-Agrees domain (failed e) w = λ k. (k, refl)

  check_host-Agrees :
      (n : ℕ) (domain : Text) (w : Walk)
      → Agrees
          (λ r. r.1)
          w
          (check_host nets resolver report ip n domain w)
          (check_host nets resolver lenient ip n domain w)
  unfolding check_host fetch_spf_record ask
  check_host-Agrees zero domain w = tt
  check_host-Agrees (suc n) domain w =
      walk_record-Agrees (check_host nets resolver report ip n)
        (check_host nets resolver lenient ip n) (check_host-Agrees n) domain
        (fetch_spf_record nets resolver report ip domain w).0 (ask w)

  run_check-Agrees :
      (domain : Text)
      → Agrees
          (λ r. r.1)
          start
          (run_check nets resolver report ip domain)
          (run_check nets resolver lenient ip domain)
  unfolding run_check
  run_check-Agrees domain = check_host-Agrees 11 domain start

  determined_result :
      (r result : SpfResult) (b : Option UnsupportedTerm)
      → verdict_of nets resolver r b ≡ determined result
      → result ≢ pass
      → (b ≡ none) × (r ≡ result)
  unfolding verdict_of
  determined_result pass result b e ne = absurd (ne (cc e))
  determined_result r result none e ne = (refl, cc)
  determined_result r result (some t) e ne = cc

  verdict_sound :
      (o l : Option (SpfResult × Walk)) (result : SpfResult)
      → Agrees (λ r. r.1) start o l
      → result ≢ pass
      → map_option (λ (r : SpfResult × Walk). verdict_of nets resolver r.0 r.1.blocked) o
        ≡ some (determined result)
      → map_option (λ (r : SpfResult × Walk). r.0) l ≡ some result
  verdict_sound none l result h ne e = cc
  verdict_sound (some (r, w)) l result h ne e =
      let d = determined_result r result w.blocked (cc e) ne in rw ((h d.0).1) (ap some d.1)

  -- A determined verdict other than pass is what the receive path stamps: `evaluate` gives the same
  -- result for the domain and the address.
  pub evaluate_verifiable-evaluate :
      (domain : Text) (result : SpfResult)
      → result ≢ pass
      → evaluate_verifiable nets resolver domain ip ≡ some (determined result)
      → evaluate nets resolver domain ip ≡ some result
  unfolding evaluate_verifiable evaluate
  evaluate_verifiable-evaluate domain result ne e = elim (Bool-cases (is_empty (trim domain))) [
    | inl b ↦ rw b (let f = rw b at e in cc f)
    | inr b ↦ rw b (
        verdict_sound (run_check nets resolver report ip domain)
          (run_check nets resolver lenient ip domain) result (run_check-Agrees domain) ne
          (rw b at e))
  ]
