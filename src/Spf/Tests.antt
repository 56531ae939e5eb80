-- ===== src/Spf/Tests.antt =====
-- The SPF evaluator on a small zone.
use camelmailer.Base.{ℕ, ◌≤◌, ◌≡◌, refl, none, some, List, [], ◌∷◌, ◌==◌, if◌then◌else◌, Yields}
use camelmailer.Text.{Text, codes, text_eq}
use camelmailer.Spf.{
  pass, fail, perm_error, lenient, SpfResolver, Nets, determined, unverifiable, macro_term,
}
use camelmailer.Spf.Eval.{run_check, evaluate, evaluate_verifiable}
use camelmailer.Spf.Budget.{run_check_bounded}
use camelmailer.Spf.Verdict.{evaluate_verifiable-evaluate}

-- Addresses are numbers, and a network is one address.
abbrev hosts : Nets ℕ ℕ
hosts = record {
  ip_eq = λ a b. a == b;
  parse_ip = λ t. none;
  parse_net = λ t. if text_eq t (codes "192.0.2.1") then some 1 else none;
  new_net = λ a len. some a;
  contains = λ n a. n == a;
  show = λ a. codes "192.0.2.1";
}

abbrev zone : Text → List Text
zone name =
    if text_eq name (codes "a.de")
    then codes "v=spf1 include:b.de -all" ∷ codes "other" ∷ []
    else if text_eq name (codes "b.de")
    then codes "v=spf1 ip4:192.0.2.1 ~all" ∷ []
    else if text_eq name (codes "loop.de")
    then codes "v=spf1 include:loop.de" ∷ []
    else if text_eq name (codes "macro.de")
    then codes "v=spf1 include:%{ir}.x.de -all" ∷ []
    else []

abbrev small_zone : SpfResolver ℕ
small_zone = record {
  txt = λ name. some (zone name);
  ip_addresses = λ name. some [];
  mx_hosts = λ name. some [];
}

included_passes : evaluate hosts small_zone (codes "a.de") 1 ≡ some pass
unfolding evaluate camelmailer.Text.trim_end camelmailer.Text.trim_end_where
    camelmailer.Text.trim_start codes camelmailer.Text.is_whitespace run_check
included_passes = refl

others_fail : evaluate hosts small_zone (codes "a.de") 2 ≡ some fail
unfolding evaluate camelmailer.Text.trim_end camelmailer.Text.trim_end_where
    camelmailer.Text.trim_start codes camelmailer.Text.is_whitespace run_check
others_fail = refl

-- A record that includes itself runs out of lookups.
loop_is_error : evaluate hosts small_zone (codes "loop.de") 1 ≡ some perm_error
unfolding evaluate camelmailer.Text.trim_end camelmailer.Text.trim_end_where
    camelmailer.Text.trim_start codes camelmailer.Text.is_whitespace run_check
loop_is_error = refl

macro_unverifiable :
    evaluate_verifiable hosts small_zone (codes "macro.de") 1
    ≡ some (
        unverifiable (record {
          term = codes "include:%{ir}.x.de";
          domain = codes "macro.de";
          kind = macro_term;
        }))
unfolding evaluate_verifiable camelmailer.Text.trim_end camelmailer.Text.trim_end_where
    camelmailer.Text.trim_start codes camelmailer.Text.is_whitespace run_check
macro_unverifiable = refl

others_determined : evaluate_verifiable hosts small_zone (codes "a.de") 2 ≡ some (determined fail)
unfolding evaluate_verifiable camelmailer.Text.trim_end camelmailer.Text.trim_end_where
    camelmailer.Text.trim_start codes camelmailer.Text.is_whitespace run_check
others_determined = refl

run_check_bounded_loop :
    Yields (λ r. r.1.asked ≤ 111) (run_check hosts small_zone lenient 1 (codes "loop.de"))
run_check_bounded_loop = run_check_bounded hosts small_zone lenient 1 (codes "loop.de")

evaluate_verifiable-evaluate_others : evaluate hosts small_zone (codes "a.de") 2 ≡ some fail
evaluate_verifiable-evaluate_others =
    evaluate_verifiable-evaluate hosts small_zone 2 (codes "a.de") fail (λ e. cc e)
      others_determined
