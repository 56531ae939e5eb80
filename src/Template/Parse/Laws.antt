-- ===== src/Template/Parse/Laws.antt =====
-- Parsing a template ends, and what it accepts nests no deeper than the limit.
use camelmailer.Base.{
  ℕ, zero, suc, ◌+◌, ◌≤◌, ◌<◌, ◌≡◌, refl, Bool, true, false, Option, none, some, is_some, [], ◌∷◌,
  length, drop, arith, OnSome,
}
use camelmailer.Text.{Text, codes, trim, starts_with, strip_prefix}
use camelmailer.Template.{Result, ok, err, OnOk, OnOk->>=, nil}
use camelmailer.Template.Parse.{
  Parser, split_text, push_text, tag_step, raw_tag, plain_tag, any_tag, after_open, parse_loop,
  parse,
}

starts_with-drop :
    (s p : Text) → starts_with s p ≡ true → length p + length (drop (length p) s) ≤ length s
unfolding starts_with
starts_with-drop s [] h = omega arith
starts_with-drop [] (c ∷ p) h = cc
starts_with-drop (x ∷ s) (c ∷ p) h = ground (arith, starts_with-drop s p)

-- What stands behind a place is shorter than the text by what stands at it.
split_text-length : (p s : Text) → OnSome (λ r. length p + length r.1 ≤ length s) (split_text p s)
unfolding split_text
split_text-length [] [] = omega arith
split_text-length (c ∷ p) [] = tt
split_text-length p (x ∷ s) =
    place (starts_with (x ∷ s) p) refl (split_text p s) (split_text-length p s)
  where
    place :
        (b : Bool)
        → starts_with (x ∷ s) p ≡ b
        → (o : Option (Text × Text)) → OnSome (λ r. length p + length r.1 ≤ length s) o
        → OnSome
            (λ (r : Text × Text). length p + length r.1 ≤ suc (length s))
            (elim b as (λ _. Option (Text × Text)) [
              | true ↦ some ([], drop (length p) (x ∷ s))
              | false ↦ elim o as (λ _. Option (Text × Text)) [
                | none ↦ none
                | some (a, b) ↦ some (x ∷ a, b)
              ]
            ])
    place true e o h = starts_with-drop (x ∷ s) p e
    place false e none h = tt
    place false e (some (a, b)) h = omega arith

strip_prefix-length : (s p : Text) → OnSome (λ r. length r ≤ length s) (strip_prefix s p)
unfolding strip_prefix
strip_prefix-length s [] = omega arith
strip_prefix-length [] (c ∷ p) = tt
strip_prefix-length (x ∷ s) (c ∷ p) = ground (arith, strip_prefix-length s p)

raw_tag-length :
    (n : ℕ) (p : Parser) (o : Option (Text × Text))
    → OnSome (λ r. 3 + length r.1 ≤ n) o
    → OnOk (λ r. length r.0 ≤ n) (raw_tag p o)
unfolding raw_tag
raw_tag-length n p none h = tt
raw_tag-length n p (some r) h = omega arith

plain_tag-length :
    (n : ℕ) (p : Parser) (o : Option (Text × Text))
    → OnSome (λ r. 2 + length r.1 ≤ n) o
    → OnOk (λ r. length r.0 ≤ n) (plain_tag p o)
unfolding plain_tag
plain_tag-length n p none h = tt
plain_tag-length n p (some (tag, rest)) h =
    OnOk->>= (λ (_ : Parser). Unit {0}) (λ (r : Text × Parser). length r.0 ≤ n)
      (tag_step (trim tag) p) (λ p'. ok (rest, p')) (always (tag_step (trim tag) p))
      (λ p' _. omega arith)
  where
    always : (r : Result Parser) → OnOk (λ _. Unit {0}) r
    always (ok a) = tt
    always (err e) = tt

after_open-length :
    (after : Text) (p : Parser) → OnOk (λ r. length r.0 ≤ length after) (after_open after p)
unfolding after_open codes
after_open-length after p =
    braces (strip_prefix after (codes "{")) (strip_prefix-length after (codes "{"))
  where
    shorter :
        (triple : Text) (r : Result (Text × Parser))
        → length triple ≤ length after
        → OnOk (λ r. length r.0 ≤ length triple) r
        → OnOk (λ r. length r.0 ≤ length after) r
    shorter triple (ok a) h k = omega arith
    shorter triple (err e) h k = tt

    braces :
        (o : Option Text)
        → OnSome (λ r. length r ≤ length after) o
        → OnOk (λ r. length r.0 ≤ length after) (any_tag after p o)
    braces none h =
        plain_tag-length (length after) p (split_text (codes "}}") after)
          (split_text-length (codes "}}") after)
    braces (some triple) h = shorter triple (raw_tag p (split_text (codes "}}}") triple)) h (
        raw_tag-length (length triple) p (split_text (codes "}}}") triple)
          (split_text-length (codes "}}}") triple))

parse_loop_total :
    (fuel : ℕ) (rest : Text) (p : Parser)
    → length rest < fuel
    → is_some (parse_loop fuel rest p) ≡ true
unfolding parse_loop codes
parse_loop_total zero rest p h = absurd (omega arith)
parse_loop_total (suc fuel) rest p h =
    place (split_text (codes "{{") rest) (split_text-length (codes "{{") rest)
      (λ r q. parse_loop_total fuel r q)
  where
    tag :
        (r : Result (Text × Parser))
        → OnOk (λ r. length r.0 < fuel) r
        → ((rest' : Text) (q : Parser)
            → length rest' < fuel
            → is_some (parse_loop fuel rest' q) ≡ true)
        → is_some (elim r as (λ _. Option (Result Parser)) [
          | err e ↦ some (err e)
          | ok (rest', p') ↦ parse_loop fuel rest' p'
        ])
          ≡ true
    tag (err e) k ih = refl
    tag (ok (rest', q)) k ih = ih rest' q k

    lower :
        (after : Text) (r : Result (Text × Parser))
        → length after < fuel
        → OnOk (λ r. length r.0 ≤ length after) r
        → OnOk (λ r. length r.0 < fuel) r
    lower after (err e) k q = tt
    lower after (ok a) k q = omega arith

    place :
        (o : Option (Text × Text))
        → OnSome (λ r. 2 + length r.1 ≤ length rest) o
        → ((rest' : Text) (q : Parser)
            → length rest' < fuel
            → is_some (parse_loop fuel rest' q) ≡ true)
        → is_some (elim o as (λ _. Option (Result Parser)) [
          | none ↦ some (ok (push_text rest p))
          | some (before, after) ↦
              elim (after_open after (push_text before p)) as (λ _. Option (Result Parser)) [
                | err e ↦ some (err e)
                | ok (rest', p') ↦ parse_loop fuel rest' p'
              ]
        ])
          ≡ true
    place none k ih = refl
    place (some (before, after)) k ih =
        tag (after_open after (push_text before p))
          (lower after (after_open after (push_text before p)) (omega arith)
            (after_open-length after (push_text before p)))
          ih

-- Parsing ends on every template: with its nodes, or with one of the errors.
pub parse_total : (template : Text) → is_some (parse template) ≡ true
unfolding parse
parse_total template =
    ground
      (arith, parse_loop_total (suc (length template)) template (record { root = nil; stack = [] }))
