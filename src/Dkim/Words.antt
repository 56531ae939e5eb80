-- ===== src/Dkim/Words.antt =====
-- The words of a line, which the relaxed form keeps (crates/camelmailer-worker/src/dkim.rs,
-- `canonicalize_body`).
use camelmailer.Base.{
  ℕ, ◌≡◌, refl, sym, ap, ◌∙◌, inl, inr, Bool, true, false, List, [], ◌∷◌, if◌then◌else◌, is_empty,
  arith, Bool-cases,
}
use camelmailer.Text.{Text, is_whitespace, trim_end_where}
use camelmailer.Dkim.{is_wsp, collapse, canonical_line}
use camelmailer.Dkim.Laws.{
  is_cr, is_cr-is_whitespace, collapse_skip, collapse_blank, collapse_plain,
}

-- The word at the beginning of a text, which may be empty, and the words behind it.
pub with_word : Text → List Text → List Text
with_word w ws = if is_empty w then ws else w ∷ ws

pub word_split : Text → Text × List Text
unfolding with_word
word_split [] = ([], [])
word_split (c ∷ s) =
    let r = word_split s in if is_whitespace c then ([], with_word r.0 r.1) else (c ∷ r.0, r.1)

-- The words of a line, between its whitespace.
pub words : Text → List Text
unfolding with_word word_split
words s = with_word (word_split s).0 (word_split s).1

is_wsp-is_whitespace : (c : ℕ) → is_wsp c ≡ true → is_whitespace c ≡ true
unfolding is_wsp is_whitespace
is_wsp-is_whitespace c h = ground arith

word_split_blank : (c : ℕ) (s : Text) → is_whitespace c ≡ true → word_split (c ∷ s) ≡ ([], words s)
unfolding words
word_split_blank c s h = rw h refl

words_blank : (c : ℕ) (s : Text) → is_whitespace c ≡ true → words (c ∷ s) ≡ words s
unfolding words
words_blank c s h = rw (word_split_blank c s h) refl

word_split_cons :
    (c : ℕ) (s t : Text) → word_split s ≡ word_split t → word_split (c ∷ s) ≡ word_split (c ∷ t)
unfolding word_split
word_split_cons c s t h = rw h refl

words_of_split : (s t : Text) → word_split s ≡ word_split t → words s ≡ words t
unfolding words
words_of_split s t h = rw h refl

-- Runs of blanks are of no account to the words: in front of a word, and behind a blank.
collapse-words :
    (s : Text)
    → (word_split (collapse false s) ≡ word_split s) × (words (collapse true s) ≡ words s)
collapse-words [] = (unfold collapse in refl, unfold collapse in refl)
collapse-words (c ∷ s) = elim (Bool-cases (is_wsp c)) [
  | inl e ↦
      let blank = is_wsp-is_whitespace c e in
      (
        rw (collapse_blank c s e) (
            word_split_blank b' ' (collapse true s) (unfold is_whitespace in refl)
            ∙ (ap (λ x. ([], x)) (collapse-words s).1 ∙ sym (word_split_blank c s blank))),
        rw (collapse_skip c s e) ((collapse-words s).1 ∙ sym (words_blank c s blank)),
      )
  | inr e ↦
      let plain = word_split_cons c (collapse false s) s (collapse-words s).0 in
      (
        rw (collapse_plain false c s e) plain,
        rw (collapse_plain true c s e) (words_of_split (c ∷ collapse false s) (c ∷ s) plain),
      )
]

-- Whitespace at the end is in no word.
word_split-trim_end_where :
    (p : ℕ → Bool) (s : Text)
    → ((c : ℕ) → p c ≡ true → is_whitespace c ≡ true)
    → word_split (trim_end_where p s) ≡ word_split s
unfolding word_split words
word_split-trim_end_where p [] h = unfold trim_end_where in refl
word_split-trim_end_where p (c ∷ s) h =
    trimmed (trim_end_where p s) refl (word_split-trim_end_where p s h)
  where
    trimmed :
        (x : Text)
        → trim_end_where p s ≡ x
        → word_split x ≡ word_split s
        → word_split (trim_end_where p (c ∷ s)) ≡ word_split (c ∷ s)
    trimmed [] e k = elim (Bool-cases (p c)) [
      | inl y ↦
          unfold trim_end_where in
          rw (e, y)
            (sym (word_split_blank c s (h c y) ∙ ap (λ x. ([], x)) (words_of_split s [] (sym k))))
      | inr n ↦ unfold trim_end_where in rw (e, n) (word_split_cons c [] s k)
    ]
    trimmed (d ∷ x) e k = unfold trim_end_where in rw e (word_split_cons c (d ∷ x) s k)

pub words-canonical_line : (l : Text) → words (canonical_line l) ≡ words l
words-canonical_line l =
    unfold canonical_line in
    words_of_split _ l (
      word_split-trim_end_where is_whitespace (collapse false (trim_end_where is_cr l)) (λ c h. h)
      ∙ ((collapse-words (trim_end_where is_cr l)).0
          ∙ word_split-trim_end_where is_cr l is_cr-is_whitespace))
