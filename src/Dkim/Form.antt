-- ===== src/Dkim/Form.antt =====
-- The form of a relaxed body (crates/camelmailer-worker/src/dkim.rs, `canonicalize_body`), and what of the
-- body it keeps.
use camelmailer.Base.{
  ℕ, ◌≡◌, refl, sym, ap, ◌∙◌, inl, inr, Bool, true, false, not, ◌&&◌, List, [], ◌∷◌, ◌++◌, ◌==◌,
  if_both, is_empty, All, map, arith, Bool-cases,
}
use mathlib.Core.List.{map-append}
use camelmailer.Text.{Text, is_whitespace, trim_end_where, split_where}
use camelmailer.Dkim.{
  is_wsp, collapse, canonical_line, drop_empty_end, canonical_lines, canonical_text,
}
use camelmailer.Dkim.Words.{words, words-canonical_line}
use camelmailer.Dkim.Laws.{
  is_lf, is_cr, OneLine, collapse_skip, collapse_blank, collapse_plain, lines_text,
  with_line_ends-lines_text, canonical_lines-OneLine, drop_empty_end-All, canonical_text_again,
}

-- Neither a tab nor a blank behind a blank, nor behind a blank in front of the text.
pub is_squeezed : Bool → Text → Bool
is_squeezed blank [] = true
is_squeezed blank (c ∷ s) = not (c == 9) && not (blank && c == b' ') && is_squeezed (c == b' ') s

-- Whether a list ends in an element of a kind.
pub ends_in : {A : Type 0} → (A → Bool) → List A → Bool
ends_in p [] = false
ends_in p (x ∷ []) = p x
ends_in p (x ∷ y ∷ xs) = ends_in p (y ∷ xs)

-- A line of a relaxed body.
pub record IsRelaxed (l : Text) : Type 0 where
  pub one_line : OneLine l
  pub squeezed : is_squeezed false l ≡ true
  pub trimmed : ends_in is_whitespace l ≡ false

is_squeezed-collapse : (b : Bool) (s : Text) → is_squeezed b (collapse b s) ≡ true
unfolding is_squeezed
is_squeezed-collapse b [] = unfold collapse in refl
is_squeezed-collapse true (c ∷ s) = elim (Bool-cases (is_wsp c)) [
  | inl e ↦ rw (collapse_skip c s e) (is_squeezed-collapse true s)
  | inr e ↦
      let d : (c == b' ') ≡ false = unfold is_wsp in ground arith in
      let t : (c == 9) ≡ false = unfold is_wsp in ground arith in
      rw (collapse_plain true c s e, d, t) (is_squeezed-collapse false s)
]
is_squeezed-collapse false (c ∷ s) = elim (Bool-cases (is_wsp c)) [
  | inl e ↦ rw (collapse_blank c s e) (is_squeezed-collapse true s)
  | inr e ↦
      let d : (c == b' ') ≡ false = unfold is_wsp in ground arith in
      let t : (c == 9) ≡ false = unfold is_wsp in ground arith in
      rw (collapse_plain false c s e, d, t) (is_squeezed-collapse false s)
]

is_squeezed-trim_end_where :
    (b : Bool) (p : ℕ → Bool) (s : Text)
    → is_squeezed b s ≡ true
    → is_squeezed b (trim_end_where p s) ≡ true
unfolding is_squeezed trim_end_where
is_squeezed-trim_end_where b p [] h = refl
is_squeezed-trim_end_where b p (c ∷ s) h =
    ground (arith, is_squeezed-trim_end_where (c == b' ') p s)

ends_in-cons :
    {A : Type 0} (p : A → Bool) (x : A) (xs : List A)
    → (is_empty xs && p x) ≡ false
    → ends_in p xs ≡ false
    → ends_in p (x ∷ xs) ≡ false
unfolding ends_in
ends_in-cons p x [] h k = h
ends_in-cons p x (y ∷ xs) h k = k

ends_in-trim_end_where : (p : ℕ → Bool) (s : Text) → ends_in p (trim_end_where p s) ≡ false
unfolding trim_end_where
ends_in-trim_end_where p [] = unfold ends_in in refl
ends_in-trim_end_where p (c ∷ s) =
    if_both (λ x. ends_in p x ≡ false) (is_empty (trim_end_where p s) && p c)
      (λ _. unfold ends_in in refl)
      (λ e. ends_in-cons p c (trim_end_where p s) e (ends_in-trim_end_where p s))

ends_in-drop_empty_end : (ls : List Text) → ends_in (λ l. is_empty l) (drop_empty_end ls) ≡ false
unfolding drop_empty_end ends_in
ends_in-drop_empty_end [] = refl
ends_in-drop_empty_end (l ∷ ls) =
    if_both (λ (x : List Text). ends_in (λ l. is_empty l) x ≡ false)
      (is_empty (drop_empty_end ls) && is_empty l) (λ _. refl)
      (λ e. ends_in-cons (λ l. is_empty l) l (drop_empty_end ls) e (ends_in-drop_empty_end ls))

IsShort : Text → Type 0
IsShort l = (is_squeezed false l ≡ true) × (ends_in is_whitespace l ≡ false)

canonical_line-IsShort : (l : Text) → IsShort (canonical_line l)
unfolding canonical_line IsShort
canonical_line-IsShort l = (
  is_squeezed-trim_end_where false is_whitespace (collapse false (trim_end_where is_cr l))
      (is_squeezed-collapse false (trim_end_where is_cr l)),
  ends_in-trim_end_where is_whitespace (collapse false (trim_end_where is_cr l)),
)

map-IsShort : (ls : List Text) → All IsShort (map canonical_line ls)
map-IsShort [] = tt
map-IsShort (l ∷ ls) = (canonical_line-IsShort l, map-IsShort ls)

All-IsRelaxed : (ls : List Text) → All OneLine ls → All IsShort ls → All IsRelaxed ls
unfolding IsShort
All-IsRelaxed [] h k = tt
All-IsRelaxed (l ∷ ls) h k =
    (record { one_line = h.0; squeezed = k.0.0; trimmed = k.0.1 }, All-IsRelaxed ls h.1 k.1)

is_empty_nil : {A : Type 0} (xs : List A) → is_empty xs ≡ true → xs ≡ []
is_empty_nil [] h = refl
is_empty_nil (x ∷ xs) h = ground (arith, h)

-- What `drop_empty_end` drops is empty.
dropped :
    (ls : List Text)
    → (rest : List Text) × (ls ≡ drop_empty_end ls ++ rest) × All (λ l. l ≡ []) rest
unfolding drop_empty_end
dropped [] = ([], refl, tt)
dropped (l ∷ ls) =
    let (rest, e, h) = dropped ls in
    if_both (λ x. (rest : List Text) × (l ∷ ls ≡ x ++ rest) × All (λ l. l ≡ []) rest)
      (is_empty (drop_empty_end ls) && is_empty l)
      (λ f.
        let a : drop_empty_end ls ≡ [] = is_empty_nil (drop_empty_end ls) (ground arith) in
        let b : l ≡ [] = is_empty_nil l (ground arith) in
        (l ∷ rest, ap (λ x. l ∷ x) (e ∙ ap (λ x. x ++ rest) a), (b, h)))
      (λ f. (rest, ap (λ x. l ∷ x) e, h))

map-words : (ls : List Text) → map words (map canonical_line ls) ≡ map words ls
map-words [] = refl
map-words (l ∷ ls) = rw (words-canonical_line l, map-words ls) refl

-- A body in its canonical form is lines that end in CR LF, of which none has a line feed, a tab, two blanks
-- together or whitespace at its end, and the last is not empty. The lines have the words of the lines of
-- the body, but for lines at the end of the body that have no word. And the form is its own canonical form.
pub canonical_text-IsRelaxed :
    (s : Text)
    → ((ls : List Text) × (canonical_text s ≡ lines_text ls)
        × All IsRelaxed ls
        × (ends_in (λ l. is_empty l) ls ≡ false)
        × ((rest : List Text) × (map words (split_where is_lf s) ≡ map words ls ++ map words rest)
            × All (λ l. l ≡ []) rest))
      × (canonical_text (canonical_text s) ≡ canonical_text s)
unfolding canonical_text canonical_lines
canonical_text-IsRelaxed s =
    let ls = split_where is_lf s in
    let (rest, e, h) = dropped (map canonical_line ls) in
    (
      (
        canonical_lines s,
        with_line_ends-lines_text (canonical_lines s),
        All-IsRelaxed (canonical_lines s) (canonical_lines-OneLine s)
            (drop_empty_end-All IsShort (map canonical_line ls) (map-IsShort ls)),
        ends_in-drop_empty_end (map canonical_line ls),
        (
          rest,
          sym (map-words ls)
              ∙ (ap (map words) e ∙ map-append words (drop_empty_end (map canonical_line ls)) rest),
          h,
        ),
      ),
      canonical_text_again s,
    )
