-- ===== src/Dkim/Laws.antt =====
-- The canonical body is its own canonical form.
use camelmailer.Base.{
  ℕ, ◌≡◌, refl, sym, ap, ◌∙◌, inl, inr, Bool, true, false, not, ◌&&◌, List, [], ◌∷◌, ◌++◌,
  append_assoc, ◌==◌, if◌then◌else◌, if_both, is_empty, all, All, map, arith, Bool-cases,
}
use camelmailer.Text.{Text, lf, cr, is_whitespace, trim_end_where, split_where}
use camelmailer.Dkim.{
  crlf, is_wsp, collapse, canonical_line, drop_empty_end, join, canonical_lines, with_line_ends,
  canonical_text,
}

-- The end of a line feed, as the lines are split.
abbrev pub is_lf : ℕ → Bool
is_lf c = c == lf

abbrev pub is_cr : ℕ → Bool
is_cr c = c == cr

-- A text without a line feed.
abbrev pub OneLine : Text → Type 0
OneLine s = all (λ c. not (c == lf)) s ≡ true

collapse-OneLine : (b : Bool) (s : Text) → OneLine s → OneLine (collapse b s)
unfolding collapse
collapse-OneLine b [] h = refl
collapse-OneLine b (c ∷ s) h = ground (arith, collapse-OneLine (is_wsp c) s)

trim_end_where-OneLine : (p : ℕ → Bool) (s : Text) → OneLine s → OneLine (trim_end_where p s)
unfolding trim_end_where
trim_end_where-OneLine p [] h = refl
trim_end_where-OneLine p (c ∷ s) h = ground (arith, trim_end_where-OneLine p s)

canonical_line-OneLine : (s : Text) → OneLine s → OneLine (canonical_line s)
canonical_line-OneLine s h =
    unfold canonical_line in
    trim_end_where-OneLine is_whitespace (collapse false (trim_end_where is_cr s))
      (collapse-OneLine false (trim_end_where is_cr s) (trim_end_where-OneLine is_cr s h))

trim_end_where_idem :
    (p : ℕ → Bool) (s : Text) → trim_end_where p (trim_end_where p s) ≡ trim_end_where p s
unfolding trim_end_where
trim_end_where_idem p [] = refl
trim_end_where_idem p (c ∷ s) = ground (arith, trim_end_where_idem p s)

-- A text whose end has no whitespace has none of less.
trim_end_where-weaker :
    (p q : ℕ → Bool) (s : Text)
    → ((c : ℕ) → q c ≡ true → p c ≡ true)
    → trim_end_where q (trim_end_where p s) ≡ trim_end_where p s
unfolding trim_end_where
trim_end_where-weaker p q [] h = refl
trim_end_where-weaker p q (c ∷ s) h = ground (arith, h c, trim_end_where-weaker p q s h)

-- A carriage return at the end is trimmed.
trim_end_where-append :
    (p : ℕ → Bool) (c : ℕ) (s : Text)
    → p c ≡ true
    → trim_end_where p (s ++ c ∷ []) ≡ trim_end_where p s
unfolding trim_end_where
trim_end_where-append p c [] h = ground arith
trim_end_where-append p c (x ∷ s) h = rw (trim_end_where-append p c s h) refl

pub collapse_skip : (c : ℕ) (s : Text) → is_wsp c ≡ true → collapse true (c ∷ s) ≡ collapse true s
unfolding collapse
collapse_skip c s e = rw e refl

pub collapse_blank :
    (c : ℕ) (s : Text) → is_wsp c ≡ true → collapse false (c ∷ s) ≡ b' ' ∷ collapse true s
unfolding collapse
collapse_blank c s e = rw e refl

pub collapse_plain :
    (b : Bool) (c : ℕ) (s : Text) → is_wsp c ≡ false → collapse b (c ∷ s) ≡ c ∷ collapse false s
unfolding collapse
collapse_plain b c s e = rw e refl

-- One more character in front of what is trimmed and stays as it is.
collapse-cons :
    (b : Bool) (p : ℕ → Bool) (c : ℕ) (y : Text)
    → collapse b (c ∷ trim_end_where p y) ≡ c ∷ trim_end_where p y
    → collapse b (trim_end_where p (c ∷ y)) ≡ trim_end_where p (c ∷ y)
collapse-cons b p c y k = elim (Bool-cases (is_empty (trim_end_where p y) && p c)) [
  | inl e ↦ unfold trim_end_where in rw e (unfold collapse in refl)
  | inr e ↦ unfold trim_end_where in rw e k
]

-- What is collapsed and trimmed is collapsed.
collapse-trim_end_where :
    (b : Bool) (p : ℕ → Bool) (s : Text)
    → collapse b (trim_end_where p (collapse b s)) ≡ trim_end_where p (collapse b s)
collapse-trim_end_where b p [] = unfold collapse trim_end_where in refl
collapse-trim_end_where true p (c ∷ s) = elim (Bool-cases (is_wsp c)) [
  | inl e ↦ rw (collapse_skip c s e) (collapse-trim_end_where true p s)
  | inr e ↦ rw (collapse_plain true c s e) (
      collapse-cons true p c (collapse false s) (
        collapse_plain true c (trim_end_where p (collapse false s)) e
        ∙ ap (λ x. c ∷ x) (collapse-trim_end_where false p s)))
]
collapse-trim_end_where false p (c ∷ s) = elim (Bool-cases (is_wsp c)) [
  | inl e ↦ rw (collapse_blank c s e) (
      collapse-cons false p b' ' (collapse true s) (
        collapse_blank b' ' (trim_end_where p (collapse true s)) (unfold is_wsp in refl)
        ∙ ap (λ x. b' ' ∷ x) (collapse-trim_end_where true p s)))
  | inr e ↦ rw (collapse_plain false c s e) (
      collapse-cons false p c (collapse false s) (
        collapse_plain false c (trim_end_where p (collapse false s)) e
        ∙ ap (λ x. c ∷ x) (collapse-trim_end_where false p s)))
]

pub is_cr-is_whitespace : (c : ℕ) → is_cr c ≡ true → is_whitespace c ≡ true
unfolding is_whitespace
is_cr-is_whitespace c h = ground arith

canonical_line_again : (s : Text) → canonical_line (canonical_line s ++ cr ∷ []) ≡ canonical_line s
canonical_line_again s =
    let y = trim_end_where is_whitespace (collapse false (trim_end_where is_cr s)) in
    let whole : trim_end_where is_cr (y ++ cr ∷ []) ≡ y =
      trim_end_where-append is_cr cr y refl
      ∙ trim_end_where-weaker is_whitespace is_cr (collapse false (trim_end_where is_cr s))
          is_cr-is_whitespace in
    unfold canonical_line in
    ap (λ x. trim_end_where is_whitespace (collapse false x)) whole
    ∙ (ap (trim_end_where is_whitespace)
          (collapse-trim_end_where false is_whitespace (trim_end_where is_cr s))
        ∙ trim_end_where_idem is_whitespace (collapse false (trim_end_where is_cr s)))

-- The lines of a text, each with its line end.
pub lines_text : List Text → Text
lines_text [] = []
lines_text (l ∷ ls) = l ++ (crlf ++ lines_text ls)

pub with_line_ends-lines_text : (ls : List Text) → with_line_ends ls ≡ lines_text ls
unfolding with_line_ends join lines_text
with_line_ends-lines_text [] = refl
with_line_ends-lines_text (l ∷ []) = refl
with_line_ends-lines_text (l ∷ m ∷ ls) =
    append_assoc l (crlf ++ join crlf (m ∷ ls)) crlf
    ∙ ap (λ x. l ++ (crlf ++ x)) (with_line_ends-lines_text (m ∷ ls))

split_cons :
    (c : ℕ) (s w : Text) (ws : List Text)
    → split_where is_lf s ≡ w ∷ ws
    → split_where is_lf (c ∷ s) ≡ (if is_lf c then [] ∷ w ∷ ws else (c ∷ w) ∷ ws)
unfolding split_where
split_cons c s w ws e = rw e refl

-- A split text has a first line.
split_first : (s : Text) → (w : Text) × (ws : List Text) × (split_where is_lf s ≡ w ∷ ws)
split_first [] = ([], [], unfold split_where in refl)
split_first (c ∷ s) =
    let (w, ws, e) = split_first s in
    (
      (if is_lf c then [] else c ∷ w),
      (if is_lf c then w ∷ ws else ws),
      rw (split_cons c s w ws e) (ground arith),
    )

split_line :
    (l s : Text)
    → OneLine l
    → split_where is_lf (l ++ (crlf ++ s)) ≡ (l ++ cr ∷ []) ∷ split_where is_lf s
split_line [] s h =
    let (w, ws, e) = split_first s in
    split_cons cr (lf ∷ s) [] (w ∷ ws) (split_cons lf s w ws e) ∙ ap (λ x. (cr ∷ []) ∷ x) (sym e)
split_line (c ∷ l) s h =
    split_cons c (l ++ (crlf ++ s)) (l ++ cr ∷ []) (split_where is_lf s)
      (split_line l s (ground arith))
    ∙ ground arith

split_where-OneLine : (s : Text) → All OneLine (split_where is_lf s)
split_where-OneLine [] = unfold split_where in (refl, tt)
split_where-OneLine (c ∷ s) =
    let (w, ws, e) = split_first s in
    let h : All OneLine (w ∷ ws) = rw e at (split_where-OneLine s) in
    rw (split_cons c s w ws e)
      (if_both (All OneLine) (is_lf c) (λ _. (refl, h)) (λ f. (ground arith, h.1)))

map-OneLine : (ls : List Text) → All OneLine ls → All OneLine (map canonical_line ls)
map-OneLine [] h = tt
map-OneLine (l ∷ ls) h = (canonical_line-OneLine l h.0, map-OneLine ls h.1)

pub drop_empty_end-All : (P : Text → Type 0) (ls : List Text) → All P ls → All P (drop_empty_end ls)
unfolding drop_empty_end
drop_empty_end-All P [] h = tt
drop_empty_end-All P (l ∷ ls) h =
    if_both (All P) (is_empty (drop_empty_end ls) && is_empty l) (λ _. tt)
      (λ _. (h.0, drop_empty_end-All P ls h.1))

drop_empty_end_again :
    (ls : List Text) → drop_empty_end (drop_empty_end ls ++ [] ∷ []) ≡ drop_empty_end ls
unfolding drop_empty_end
drop_empty_end_again [] = refl
drop_empty_end_again (l ∷ ls) = elim (Bool-cases (is_empty (drop_empty_end ls) && is_empty l)) [
  | inl e ↦ rw e refl
  | inr e ↦ rw e (rw (drop_empty_end_again ls, e) refl)
]

-- A line that is what its canonical form with a line end is.
abbrev IsCanonical : Text → Type 0
IsCanonical l = canonical_line (l ++ cr ∷ []) ≡ l

map-IsCanonical : (ls : List Text) → All IsCanonical (map canonical_line ls)
map-IsCanonical [] = tt
map-IsCanonical (l ∷ ls) = (canonical_line_again l, map-IsCanonical ls)

-- The lines of a text of canonical lines, and one empty line after the last.
split-lines_text :
    (ls : List Text)
    → All OneLine ls
    → All IsCanonical ls
    → map canonical_line (split_where is_lf (lines_text ls)) ≡ ls ++ [] ∷ []
unfolding lines_text
split-lines_text [] o c = unfold split_where canonical_line in refl
split-lines_text (l ∷ ls) o c =
    ap (map canonical_line) (split_line l (lines_text ls) o.0)
    ∙ rw c.0 (ap (λ x. l ∷ x) (split-lines_text ls o.1 c.1))

pub canonical_lines-OneLine : (s : Text) → All OneLine (canonical_lines s)
unfolding canonical_lines
canonical_lines-OneLine s =
    drop_empty_end-All OneLine (map canonical_line (split_where is_lf s))
      (map-OneLine (split_where is_lf s) (split_where-OneLine s))

canonical_lines-IsCanonical : (s : Text) → All IsCanonical (canonical_lines s)
unfolding canonical_lines
canonical_lines-IsCanonical s =
    drop_empty_end-All IsCanonical (map canonical_line (split_where is_lf s))
      (map-IsCanonical (split_where is_lf s))

canonical_lines_again :
    (s : Text) → canonical_lines (lines_text (canonical_lines s)) ≡ canonical_lines s
canonical_lines_again s =
    let lines : map canonical_line (split_where is_lf (lines_text (canonical_lines s)))
        ≡ canonical_lines s ++ [] ∷ [] =
      split-lines_text (canonical_lines s) (canonical_lines-OneLine s)
        (canonical_lines-IsCanonical s) in
    unfold canonical_lines in
    ap drop_empty_end lines ∙ drop_empty_end_again (map canonical_line (split_where is_lf s))

-- The canonical form of a body is its own canonical form.
pub canonical_text_again : (s : Text) → canonical_text (canonical_text s) ≡ canonical_text s
unfolding canonical_text
canonical_text_again s =
    ap with_line_ends
      (ap canonical_lines (with_line_ends-lines_text (canonical_lines s)) ∙ canonical_lines_again s)
