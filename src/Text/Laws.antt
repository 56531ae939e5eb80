-- ===== src/Text/Laws.antt =====
-- Laws of the text functions: which characters the results hold, and slices of ASCII text.
use camelmailer.Base.{
  ◌++◌, ◌+◌, ℕ, zero, suc, ◌≤◌, ◌≡◌, refl, Bool, true, [], ◌∷◌, all, ltb, is_some, arith, OnSome,
}
use camelmailer.Text.{
  Text, text_eq, strip_suffix_char, trim_end_where, trim_start, before_text, byte_len, width,
  split_at_byte, before_first, after_last,
}

abbrev pub is_ascii : Text → Bool
is_ascii = all (λ c. ltb c 128)

-- A property of characters passes to the parts of a text.
module _ (p : ℕ → Bool) where
  pub all-trim_end_where :
      (q : ℕ → Bool) (s : Text) → all p s ≡ true → all p (trim_end_where q s) ≡ true
  unfolding trim_end_where
  all-trim_end_where q [] h = refl
  all-trim_end_where q (c ∷ s) h = ground (arith, all-trim_end_where q s)

  pub all-trim_start : (s : Text) → all p s ≡ true → all p (trim_start s) ≡ true
  unfolding trim_start
  all-trim_start [] h = refl
  all-trim_start (c ∷ s) h = ground (arith, all-trim_start s)

  pub all-strip_suffix_char :
      (k : ℕ) (s : Text) → all p s ≡ true → OnSome (λ r. all p r ≡ true) (strip_suffix_char k s)
  unfolding strip_suffix_char
  all-strip_suffix_char k [] h = tt
  all-strip_suffix_char k (x ∷ []) h = ground arith
  all-strip_suffix_char k (x ∷ y ∷ s) h = ground (arith, all-strip_suffix_char k (y ∷ s))

  pub all-before_text :
      (t s : Text) → all p s ≡ true → OnSome (λ r. all p r ≡ true) (before_text t s)
  unfolding before_text
  all-before_text t [] h = ground arith
  all-before_text t (x ∷ s) h = ground (arith, all-before_text t s)

  pub all-before_first : (k : ℕ) (s : Text) → all p s ≡ true → all p (before_first k s) ≡ true
  unfolding before_first
  all-before_first k [] h = refl
  all-before_first k (x ∷ s) h = ground (arith, all-before_first k s)

  pub all-after_last :
      (k : ℕ) (s : Text) → all p s ≡ true → OnSome (λ r. all p r ≡ true) (after_last k s)
  unfolding after_last
  all-after_last k [] h = tt
  all-after_last k (x ∷ s) h = ground (arith, all-after_last k s)

-- A slice of ASCII text never ends inside a character.
pub split_at_byte_ascii :
    (s : Text) (n : ℕ) → is_ascii s ≡ true → n ≤ byte_len s → is_some (split_at_byte s n) ≡ true
unfolding split_at_byte byte_len width
split_at_byte_ascii [] zero a h = refl
split_at_byte_ascii [] (suc n) a h = elim h [ ]
split_at_byte_ascii (c ∷ s) zero a h = refl
split_at_byte_ascii (c ∷ s) (suc n) a h = ground (arith, split_at_byte_ascii s n)

pub text_eq_refl : (s : Text) → text_eq s s ≡ true
unfolding text_eq
text_eq_refl [] = refl
text_eq_refl (c ∷ s) = ground (arith, text_eq_refl s)

pub text_eq→eq : (s t : Text) → text_eq s t ≡ true → s ≡ t
unfolding text_eq
text_eq→eq [] [] h = refl
text_eq→eq [] (b ∷ t) h = cc
text_eq→eq (a ∷ s) [] h = cc
text_eq→eq (a ∷ s) (b ∷ t) h = ground (arith, text_eq→eq s t)

pub byte_len-append : (s t : Text) → byte_len (s ++ t) ≡ byte_len s + byte_len t
unfolding byte_len
byte_len-append [] t = omega arith
byte_len-append (c ∷ s) t = omega (arith, byte_len-append s t)
