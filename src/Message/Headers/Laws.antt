-- ===== src/Message/Headers/Laws.antt =====
-- The headers of a message do not depend on its body.
use camelmailer.Base.{
  ℕ, ◌≡◌, refl, ap, sym, ◌∙◌, Bool, true, List, [], ◌∷◌, ◌++◌, if_both, is_empty, ◌==◌, ◌≢◌,
  if◌then◌else◌, Bool-cases, inl, inr, unwrap_or,
}
use camelmailer.Text.{Text, Bytes, lf, cr, split_where, strip_suffix_char}
use camelmailer.Message.Headers.{add_line, parse_lines, parse_headers, header_value}

-- There always is a part.
split_where-ne-nil : (p : ℕ → Bool) (s : Text) → split_where p s ≢ []
unfolding split_where
split_where-ne-nil p [] = λ e. cc e
split_where-ne-nil p (x ∷ s) = some_part (split_where p s)
  where
    some_part :
        (ws : List Text)
        → (elim ws [ [] ↦ (x ∷ []) ∷ [] | w ∷ ws ↦ if p x then [] ∷ w ∷ ws else (x ∷ w) ∷ ws ]) ≢ []
    some_part [] = λ e. cc e
    some_part (w ∷ ws) = if_both (λ (r : List Text). r ≢ []) (p x) (λ _ e. cc e) (λ _ e. cc e)

split_where_separator :
    (p : ℕ → Bool) (c : ℕ) (b : Text) → p c ≡ true → split_where p (c ∷ b) ≡ [] ∷ split_where p b
unfolding split_where
split_where_separator p c b h = parts (split_where p b) (split_where-ne-nil p b)
  where
    parts :
        (ws : List Text)
        → ws ≢ []
        → (elim ws [ [] ↦ (c ∷ []) ∷ [] | w ∷ ws ↦ if p c then [] ∷ w ∷ ws else (c ∷ w) ∷ ws ])
          ≡ [] ∷ ws
    parts [] k = absurd (k refl)
    parts (w ∷ ws) k = rw h refl

-- A separator splits the parts before and after it apart.
split_where-append :
    (p : ℕ → Bool) (a : Text) (c : ℕ) (b : Text)
    → p c ≡ true
    → split_where p (a ++ c ∷ b) ≡ split_where p a ++ split_where p b
unfolding split_where
split_where-append p [] c b h = split_where_separator p c b h
split_where-append p (x ∷ a) c b h =
    rw (split_where-append p a c b h) (parts (split_where p a) (split_where-ne-nil p a))
  where
    parts :
        (ws : List Text)
        → ws ≢ []
        → (elim (ws ++ split_where p b) [
          | [] ↦ (x ∷ []) ∷ []
          | w ∷ ws ↦ if p x then [] ∷ w ∷ ws else (x ∷ w) ∷ ws
        ])
          ≡ (elim ws [ [] ↦ (x ∷ []) ∷ [] | w ∷ ws ↦ if p x then [] ∷ w ∷ ws else (x ∷ w) ∷ ws ])
            ++ split_where p b
    parts [] k = absurd (k refl)
    parts (w ∷ ws) k = elim (Bool-cases (p x)) [ inl e ↦ rw e refl | inr e ↦ rw e refl ]

module _ (from_utf8_lossy : Bytes → Text) (to_lowercase : Text → Text) where
  -- An empty line ends the loop.
  parse_lines_stop :
      (headers : List (Text × Text)) (ls rest : List Bytes)
      → parse_lines from_utf8_lossy to_lowercase headers (ls ++ [] ∷ rest)
        ≡ parse_lines from_utf8_lossy to_lowercase headers (ls ++ [] ∷ [])
  unfolding parse_lines strip_suffix_char
  parse_lines_stop headers [] rest = refl
  parse_lines_stop headers (l ∷ ls) rest =
      ap
        (λ (next : List (Text × Text)).
          if is_empty (unwrap_or l (strip_suffix_char cr l)) then headers else next)
        (parse_lines_stop
          (add_line from_utf8_lossy to_lowercase headers
            (from_utf8_lossy (unwrap_or l (strip_suffix_char cr l))))
          ls rest)

  parse_headers_stop :
      (block body : Bytes)
      → parse_headers from_utf8_lossy to_lowercase (block ++ lf ∷ lf ∷ body)
        ≡ parse_headers from_utf8_lossy to_lowercase (block ++ lf ∷ lf ∷ [])
  unfolding parse_headers split_where
  parse_headers_stop block body =
      rw
        (
          split_where-append (λ b. b == lf) block lf (lf ∷ body) refl,
          split_where-append (λ b. b == lf) block lf (lf ∷ []) refl,
          split_where_separator (λ b. b == lf) lf body refl,
        )
        (parse_lines_stop [] (split_where (λ b. b == lf) block) (split_where (λ b. b == lf) body)
          ∙ sym (parse_lines_stop [] (split_where (λ b. b == lf) block) ([] ∷ [])))

  -- A header's value is the same whatever body follows the empty line that ends the header block: no
  -- body can add, change or hide a header.
  pub header_value_of_block :
      (block body body' : Bytes) (name : Text)
      → header_value from_utf8_lossy to_lowercase (block ++ lf ∷ lf ∷ body) name
        ≡ header_value from_utf8_lossy to_lowercase (block ++ lf ∷ lf ∷ body') name
  unfolding header_value
  header_value_of_block block body body' name =
      rw (parse_headers_stop block body, parse_headers_stop block body') refl
