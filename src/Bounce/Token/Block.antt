-- ===== src/Bounce/Token/Block.antt =====
-- The header block of an outbound message: a submitter's own token headers do not stay in it.
use camelmailer.Base.{
  ℕ, ◌≡◌, ◌⊎◌, inl, inr, refl, ap, Bool, true, false, ◌&&◌, not, List, [], ◌∷◌, ◌++◌, append-nil,
  append_assoc, ◌==◌, if◌then◌else◌, if_both, is_empty, all, arith, ==_iff,
}
use camelmailer.Text.{Text, Bytes, codes, lf, cr, before_first}
use camelmailer.Smtp.Hash.{split_inclusive}
use camelmailer.Smtp.Hash.Laws.{no_lf, split_inclusive_line, strip_suffix_char_snoc}
use camelmailer.Bounce.Token.{
  message_token_header, is_message_token_header, without_suffix, bare_line, is_continuation, concat,
  skips, without_tokens, add_message_token_header,
}
use camelmailer.Bounce.Token.Laws.{
  is_alphanumeric, token_line, add_message_token_header-line, no_lf-token_line,
}

-- The lines of the header block, up to the first empty one.
unfoldable pub header_lines : List Bytes → List Bytes
header_lines [] = []
header_lines (l ∷ ls) =
    let rest = header_lines ls in if is_empty (bare_line l) then [] else l ∷ rest

-- A line that starts a token header.
abbrev pub names_token : Bytes → Bool
names_token l =
    not (is_continuation (bare_line l)) && is_message_token_header (before_first b':' (bare_line l))

-- Lines as `split_inclusive` gives them: each with its line feed, but perhaps the last.
IsSplit : List Bytes → Type 0
IsSplit [] = Unit
IsSplit (l ∷ ls) =
    ((s : Bytes) × (l ≡ s ++ lf ∷ []) × (no_lf s ≡ true) × IsSplit ls)
    ⊎ ((no_lf l ≡ true) × (is_empty l ≡ false) × (ls ≡ []))

IsSplit-extend :
    (b : ℕ) (ls : List Bytes)
    → IsSplit ls
    → (b == lf) ≡ false
    → IsSplit (elim ls [ [] ↦ (b ∷ []) ∷ [] | w ∷ ws ↦ (b ∷ w) ∷ ws ])
unfolding IsSplit
IsSplit-extend b [] w n = inr (ground arith, refl, refl)
IsSplit-extend b (l ∷ ls) (inl (s, e, h, r)) n =
    inl (b ∷ s, ap (λ (x : Bytes). b ∷ x) e, ground arith, r)
IsSplit-extend b (l ∷ ls) (inr (h, e, q)) n = inr (ground arith, refl, q)

split_inclusive-IsSplit : (s : Bytes) → IsSplit (split_inclusive s)
unfolding split_inclusive IsSplit
split_inclusive-IsSplit [] = tt
split_inclusive-IsSplit (b ∷ s) =
    if_both IsSplit (b == lf)
      (λ t. inl ([], ground (arith, ==_iff b lf), refl, split_inclusive-IsSplit s))
      (λ f. IsSplit-extend b (split_inclusive s) (split_inclusive-IsSplit s) f)

IsSplit-tail : (l : Bytes) (ls : List Bytes) → IsSplit (l ∷ ls) → IsSplit ls
unfolding IsSplit
IsSplit-tail l ls (inl (s, e, h, r)) = r
IsSplit-tail l ls (inr (h, e, q)) = rw q tt

split_inclusive-last :
    (l : Bytes) → no_lf l ≡ true → is_empty l ≡ false → split_inclusive l ≡ l ∷ []
unfolding split_inclusive
split_inclusive-last [] h e = absurd (cc)
split_inclusive-last (b ∷ []) h e = ground arith
split_inclusive-last (b ∷ c ∷ l) h e = ground (arith, split_inclusive-last (c ∷ l))

-- A line in front of a text is the first of its lines.
split_inclusive-append :
    (l : Bytes) (ls : List Bytes) (t : Bytes)
    → IsSplit (l ∷ ls)
    → (ls ≡ [] → t ≡ [])
    → split_inclusive (l ++ t) ≡ l ∷ split_inclusive t
unfolding IsSplit
split_inclusive-append l ls t (inl (s, e, h, r)) n =
    rw (e, append_assoc s (lf ∷ []) t) (split_inclusive_line s t h)
split_inclusive-append l ls t (inr (h, e, q)) n =
    rw (n q, append-nil l) (unfold split_inclusive in split_inclusive-last l h e)

abbrev IsClean : Bytes → Type 0
IsClean raw = all (λ l. not (names_token l)) (header_lines (split_inclusive raw)) ≡ true

IsClean-empty :
    (l t : Bytes)
    → split_inclusive (l ++ t) ≡ l ∷ split_inclusive t
    → is_empty (bare_line l) ≡ true
    → IsClean (l ++ t)
unfolding header_lines
IsClean-empty l t e h = rw e (rw h refl)

names_token-skips :
    (skipping : Bool) (l : Bytes) → skips skipping (bare_line l) ≡ false → names_token l ≡ false
unfolding skips
names_token-skips skipping l k =
    continued (is_continuation (bare_line l))
      (is_message_token_header (before_first b':' (bare_line l))) k
  where
    continued : (b m : Bool) → (if b then skipping else m) ≡ false → (not b && m) ≡ false
    continued true m h = refl
    continued false m h = h

IsClean-append :
    (skipping : Bool) (l t : Bytes)
    → split_inclusive (l ++ t) ≡ l ∷ split_inclusive t
    → is_empty (bare_line l) ≡ false
    → skips skipping (bare_line l) ≡ false
    → IsClean t
    → IsClean (l ++ t)
unfolding header_lines
IsClean-append skipping l t e h k c = rw (e, h, names_token-skips skipping l k) c

without_tokens-IsClean :
    (skipping : Bool) (ls : List Bytes) → IsSplit ls → IsClean (without_tokens skipping ls)
unfolding without_tokens
without_tokens-IsClean skipping [] w = unfold split_inclusive header_lines in refl
without_tokens-IsClean skipping (l ∷ ls) w =
    if_both IsClean (is_empty (bare_line l))
      (λ h.
        IsClean-empty l (concat ls)
          (split_inclusive-append l ls (concat ls) w (λ n. rw n (unfold concat in refl))) h)
      (λ h.
        if_both IsClean (skips skipping (bare_line l))
          (λ _. without_tokens-IsClean (skips skipping (bare_line l)) ls (IsSplit-tail l ls w))
          (λ k.
            IsClean-append skipping l (without_tokens (skips skipping (bare_line l)) ls)
              (split_inclusive-append l ls (without_tokens (skips skipping (bare_line l)) ls) w
                (λ n. rw n refl))
              h k (without_tokens-IsClean (skips skipping (bare_line l)) ls (IsSplit-tail l ls w))))

-- In the header block of an outbound message only the first line is a token header, whatever the
-- submitter wrote.
pub add_message_token_header-only :
    (raw : Bytes) (token : Text)
    → is_alphanumeric token ≡ true
    → (rest : List Bytes) × (header_lines (split_inclusive (add_message_token_header raw token))
        ≡ (token_line token ++ cr ∷ lf ∷ []) ∷ rest)
      × (all (λ l. not (names_token l)) rest ≡ true)
unfolding header_lines
add_message_token_header-only raw token h = (
  header_lines (split_inclusive (without_tokens false (split_inclusive raw))),
  first_line,
  without_tokens-IsClean false (split_inclusive raw) (split_inclusive-IsSplit raw),
)
  where
    bare : bare_line ((token_line token ++ cr ∷ []) ++ lf ∷ []) ≡ token_line token
    bare =
        unfold bare_line without_suffix in
        rw
          (
            strip_suffix_char_snoc lf (token_line token ++ cr ∷ []),
            strip_suffix_char_snoc cr (token_line token),
          )
          refl

    first_line :
        header_lines (split_inclusive (add_message_token_header raw token))
        ≡ (token_line token ++ cr ∷ lf ∷ [])
          ∷ header_lines (split_inclusive (without_tokens false (split_inclusive raw)))
    first_line =
        rw
          (
            add_message_token_header-line raw token h,
            split_inclusive_line (token_line token ++ cr ∷ [])
                (without_tokens false (split_inclusive raw)) (no_lf-token_line token h),
            bare,
          )
          (rw (append_assoc (token_line token) (cr ∷ []) (lf ∷ []))
            (unfold message_token_header codes in refl))
