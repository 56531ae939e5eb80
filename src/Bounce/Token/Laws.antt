-- ===== src/Bounce/Token/Laws.antt =====
-- The correlation header: its token is the first that a returned message yields.
use camelmailer.Base.{
  ◌≤◌, ◌≡◌, refl, ap, ◌∙◌, Bool, true, false, Option, none, some, List, [], ◌∷◌, ◌++◌, append_assoc,
  ◌==◌, if_both, is_empty, length, any, all, first?, arith,
}
use camelmailer.Text.{
  Text, Bytes, codes, lf, cr, as_bytes, encode_char, is_ascii_alphanumeric, split_where, split_once,
  trim_start_where, trim_end_where, text_eq,
}
use camelmailer.Smtp.Hash.{split_inclusive}
use camelmailer.Smtp.Hash.Laws.{no_lf, strip_suffix_char_snoc}
use camelmailer.Bounce.Token.{
  message_token_header, is_ascii_whitespace, trim_ascii, without_suffix, without_tokens,
  add_message_token_header, take_while, valid_token, named_token, token_of, push_token, tokens_of,
  original_message_tokens,
}

abbrev pub is_alphanumeric : Text → Bool
is_alphanumeric = all is_ascii_alphanumeric

as_bytes-alphanumeric : (t : Text) → is_alphanumeric t ≡ true → as_bytes t ≡ t
unfolding as_bytes encode_char is_ascii_alphanumeric
as_bytes-alphanumeric [] h = refl
as_bytes-alphanumeric (c ∷ t) h = ground (arith, as_bytes-alphanumeric t)

take_while-alphanumeric :
    (t : Text) → is_alphanumeric t ≡ true → take_while is_ascii_alphanumeric t ≡ t
unfolding take_while
take_while-alphanumeric [] h = refl
take_while-alphanumeric (c ∷ t) h = ground (arith, take_while-alphanumeric t)

trim_end-alphanumeric :
    (t : Text) → is_alphanumeric t ≡ true → trim_end_where is_ascii_whitespace t ≡ t
unfolding trim_end_where is_ascii_whitespace is_ascii_alphanumeric
trim_end-alphanumeric [] h = refl
trim_end-alphanumeric (c ∷ t) h = ground (arith, trim_end-alphanumeric t)

trim_start-alphanumeric :
    (t : Text) → is_alphanumeric t ≡ true → trim_start_where is_ascii_whitespace t ≡ t
unfolding trim_start_where is_ascii_whitespace is_ascii_alphanumeric
trim_start-alphanumeric [] h = refl
trim_start-alphanumeric (c ∷ t) h = ground arith

trim_ascii-alphanumeric : (t : Text) → is_alphanumeric t ≡ true → trim_ascii (b' ' ∷ t) ≡ t
unfolding trim_ascii trim_start_where is_ascii_whitespace
trim_ascii-alphanumeric t h =
    ap (trim_end_where is_ascii_whitespace) (trim_start-alphanumeric t h)
    ∙ trim_end-alphanumeric t h

no_lf-alphanumeric : (t : Text) → is_alphanumeric t ≡ true → no_lf (t ++ cr ∷ []) ≡ true
unfolding is_ascii_alphanumeric
no_lf-alphanumeric [] h = refl
no_lf-alphanumeric (c ∷ t) h = ground (arith, no_lf-alphanumeric t)

split_where-nonempty : (s : Bytes) → is_empty (split_where (λ b. b == lf) s) ≡ false
unfolding split_where
split_where-nonempty [] = refl
split_where-nonempty (b ∷ s) = ground (arith, split_where-nonempty s)

split_where-line :
    (s rest : Bytes)
    → no_lf s ≡ true
    → split_where (λ b. b == lf) (s ++ lf ∷ rest) ≡ s ∷ split_where (λ b. b == lf) rest
unfolding split_where
split_where-line [] rest h = ground (arith, split_where-nonempty rest)
split_where-line (b ∷ s) rest h = ground (arith, split_where-line s rest)

-- The first line, with its token.
abbrev pub token_line : Text → Bytes
token_line token = message_token_header ++ (b':' ∷ b' ' ∷ token)

token_of-token_line :
    (token : Text)
    → is_alphanumeric token ≡ true
    → is_empty token ≡ false
    → length token ≤ 64
    → token_of (token_line token ++ cr ∷ []) ≡ some token
unfolding token_of named_token without_suffix
token_of-token_line token h e l = rw (strip_suffix_char_snoc cr (token_line token)) (
    unfold split_once codes in
    rw (trim_ascii-alphanumeric token h, take_while-alphanumeric token h)
      (unfold valid_token in ground arith))

-- Whether the first token is `t`.
StartsWith : Bytes → List Bytes → Type 0
StartsWith t tokens = first? tokens ≡ some t

push_token-StartsWith :
    (t : Bytes) (tokens : List Bytes) (o : Option Bytes)
    → StartsWith t tokens
    → StartsWith t (push_token tokens o)
unfolding push_token StartsWith
push_token-StartsWith t tokens none h = h
push_token-StartsWith t [] (some token) h = absurd (cc)
push_token-StartsWith t (x ∷ tokens) (some token) h =
    if_both (λ (ts : List Bytes). first? ts ≡ some t) (any (λ t. text_eq t token) (x ∷ tokens))
      (λ _. h) (λ _. h)

tokens_of-StartsWith :
    (t : Bytes) (tokens lines : List Bytes)
    → StartsWith t tokens
    → StartsWith t (tokens_of tokens lines)
unfolding tokens_of
tokens_of-StartsWith t tokens [] h = h
tokens_of-StartsWith t tokens (l ∷ ls) h =
    tokens_of-StartsWith t (push_token tokens (token_of l)) ls
      (push_token-StartsWith t tokens (token_of l) h)

pub add_message_token_header-line :
    (raw : Bytes) (token : Text)
    → is_alphanumeric token ≡ true
    → add_message_token_header raw token
      ≡ (token_line token ++ cr ∷ []) ++ lf ∷ without_tokens false (split_inclusive raw)
unfolding add_message_token_header
add_message_token_header-line raw token h =
    rw (as_bytes-alphanumeric token h)
      (rw (append_assoc token (cr ∷ []) (lf ∷ without_tokens false (split_inclusive raw))) refl)

pub no_lf-token_line :
    (token : Text) → is_alphanumeric token ≡ true → no_lf (token_line token ++ cr ∷ []) ≡ true
unfolding message_token_header codes
no_lf-token_line token h = no_lf-alphanumeric token h

-- The token that an outbound message was given, letters and digits and at most 64 of them, is the
-- first token of that message when it is returned.
pub original_message_tokens-add :
    (raw : Bytes) (token : Text)
    → is_alphanumeric token ≡ true
    → is_empty token ≡ false
    → length token ≤ 64
    → first? (original_message_tokens (add_message_token_header raw token)) ≡ some token
unfolding original_message_tokens StartsWith
original_message_tokens-add raw token h e l =
    rw
      (
        add_message_token_header-line raw token h,
        split_where-line (token_line token ++ cr ∷ []) (without_tokens false (split_inclusive raw))
            (no_lf-token_line token h),
      )
      (tokens_of-StartsWith token (push_token [] (token_of (token_line token ++ cr ∷ [])))
        (split_where (λ b. b == lf) (without_tokens false (split_inclusive raw)))
        (rw (token_of-token_line token h e l) (unfold push_token in refl)))
