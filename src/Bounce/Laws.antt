-- ===== src/Bounce/Laws.antt =====
-- The classification of notifications: it does not panic on ASCII text, and rests on a diagnostic line.
use camelmailer.Base.{
  ℕ, ◌≡◌, ◌≢◌, ◌⊎◌, inl, inr, refl, true, Option, none, some, List, [], ◌∷◌, ltb, ◌==◌, if_both,
  is_some, unwrap_or, All, map, arith, OnSome,
}
use camelmailer.Text.{
  Text, Bytes, lf, cr, trim, trim_end, strip_suffix_char, trim_start, byte_len, is_whitespace,
  codes,
}
use camelmailer.Text.Laws.{
  is_ascii, all-trim_start, all-trim_end_where, all-strip_suffix_char, split_at_byte_ascii,
}
use camelmailer.Smtp.Hash.{split_inclusive}
use camelmailer.Bounce.{
  BounceCategory, hard, soft, undetermined, classify_response, classify_lines, classify_dsn,
  after_prefix, diagnostic_value, line_text, or_else,
}

AllAscii : List Text → Type 0
AllAscii = All (λ l. is_ascii l ≡ true)

ascii_char : (c : ℕ) (s : Text) → is_ascii (c ∷ s) ≡ true → is_ascii (c ∷ []) ≡ true
ascii_char c s h = ground arith

ascii_rest : (c : ℕ) (s : Text) → is_ascii (c ∷ s) ≡ true → is_ascii s ≡ true
ascii_rest c s h = ground arith

ascii_cons :
    (c : ℕ) (s t : Text) → is_ascii (c ∷ s) ≡ true → is_ascii t ≡ true → is_ascii (c ∷ t) ≡ true
ascii_cons c s t h k = ground arith

split_inclusive-AllAscii : (s : Text) → is_ascii s ≡ true → AllAscii (split_inclusive s)
unfolding split_inclusive AllAscii
split_inclusive-AllAscii [] h = tt
split_inclusive-AllAscii (c ∷ s) h =
    let rest = split_inclusive-AllAscii s (ascii_rest c s h) in
    if_both AllAscii (c == lf) (λ _. (ascii_char c s h, rest))
      (λ _. extended (split_inclusive s) rest)
  where
    extended :
        (ls : List Text)
        → AllAscii ls
        → AllAscii (elim ls [ [] ↦ (c ∷ []) ∷ [] | w ∷ ws ↦ (c ∷ w) ∷ ws ])
    extended [] k = (ascii_char c s h, tt)
    extended (w ∷ ws) k = (ascii_cons c s w h k.0, k.1)

after_prefix-ascii :
    (prefix line : Text) → is_ascii line ≡ true → is_some (after_prefix prefix line) ≡ true
unfolding after_prefix
after_prefix-ascii prefix line h = ground (arith, split_at_byte_ascii line (byte_len prefix))

diagnostic_value-ascii :
    (line : Text) → is_ascii line ≡ true → is_some (diagnostic_value line) ≡ true
unfolding diagnostic_value
diagnostic_value-ascii line h = ground (
  arith,
  after_prefix-ascii (codes "Status:") line h,
  after_prefix-ascii (codes "Diagnostic-Code:") line h,
)

trim-ascii : (s : Text) → is_ascii s ≡ true → is_ascii (trim s) ≡ true
unfolding trim trim_end
trim-ascii s h =
    all-trim_end_where (λ c. ltb c 128) is_whitespace (trim_start s)
      (all-trim_start (λ c. ltb c 128) s h)

line_text-ascii : (line : Text) → is_ascii line ≡ true → is_ascii (line_text line) ≡ true
unfolding line_text
line_text-ascii line h =
    stripped (strip_suffix_char lf line) (all-strip_suffix_char (λ c. ltb c 128) lf line h)
  where
    stripped :
        (o : Option Text)
        → OnSome (λ r. is_ascii r ≡ true) o
        → is_ascii (elim o [ none ↦ line | some l ↦ unwrap_or l (strip_suffix_char cr l) ]) ≡ true
    stripped none k = h
    stripped (some l) k =
        returned (strip_suffix_char cr l) (all-strip_suffix_char (λ c. ltb c 128) cr l k)
      where
        returned :
            (o : Option Text) → OnSome (λ r. is_ascii r ≡ true) o → is_ascii (unwrap_or l o) ≡ true
        returned none _ = k
        returned (some r) q = q

classify_lines-ascii :
    (ls : List Text) → AllAscii ls → is_some (classify_lines (map line_text ls)) ≡ true
unfolding classify_lines or_else AllAscii
classify_lines-ascii [] h = refl
classify_lines-ascii (l ∷ ls) h =
    chosen (diagnostic_value (trim (line_text l)))
      (diagnostic_value-ascii (trim (line_text l))
        (trim-ascii (line_text l) (line_text-ascii l h.0)))
      (classify_lines (map line_text ls)) (classify_lines-ascii ls h.1)
  where
    categorised :
        (c : BounceCategory) (r : Option BounceCategory)
        → is_some r ≡ true
        → is_some (or_else c r) ≡ true
    categorised hard r k = refl
    categorised soft r k = refl
    categorised undetermined r k = k

    chosen :
        (o : Option (Option Text))
        → is_some o ≡ true
        → (rest : Option BounceCategory) → is_some rest ≡ true
        → is_some (elim o [
          | none ↦ none
          | some none ↦ rest
          | some (some value) ↦ or_else (classify_response value) rest
        ])
          ≡ true
    chosen none k rest r = absurd (cc)
    chosen (some none) k rest r = r
    chosen (some (some value)) k rest r = categorised (classify_response value) rest r

-- A notification whose text is ASCII is classified: the slices at the length of a field name do not
-- panic.
pub classify_dsn_total :
    (from_utf8_lossy : Bytes → Text) (raw : Bytes)
    → is_ascii (from_utf8_lossy raw) ≡ true
    → is_some (classify_dsn from_utf8_lossy raw) ≡ true
unfolding classify_dsn
classify_dsn_total from_utf8_lossy raw h =
    classify_lines-ascii (split_inclusive (from_utf8_lossy raw))
      (split_inclusive-AllAscii (from_utf8_lossy raw) h)

-- The category that a line speaks for.
abbrev pub SpeaksFor : BounceCategory → Text → Type 0
SpeaksFor c line =
    (value : Text) × (diagnostic_value (trim line) ≡ some (some value))
    × (classify_response value ≡ c)

abbrev pub SomeLine : (Text → Type 0) → List Text → Type 0
SomeLine P [] = ⊥
SomeLine P (l ∷ ls) = P l ⊎ SomeLine P ls

classify_lines-SpeaksFor :
    (c : BounceCategory) (ls : List Text)
    → c ≢ undetermined
    → classify_lines ls ≡ some c
    → SomeLine (SpeaksFor c) ls
unfolding classify_lines or_else
classify_lines-SpeaksFor c [] n e = absurd (n (cc))
classify_lines-SpeaksFor c (l ∷ ls) n e =
    chosen (diagnostic_value (trim l)) refl (λ k. inr (classify_lines-SpeaksFor c ls n k)) e
  where
    categorised :
        (value : Text)
        → diagnostic_value (trim l) ≡ some (some value)
        → (classify_lines ls ≡ some c → SomeLine (SpeaksFor c) (l ∷ ls))
        → (b : BounceCategory) → classify_response value ≡ b
        → or_else b (classify_lines ls) ≡ some c
        → SomeLine (SpeaksFor c) (l ∷ ls)
    categorised value d rest undetermined q r = rest r
    categorised value d rest hard q r = inl (value, d, cc)
    categorised value d rest soft q r = inl (value, d, cc)

    chosen :
        (o : Option (Option Text))
        → diagnostic_value (trim l) ≡ o
        → (classify_lines ls ≡ some c → SomeLine (SpeaksFor c) (l ∷ ls))
        → (elim o [
          | none ↦ none
          | some none ↦ classify_lines ls
          | some (some value) ↦ or_else (classify_response value) (classify_lines ls)
        ])
          ≡ some c
        → SomeLine (SpeaksFor c) (l ∷ ls)
    chosen none d rest k = absurd (cc)
    chosen (some none) d rest k = rest k
    chosen (some (some value)) d rest k = categorised value d rest (classify_response value) refl k

-- A notification is classified as hard or soft only by a status or diagnostic line whose own value is
-- so classified, whatever numbers stand elsewhere in the message.
pub classify_dsn-SpeaksFor :
    (from_utf8_lossy : Bytes → Text) (raw : Bytes) (c : BounceCategory)
    → c ≢ undetermined
    → classify_dsn from_utf8_lossy raw ≡ some c
    → SomeLine (SpeaksFor c) (map line_text (split_inclusive (from_utf8_lossy raw)))
unfolding classify_dsn
classify_dsn-SpeaksFor from_utf8_lossy raw c n e =
    classify_lines-SpeaksFor c (map line_text (split_inclusive (from_utf8_lossy raw))) n e
