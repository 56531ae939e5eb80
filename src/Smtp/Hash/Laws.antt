-- ===== src/Smtp/Hash/Laws.antt =====
-- Stripping a header leaves the trace headers in front of it alone, and the input of the request hash
-- determines the envelope and the data.
use camelmailer.Base.{
  ℕ, ◌^◌, ◌<◌, ◌≡◌, refl, ap, sym, ◌∙◌, Bool, true, false, not, some, List, [], ◌∷◌, ◌++◌, map,
  append_assoc, ◌==◌, is_empty, length, all, arith,
}
use camelmailer.Text.{Text, Bytes, lf, as_bytes, strip_suffix_char}
use camelmailer.Smtp.Types.{Recipient}
use camelmailer.Smtp.Hash.{
  split_inclusive, line_content, is_folded, has_name, strip_lines, strip_message_header,
  to_be_bytes, framed, framed_recipients, hash_input,
}

abbrev pub no_lf : List ℕ → Bool
no_lf = all (λ b. not (b == lf))

-- A line without a line feed inside is the first of the lines.
pub split_inclusive_line :
    (s rest : Bytes)
    → no_lf s ≡ true
    → split_inclusive (s ++ lf ∷ rest) ≡ (s ++ lf ∷ []) ∷ split_inclusive rest
unfolding split_inclusive
split_inclusive_line [] rest h = refl
split_inclusive_line (b ∷ s) rest h = ground (arith, split_inclusive_line s rest)

pub strip_suffix_char_snoc : (k : ℕ) (s : Text) → strip_suffix_char k (s ++ k ∷ []) ≡ some s
unfolding strip_suffix_char
strip_suffix_char_snoc k [] = ground arith
strip_suffix_char_snoc k (x ∷ []) = ground arith
strip_suffix_char_snoc k (x ∷ y ∷ s) = ground (arith, strip_suffix_char_snoc k (y ∷ s))

to_be_bytes_injective : (m n : ℕ) → m < 2 ^ 64 → n < 2 ^ 64 → to_be_bytes m ≡ to_be_bytes n → m ≡ n
unfolding to_be_bytes
to_be_bytes_injective m n hm hn e = ground arith

append_injective : (a b x y : Bytes) → length a ≡ length b → a ++ x ≡ b ++ y → (a ≡ b) × (x ≡ y)
append_injective [] [] x y l e = (refl, e)
append_injective [] (c ∷ b) x y l e = absurd (omega arith)
append_injective (c ∷ a) [] x y l e = absurd (omega arith)
append_injective (c ∷ a) (d ∷ b) x y l e =
    let rest = append_injective a b x y (omega arith) (cc) in (cc rest.0, rest.1)

-- The eight bytes of two lengths, in front of two texts.
be_prefix_injective :
    (m n : ℕ) (x y : Bytes)
    → m < 2 ^ 64
    → n < 2 ^ 64
    → to_be_bytes m ++ x ≡ to_be_bytes n ++ y
    → (m ≡ n) × (x ≡ y)
be_prefix_injective m n x y hm hn e =
    let parts =
      append_injective (to_be_bytes m) (to_be_bytes n) x y (unfold to_be_bytes in refl) e in
    (to_be_bytes_injective m n hm hn parts.0, parts.1)

framed_injective :
    (a b x y : Bytes)
    → length a < 2 ^ 64
    → length b < 2 ^ 64
    → framed a ++ x ≡ framed b ++ y
    → (a ≡ b) × (x ≡ y)
unfolding framed
framed_injective a b x y ha hb e =
    let parts = be_prefix_injective (length a) (length b) (a ++ x) (b ++ y) ha hb (
      sym (append_assoc (to_be_bytes (length a)) a x)
      ∙ (e ∙ append_assoc (to_be_bytes (length b)) b y)) in
    append_injective a b x y parts.0 parts.1

-- The recipients' addresses, as bytes.
abbrev pub addresses : List Recipient → List Bytes
addresses = map (λ (r : Recipient). as_bytes r.rcpt_to)

abbrev pub IsShort : Bytes → Type 0
IsShort b = length b < 2 ^ 64

abbrev pub AllShort : List Bytes → Type 0
AllShort [] = Unit
AllShort (b ∷ bs) = IsShort b × AllShort bs

framed_recipients_injective :
    (rs qs : List Recipient) (x y : Bytes)
    → length rs ≡ length qs
    → AllShort (addresses rs)
    → AllShort (addresses qs)
    → framed_recipients rs ++ x ≡ framed_recipients qs ++ y
    → (addresses rs ≡ addresses qs) × (x ≡ y)
unfolding framed_recipients
framed_recipients_injective [] [] x y l hr hq e = (refl, e)
framed_recipients_injective [] (q ∷ qs) x y l hr hq e = absurd (omega arith)
framed_recipients_injective (r ∷ rs) [] x y l hr hq e = absurd (omega arith)
framed_recipients_injective (r ∷ rs) (q ∷ qs) x y l hr hq e =
    let first =
      framed_injective (as_bytes r.rcpt_to) (as_bytes q.rcpt_to) (framed_recipients rs ++ x)
        (framed_recipients qs ++ y) hr.0 hq.0
        (sym (append_assoc (framed (as_bytes r.rcpt_to)) (framed_recipients rs) x)
          ∙ (e ∙ append_assoc (framed (as_bytes q.rcpt_to)) (framed_recipients qs) y)) in
    let rest = framed_recipients_injective rs qs x y (omega arith) hr.1 hq.1 first.1 in
    (cc (first.0, rest.0), rest.1)

-- No two submissions feed the hasher the same bytes: sender, recipients in order and client data can
-- be read back, where every part is shorter than 2 ^ 64 bytes.
pub hash_input_injective :
    (from from' : Text) (rs rs' : List Recipient) (body body' : Bytes)
    → IsShort (as_bytes from)
    → IsShort (as_bytes from')
    → length rs < 2 ^ 64
    → length rs' < 2 ^ 64
    → AllShort (addresses rs)
    → AllShort (addresses rs')
    → IsShort body
    → IsShort body'
    → hash_input from rs body ≡ hash_input from' rs' body'
    → (as_bytes from ≡ as_bytes from') × (addresses rs ≡ addresses rs') × (body ≡ body')
unfolding hash_input
hash_input_injective from from' rs rs' body body' hf hf' hn hn' hr hr' hb hb' e =
    let sender = framed_injective (as_bytes from) (as_bytes from') _ _ hf hf' e in
    let count = be_prefix_injective (length rs) (length rs') _ _ hn hn' sender.1 in
    let mid =
      framed_recipients_injective rs rs' (framed body) (framed body') count.0 hr hr' count.1 in
    let last = framed_injective body body' [] [] hb hb' (ap (λ (t : Bytes). t ++ []) mid.1) in
    (sender.0, mid.0, last.0)

-- What `strip_message_header` does with a line of the header block that has another name.
pub record IsOtherHeader (name s : Bytes) : Type 0 where
  pub one_line : no_lf s ≡ true
  pub not_empty : is_empty (line_content (s ++ lf ∷ [])) ≡ false
  pub not_folded : is_folded (line_content (s ++ lf ∷ [])) ≡ false
  pub other_name : has_name name (line_content (s ++ lf ∷ [])) ≡ false

pub strip-other_header :
    (name s rest : Bytes)
    → IsOtherHeader name s
    → strip_message_header (s ++ lf ∷ rest) name ≡ (s ++ lf ∷ []) ++ strip_message_header rest name
strip-other_header name s rest h =
    unfold strip_message_header in
    rw (split_inclusive_line s rest h.one_line)
      (unfold strip_lines in rw (h.not_empty, h.not_folded, h.other_name) refl)
