-- ===== src/Dkim.antt =====
-- crates/camelmailer-worker/src/dkim.rs: relaxed canonicalization and the signature header. The lossy
-- decoding of bytes, the lower case of Unicode, base64, SHA-256 and the signer are arguments.
pub mod Laws
pub mod Words
pub mod Form
mod Tests
use camelmailer.Base.{
  ℕ, zero, suc, ◌+◌, ◌&&◌, ◌||◌, Bool, true, false, Option, none, some, List, [], ◌∷◌, ◌++◌, ◌==◌,
  if◌then◌else◌, is_empty, map, length, drop, find, ℤ, ◌>>=◌, map_option,
}
use camelmailer.Text.{
  Text, Bytes, codes, lf, cr, text_eq, trim, trim_end, trim_end_where, split_once, split_where,
  as_bytes,
}
use camelmailer.Text.Format.{decimal_i64}
use camelmailer.Smtp.Hash.{split_inclusive}

abbrev pub crlf : Text
crlf = cr ∷ lf ∷ []

unfoldable pub signed_headers : List Text
unfolding codes
signed_headers =
    codes "from"
    ∷ codes "sender"
    ∷ codes "reply-to"
    ∷ codes "to"
    ∷ codes "cc"
    ∷ codes "subject"
    ∷ codes "date"
    ∷ codes "message-id"
    ∷ []

-- `push(' ')` for the first of a run of blanks, whose end `last_was_space` remembers.
unfoldable pub is_wsp : ℕ → Bool
is_wsp c = c == b' ' || c == 9

unfoldable pub collapse : Bool → Text → Text
unfolding is_wsp
collapse last_was_space [] = []
collapse last_was_space (c ∷ s) =
    let rest = collapse (is_wsp c) s in
    if is_wsp c then if last_was_space then rest else b' ' ∷ rest else c ∷ rest

-- `replace("\r\n", " ")` and `replace('\n', " ")`
unfoldable pub without_crlf : Text → Text
without_crlf [] = []
without_crlf (c ∷ []) = c ∷ []
without_crlf (c ∷ d ∷ s) =
    let both = without_crlf s in
    let one = without_crlf (d ∷ s) in if c == cr && d == lf then b' ' ∷ both else c ∷ one

without_lf : Text → Text
without_lf s = map (λ c. if c == lf then b' ' else c) s

unfoldable pub canonical_line : Text → Text
unfolding collapse trim_end_where trim_end
canonical_line line = trim_end (collapse false (trim_end_where (λ c. c == cr) line))

-- `while lines.last().is_some_and(..) { lines.pop() }`
unfoldable pub drop_empty_end : List Text → List Text
drop_empty_end [] = []
drop_empty_end (l ∷ ls) =
    let rest = drop_empty_end ls in if is_empty rest && is_empty l then [] else l ∷ rest

unfoldable pub join : Text → List Text → Text
join between [] = []
join between (l ∷ []) = l
join between (l ∷ m ∷ ls) = l ++ (between ++ join between (m ∷ ls))

unfoldable pub canonical_lines : Text → List Text
unfolding split_where canonical_line drop_empty_end
canonical_lines text = drop_empty_end (map canonical_line (split_where (λ c. c == lf) text))

unfoldable pub with_line_ends : List Text → Text
unfolding join
with_line_ends [] = []
with_line_ends (l ∷ ls) = join crlf (l ∷ ls) ++ crlf

unfoldable pub canonical_text : Text → Text
unfolding canonical_lines with_line_ends
canonical_text text = with_line_ends (canonical_lines text)

-- The functions of other crates, and the signer of a key.
pub record Signing : Type 0 where
  pub from_utf8_lossy : Bytes → Text
  pub to_lowercase : Text → Text
  pub base64_encode : Bytes → Text
  pub sha256 : Bytes → Bytes
  pub sign_sha256 : Bytes → Bytes

-- The current header, if there is one, at the end of the headers.
with_current : Option Text → List Text → List Text
with_current none rest = rest
with_current (some header) rest = header ∷ rest

-- A folded line goes to the header before it.
with_folded : Text → Option Text → Option Text
with_folded trimmed none = none
with_folded trimmed (some header) = some (header ++ (crlf ++ trimmed))

starts_blank : Text → Bool
unfolding is_wsp
starts_blank [] = false
starts_blank (c ∷ s) = is_wsp c

is_line_end : ℕ → Bool
is_line_end c = c == cr || c == lf

module _ (lib : Signing) where
  -- The headers of the lines that are left, and how many bytes were read.
  unfoldable pub read_headers : List Bytes → Option Text → List Text × ℕ
  unfolding with_current with_folded is_line_end starts_blank trim_end_where
  read_headers [] current = (with_current current [], 0)
  read_headers (line ∷ lines) current =
      let trimmed = trim_end_where is_line_end (lib.from_utf8_lossy line) in
      let started = read_headers lines (some trimmed) in
      let folded = read_headers lines (with_folded trimmed current) in
      if is_empty trimmed
      then (with_current current [], length line)
      else if starts_blank trimmed
      then (folded.0, length line + folded.1)
      else (with_current current started.0, length line + started.1)

  unfoldable pub split_message : Bytes → List Text × Bytes
  unfolding read_headers split_inclusive
  split_message raw_message =
      let r = read_headers (split_inclusive raw_message) none in (r.0, drop r.1 raw_message)

  unfoldable pub canonicalize_header : Text → Option (Text × Text)
  unfolding collapse without_crlf without_lf trim split_once
  canonicalize_header raw_header = do
    parts ← split_once b':' raw_header
    some
        (lib.to_lowercase (trim parts.0), trim (collapse false (without_lf (without_crlf parts.1))))

  unfoldable pub canonicalize_body : Bytes → Bytes
  unfolding canonical_text as_bytes
  canonicalize_body body = as_bytes (canonical_text (lib.from_utf8_lossy body))

  -- `filter_map(canonicalize_header)`
  canonicalized : List Text → List (Text × Text)
  unfolding canonicalize_header
  canonicalized [] = []
  canonicalized (raw ∷ raws) =
      let rest = canonicalized raws in
      elim (canonicalize_header raw) [ none ↦ rest | some header ↦ header ∷ rest ]

  -- The first header of each name.
  selected : List Text → List (Text × Text) → List (Text × Text)
  unfolding text_eq
  selected [] headers = []
  selected (name ∷ names) headers =
      let rest = selected names headers in
      elim (find (λ (h : Text × Text). text_eq h.0 name) headers) [
        | none ↦ rest
        | some header ↦ header ∷ rest
      ]

  signing_lines : List (Text × Text) → Text
  signing_lines [] = []
  signing_lines ((name, value) ∷ headers) =
      name ++ (b':' ∷ (value ++ (crlf ++ signing_lines headers)))

  -- The tags before the signature.
  unsigned_dkim : List (Text × Text) → Bytes → Text → Text → ℤ → Text
  unfolding codes join canonicalize_body decimal_i64
  unsigned_dkim headers body domain selector timestamp =
      codes "v=1; a=rsa-sha256; c=relaxed/relaxed; d="
      ++ (domain
          ++ (codes "; s="
              ++ (selector
                  ++ (codes "; t="
                      ++ (decimal_i64 timestamp
                          ++ (codes "; h="
                              ++ (join (codes ":") (map (λ (h : Text × Text). h.0) headers)
                                  ++ (codes "; bh="
                                      ++ (lib.base64_encode (lib.sha256 (canonicalize_body body))
                                          ++ codes "; b=")))))))))

  signature : List (Text × Text) → Text → Option Text
  unfolding signing_lines canonicalize_header codes as_bytes
  signature headers unsigned = do
    dkim ← canonicalize_header (codes "DKIM-Signature: " ++ unsigned)
    some (
        lib.base64_encode
          (lib.sign_sha256 (as_bytes (signing_lines headers ++ (dkim.0 ++ (b':' ∷ dkim.1))))))

  -- `none` is the panic of `expect`.
  unfoldable pub sign : Bytes → Text → Text → ℤ → Option Text
  unfolding split_message canonicalized selected signed_headers unsigned_dkim signature codes
  sign raw_message domain selector timestamp = do
    let parts = split_message raw_message
    let headers = selected signed_headers (canonicalized parts.0)
    let unsigned = unsigned_dkim headers parts.1 domain selector timestamp
    b ← signature headers unsigned
    some (codes "DKIM-Signature: " ++ (unsigned ++ b))

  unfoldable pub sign_and_prepend : Bytes → Text → Text → ℤ → Option Bytes
  unfolding sign as_bytes
  sign_and_prepend raw_message domain selector timestamp = do
    header ← sign raw_message domain selector timestamp
    some (as_bytes header ++ (crlf ++ raw_message))

-- The key of the domain, or that of the installation where there is none or it cannot be read.
unfoldable pub signer_for_domain :
    {Signer : Type 0} → (Text → Option Signer) → Option Text → Option Signer → Option Signer
signer_for_domain from_pem none installation = installation
signer_for_domain from_pem (some pem) installation = elim (from_pem pem) [
  | some signer ↦ some signer
  | none ↦ installation
]
