-- ===== src/Text.antt =====
-- Text as the source handles it: a `str` is the list of its code points, a byte string the list of
-- its bytes. What `str` measures in bytes (`len`, slicing) goes through the UTF-8 width here, so a
-- slice that is no character boundary is visible as `none` (the source panics there).
pub mod Laws
pub mod Format
use Prim.Native.Char.{code}
use camelmailer.Base.{
  ℕ, zero, suc, ◌+◌, ◌-◌, ◌*◌, ◌/◌, ◌%◌, String, Bool, true, false, ◌&&◌, ◌||◌, Option, none, some,
  List, [], ◌∷◌, ◌++◌, map, ltb, leb, ◌==◌, if◌then◌else◌, is_empty, any,
}

abbrev pub Text : Type 0
Text = List ℕ

abbrev pub Bytes : Type 0
Bytes = List ℕ

-- The code points of a literal.
unfoldable pub codes : String → Text
codes String.[] = []
codes (String.◌∷◌ c s) = code c ∷ codes s

abbrev pub lf : ℕ
lf = 10

abbrev pub cr : ℕ
cr = 13

-- `char::is_whitespace`: the code points with the Unicode property White_Space.
unfoldable pub is_whitespace : ℕ → Bool
is_whitespace c =
    (leb 9 c && leb c 13)
    || c == 32
    || c == 0x85
    || c == 0xa0
    || c == 0x1680
    || (leb 0x2000 c && leb c 0x200a)
    || c == 0x2028
    || c == 0x2029
    || c == 0x202f
    || c == 0x205f
    || c == 0x3000

unfoldable pub to_ascii_uppercase : ℕ → ℕ
to_ascii_uppercase c = if leb b'a' c && leb c b'z' then c - 32 else c

unfoldable pub to_ascii_lowercase : ℕ → ℕ
to_ascii_lowercase c = if leb b'A' c && leb c b'Z' then c + 32 else c

unfoldable pub is_ascii_digit : ℕ → Bool
is_ascii_digit c = leb b'0' c && leb c b'9'

unfoldable pub is_ascii_alphanumeric : ℕ → Bool
unfolding is_ascii_digit
is_ascii_alphanumeric c =
    is_ascii_digit c || (leb b'A' c && leb c b'Z') || (leb b'a' c && leb c b'z')

-- `==` on texts.
unfoldable pub text_eq : Text → Text → Bool
text_eq [] [] = true
text_eq (a ∷ s) (b ∷ t) = a == b && text_eq s t
text_eq _ _ = false

-- `eq_ignore_ascii_case`
unfoldable pub eq_ignore_ascii_case : Text → Text → Bool
unfolding text_eq to_ascii_lowercase
eq_ignore_ascii_case s t = text_eq (map to_ascii_lowercase s) (map to_ascii_lowercase t)

unfoldable pub trim_start : Text → Text
trim_start [] = []
trim_start (c ∷ s) = if is_whitespace c then trim_start s else c ∷ s

-- `trim_start_matches(p)`
unfoldable pub trim_start_where : (ℕ → Bool) → Text → Text
trim_start_where p [] = []
trim_start_where p (c ∷ s) = let r = trim_start_where p s in if p c then r else c ∷ s

unfoldable pub trim_end_where : (ℕ → Bool) → Text → Text
trim_end_where p [] = []
trim_end_where p (c ∷ s) = let r = trim_end_where p s in if is_empty r && p c then [] else c ∷ r

unfoldable pub trim_end : Text → Text
trim_end = trim_end_where is_whitespace

unfoldable pub trim : Text → Text
trim s = trim_end (trim_start s)

-- `s.starts_with(prefix)`
unfoldable pub starts_with : Text → Text → Bool
starts_with s [] = true
starts_with [] (p ∷ ps) = false
starts_with (c ∷ s) (p ∷ ps) = c == p && starts_with s ps

-- `s.strip_prefix(prefix)`
unfoldable pub strip_prefix : Text → Text → Option Text
strip_prefix s [] = some s
strip_prefix [] (p ∷ ps) = none
strip_prefix (c ∷ s) (p ∷ ps) = let rest = strip_prefix s ps in if c == p then rest else none

-- `s.strip_suffix(c)` for one character.
unfoldable pub strip_suffix_char : ℕ → Text → Option Text
strip_suffix_char c [] = none
strip_suffix_char c (x ∷ []) = if x == c then some [] else none
strip_suffix_char c (x ∷ y ∷ s) = elim (strip_suffix_char c (y ∷ s)) [
  | none ↦ none
  | some r ↦ some (x ∷ r)
]

-- `s.split_once(c)`
unfoldable pub split_once : ℕ → Text → Option (Text × Text)
split_once c [] = none
split_once c (x ∷ s) = elim (x == c) [
  | true ↦ some ([], s)
  | false ↦ elim (split_once c s) [ none ↦ none | some (a, b) ↦ some (x ∷ a, b) ]
]

-- The text after the last `c`, as `&s[s.rfind(c)? + 1..]` for an ASCII `c`.
unfoldable pub after_last : ℕ → Text → Option Text
after_last c [] = none
after_last c (x ∷ s) = elim (after_last c s) [
  | none ↦ if x == c then some s else none
  | some r ↦ some r
]

-- The text before the first `c`, or the whole text where there is none.
unfoldable pub before_first : ℕ → Text → Text
before_first c [] = []
before_first c (x ∷ s) = if x == c then [] else x ∷ before_first c s

-- The text before the first place where `p` stands: `&s[..s.find(p)?]`.
unfoldable pub before_text : Text → Text → Option Text
before_text p [] = if is_empty p then some [] else none
before_text p (x ∷ s) = elim (starts_with (x ∷ s) p) [
  | true ↦ some []
  | false ↦ elim (before_text p s) [ none ↦ none | some r ↦ some (x ∷ r) ]
]

-- `s.contains(p)` for a text `p`.
unfoldable pub contains : Text → Text → Bool
contains [] p = is_empty p
contains (x ∷ s) p = starts_with (x ∷ s) p || contains s p

-- `s.split(p)` for a test on characters.
unfoldable pub split_where : (ℕ → Bool) → Text → List Text
split_where p [] = [] ∷ []
split_where p (x ∷ s) = elim (split_where p s) [
  | [] ↦ (x ∷ []) ∷ []
  | w ∷ ws ↦ if p x then [] ∷ w ∷ ws else (x ∷ w) ∷ ws
]

-- The number of bytes of a code point in UTF-8, and the bytes.
unfoldable pub width : ℕ → ℕ
width c = if ltb c 0x80 then 1 else if ltb c 0x800 then 2 else if ltb c 0x10000 then 3 else 4

unfoldable pub encode_char : ℕ → Bytes
encode_char c =
    if ltb c 0x80
    then c ∷ []
    else if ltb c 0x800
    then (0xc0 + c / 64) ∷ (0x80 + c % 64) ∷ []
    else if ltb c 0x10000
    then (0xe0 + c / 4096) ∷ (0x80 + c / 64 % 64) ∷ (0x80 + c % 64) ∷ []
    else (0xf0 + c / 262144) ∷ (0x80 + c / 4096 % 64) ∷ (0x80 + c / 64 % 64) ∷ (0x80 + c % 64) ∷ []

-- `s.as_bytes()` and `s.len()`
unfoldable pub as_bytes : Text → Bytes
unfolding encode_char
as_bytes [] = []
as_bytes (c ∷ s) = encode_char c ++ as_bytes s

unfoldable pub byte_len : Text → ℕ
unfolding width
byte_len [] = 0
byte_len (c ∷ s) = width c + byte_len s

-- `(&s[..n], &s[n..])`; `none` where the source panics, since `n` is no character boundary or lies
-- past the end.
unfoldable pub split_at_byte : Text → ℕ → Option (Text × Text)
unfolding width
split_at_byte s zero = some ([], s)
split_at_byte [] (suc n) = none
split_at_byte (c ∷ s) (suc n) = elim (leb (width c) (suc n)) [
  | false ↦ none
  | true ↦ elim (split_at_byte s (suc n - width c)) [ none ↦ none | some (a, b) ↦ some (c ∷ a, b) ]
]
