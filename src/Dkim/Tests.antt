-- ===== src/Dkim/Tests.antt =====
-- The canonical form of small bodies and headers.
use camelmailer.Base.{◌≡◌, refl, false, some, List, [], ◌∷◌, ◌++◌, map, pos, All, is_empty}
use camelmailer.Text.{Text, codes, split_where, to_ascii_lowercase}
use camelmailer.Dkim.{Signing, canonical_text, split_message, canonicalize_header, sign_and_prepend}
use camelmailer.Dkim.Laws.{is_lf, lines_text}
use camelmailer.Dkim.Words.{words}
use camelmailer.Dkim.Form.{IsRelaxed, ends_in, canonical_text-IsRelaxed}

abbrev lib : Signing
lib = record {
  from_utf8_lossy = λ b. b;
  to_lowercase = map to_ascii_lowercase;
  base64_encode = λ b. codes "B";
  sha256 = λ b. b;
  sign_sha256 = λ b. b;
}

blanks : canonical_text (codes "a \t b \r\n\r\nc\n\r\n\r\n") ≡ codes "a b\r\n\r\nc\r\n"
unfolding canonical_text codes camelmailer.Text.is_whitespace
blanks = refl

-- A no-break space at the end of a line is lost, which is no blank of RFC 6376.
no_break_space : canonical_text (codes "a" ++ 0xa0 ∷ codes "\r\n") ≡ codes "a\r\n"
unfolding canonical_text codes camelmailer.Text.is_whitespace
no_break_space = refl

folded :
    split_message lib (codes "A: b\r\n c\r\nD: e\r\n\r\nbody")
    ≡ (codes "A: b\r\n c" ∷ codes "D: e" ∷ [], codes "body")
unfolding split_message codes
folded = refl

unfolded :
    canonicalize_header lib (codes "Subject : a\r\n  b ") ≡ some (codes "subject", codes "a b")
unfolding canonicalize_header codes camelmailer.Text.trim_end camelmailer.Text.trim_end_where
    camelmailer.Text.trim_start camelmailer.Text.is_whitespace to_ascii_lowercase
unfolded = refl

-- Of two headers of a name the first is signed, where RFC 6376 takes the last.
two_recipients :
    sign_and_prepend lib (codes "To: a\r\nTo: b\r\n\r\n") (codes "d") (codes "s") (pos 5)
    ≡ some (
        codes
          "DKIM-Signature: v=1; a=rsa-sha256; c=relaxed/relaxed; d=d; s=s; t=5; h=to; bh=B; b=B\r\nTo: a\r\nTo: b\r\n\r\n")
unfolding sign_and_prepend codes to_ascii_lowercase camelmailer.Text.is_whitespace
    camelmailer.Text.Format.decimal_i64 camelmailer.Text.trim_end camelmailer.Text.trim_end_where
    camelmailer.Text.trim_start
two_recipients = refl

-- Two lines with words, an empty one between them, and two empty ones at the end.
abbrev body : Text
body = codes "a \t b \r\n\r\nc\n\r\n\r\n"

canonical_text-IsRelaxed_example :
    ((ls : List Text) × (canonical_text body ≡ lines_text ls)
      × All IsRelaxed ls
      × (ends_in (λ l. is_empty l) ls ≡ false)
      × ((rest : List Text) × (map words (split_where is_lf body) ≡ map words ls ++ map words rest)
          × All (λ l. l ≡ []) rest))
    × (canonical_text (canonical_text body) ≡ canonical_text body)
canonical_text-IsRelaxed_example = canonical_text-IsRelaxed body
