-- ===== src/Message/Headers/Tests.antt =====
-- The headers of a small message.
use camelmailer.Base.{◌≡◌, refl, map, some}
use camelmailer.Text.{codes, lf, to_ascii_lowercase}
use camelmailer.Message.Headers.{header_value}

folded_value :
    header_value
      (λ b. b)
      (map to_ascii_lowercase)
      (codes "To: a\nFrom: b\n c\n\nFrom: x")
      (codes "FROM")
    ≡ some (codes "b c")
unfolding header_value camelmailer.Message.Headers.parse_headers codes camelmailer.Text.trim_end
    camelmailer.Text.trim_end_where camelmailer.Text.trim_start camelmailer.Text.is_whitespace
    to_ascii_lowercase
folded_value = refl
