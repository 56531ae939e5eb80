-- ===== src/Text/Format.antt =====
-- What `format!` prints of a number: decimal of an unsigned and of a signed one, and hexadecimal
-- bytes (`{:02x}`).
use camelmailer.Base.{
  ℕ, zero, suc, ◌+◌, ◌/◌, ◌%◌, [], ◌∷◌, ◌++◌, ltb, if◌then◌else◌, ℤ, pos, negsuc,
}
use camelmailer.Text.{Text, Bytes}

-- `fuel` bounds the number of digits; n + 1 of them are enough for n.
unfoldable pub decimal_fuel : ℕ → ℕ → Text
decimal_fuel zero n = []
decimal_fuel (suc fuel) n =
    let front = decimal_fuel fuel (n / 10) in
    if ltb n 10 then (b'0' + n) ∷ [] else front ++ (b'0' + n % 10) ∷ []

unfoldable pub decimal : ℕ → Text
unfolding decimal_fuel
decimal n = decimal_fuel (suc n) n

unfoldable pub decimal_i64 : ℤ → Text
unfolding decimal
decimal_i64 (pos n) = decimal n
decimal_i64 (negsuc n) = b'-' ∷ decimal (suc n)

unfoldable pub hex_digit : ℕ → ℕ
hex_digit d = if ltb d 10 then b'0' + d else b'W' + d

unfoldable pub hex_of_bytes : Bytes → Text
unfolding hex_digit
hex_of_bytes [] = []
hex_of_bytes (b ∷ bs) = hex_digit (b / 16) ∷ hex_digit (b % 16) ∷ hex_of_bytes bs
