-- ===== src/Quota/Month.antt =====
-- `UsageMonth::parse` and `UsageMonth::label` of crates/camelmailer-core/src/quota.rs, with the parsers of
-- `i32` and `u32` on texts that are too short to overflow.
use camelmailer.Base.{
  ℕ, zero, suc, ◌+◌, ◌-◌, ◌*◌, ◌/◌, ◌%◌, ◌≤◌, ◌<◌, ◌≡◌, refl, Bool, true, ◌&&◌, Option, none, some,
  [], ◌∷◌, ◌++◌, ltb, ◌==◌, if◌then◌else◌, length, ℤ, pos, negsuc, ◌>>=◌, map_option, arith,
  Bool-cases, inl, inr,
}
use camelmailer.Text.{Text, is_ascii_digit, split_once, width, byte_len}
use camelmailer.Text.Format.{decimal, decimal_fuel}
use camelmailer.Quota.{UsageMonth}

-- `s.parse()` of the digits after a sign.
unfoldable pub digits_from : ℕ → Text → Option ℕ
unfolding is_ascii_digit
digits_from n [] = some n
digits_from n (c ∷ s) =
    let rest = digits_from (n * 10 + (c - b'0')) s in if is_ascii_digit c then rest else none

unfoldable pub digits : Text → Option ℕ
unfolding digits_from
digits [] = none
digits (c ∷ s) = digits_from 0 (c ∷ s)

unfoldable pub parse_u32 : Text → Option ℕ
unfolding digits
parse_u32 [] = none
parse_u32 (c ∷ s) = if c == b'+' then digits s else digits (c ∷ s)

negated : ℕ → ℤ
negated zero = pos 0
negated (suc n) = negsuc n

unfoldable pub parse_i32 : Text → Option ℤ
unfolding digits negated
parse_i32 [] = none
parse_i32 (c ∷ s) =
    if c == b'+'
    then map_option pos (digits s)
    else if c == b'-'
    then map_option negated (digits s)
    else map_option pos (digits (c ∷ s))

-- `{:0w}` of a number: zeros before its digits, up to the width.
zeros : ℕ → Text → Text
zeros zero s = s
zeros (suc n) s = b'0' ∷ zeros n s

unfoldable pub padded : ℕ → ℕ → Text
unfolding decimal zeros
padded w n = let s = decimal n in zeros (w - length s) s

unfoldable pub padded_i32 : ℕ → ℤ → Text
unfolding padded
padded_i32 w (pos n) = padded w n
padded_i32 w (negsuc n) = b'-' ∷ padded (w - 1) (suc n)

unfoldable pub label : UsageMonth → Text
unfolding padded padded_i32
label m = padded_i32 4 m.year ++ (b'-' ∷ padded 2 m.month)

-- `is_date` is whether the calendar has the first day of the month.
month_of_parts : (ℤ → ℕ → Bool) → Text → Text → Option UsageMonth
unfolding parse_i32 parse_u32
month_of_parts is_date y m = do
  year ← parse_i32 y
  month ← parse_u32 m
  if is_date year month then some (record { year = year; month = month }) else none

unfoldable pub parse_month : (ℤ → ℕ → Bool) → Text → Option UsageMonth
unfolding split_once byte_len month_of_parts
parse_month is_date value = do
  parts ← split_once b'-' value
  if byte_len parts.0 == 4 && byte_len parts.1 == 2
      then month_of_parts is_date parts.0 parts.1
      else none

-- The digits of a year and of a month.
abbrev year_digits : ℕ → Text
year_digits y =
    (b'0' + y / 1000) ∷ (b'0' + y / 100 % 10) ∷ (b'0' + y / 10 % 10) ∷ (b'0' + y % 10) ∷ []

abbrev month_digits : ℕ → Text
month_digits m = (b'0' + m / 10) ∷ (b'0' + m % 10) ∷ []

one_digit : (f n : ℕ) → n < 10 → decimal_fuel (suc f) n ≡ (b'0' + n) ∷ []
unfolding decimal_fuel
one_digit f n b = ground arith

more_digits :
    (f n : ℕ) → 10 ≤ n → decimal_fuel (suc f) n ≡ decimal_fuel f (n / 10) ++ (b'0' + n % 10) ∷ []
unfolding decimal_fuel
more_digits f n b = ground arith

padded_digits :
    (f n : ℕ)
    → n < 10000
    → (let s = decimal_fuel (suc (suc (suc (suc f)))) n in zeros (4 - length s) s) ≡ year_digits n
unfolding zeros
padded_digits f n b = elim (Bool-cases (ltb n 10)) [
  | inl l ↦ rw (one_digit (suc (suc (suc f))) n (ground arith)) (ground arith)
  | inr l ↦ elim (Bool-cases (ltb n 100)) [
    | inl m ↦
        rw
          (
            more_digits (suc (suc (suc f))) n (ground arith),
            one_digit (suc (suc f)) (n / 10) (ground arith),
          )
          (ground arith)
    | inr m ↦ elim (Bool-cases (ltb n 1000)) [
      | inl k ↦
          rw
            (
              more_digits (suc (suc (suc f))) n (ground arith),
              more_digits (suc (suc f)) (n / 10) (ground arith),
              one_digit (suc f) (n / 10 / 10) (ground arith),
            )
            (ground arith)
      | inr k ↦
          rw
            (
              more_digits (suc (suc (suc f))) n (ground arith),
              more_digits (suc (suc f)) (n / 10) (ground arith),
              more_digits (suc f) (n / 10 / 10) (ground arith),
              one_digit f (n / 10 / 10 / 10) (ground arith),
            )
            (ground arith)
    ]
  ]
]

padded_year : (y : ℕ) → y < 10000 → padded 4 y ≡ year_digits y
unfolding padded
padded_year zero b = refl
padded_year (suc zero) b = refl
padded_year (suc (suc zero)) b = refl
padded_year (suc (suc (suc f))) b = padded_digits f (suc (suc (suc f))) b

padded_month : (m : ℕ) → m < 100 → padded 2 m ≡ month_digits m
unfolding padded zeros decimal_fuel
padded_month zero b = refl
padded_month (suc f) b = ground arith

digit : (d : ℕ) → d < 10 → is_ascii_digit (b'0' + d) ≡ true
unfolding is_ascii_digit
digit d b = ground arith

parse_year : (y : ℕ) → y < 10000 → parse_i32 (year_digits y) ≡ some (pos y)
unfolding parse_i32
parse_year y b = ground (
  arith,
  digit (y / 1000) (omega arith),
  digit (y / 100 % 10) (omega arith),
  digit (y / 10 % 10) (omega arith),
  digit (y % 10) (omega arith),
)

parse_month_digits : (m : ℕ) → m < 100 → parse_u32 (month_digits m) ≡ some m
unfolding parse_u32
parse_month_digits m b = ground (arith, digit (m / 10) (omega arith), digit (m % 10) (omega arith))

split_label :
    (y m : ℕ)
    → y < 10000
    → split_once b'-' (year_digits y ++ (b'-' ∷ month_digits m))
      ≡ some (year_digits y, month_digits m)
unfolding split_once
split_label y m b = ground arith

width_digit : (d : ℕ) → d < 10 → width (b'0' + d) ≡ 1
unfolding width
width_digit d b = ground arith

year_len : (y : ℕ) → y < 10000 → byte_len (year_digits y) ≡ 4
unfolding byte_len
year_len y b = ground (
  arith,
  width_digit (y / 1000) (omega arith),
  width_digit (y / 100 % 10) (omega arith),
  width_digit (y / 10 % 10) (omega arith),
  width_digit (y % 10) (omega arith),
)

month_len : (m : ℕ) → m < 100 → byte_len (month_digits m) ≡ 2
unfolding byte_len
month_len m b =
    ground (arith, width_digit (m / 10) (omega arith), width_digit (m % 10) (omega arith))

month_of_digits :
    (is_date : ℤ → ℕ → Bool) (y m : ℕ)
    → y < 10000
    → m < 100
    → is_date (pos y) m ≡ true
    → month_of_parts is_date (year_digits y) (month_digits m)
      ≡ some (record { year = pos y; month = m })
unfolding month_of_parts
month_of_digits is_date y m b c d =
    rw (month_of_parts, parse_year y b, parse_month_digits m c, d) refl

-- A label of a year of four digits reads as its month, where the calendar has it.
pub parse_month-label :
    (is_date : ℤ → ℕ → Bool) (y m : ℕ)
    → y < 10000
    → m < 100
    → is_date (pos y) m ≡ true
    → parse_month is_date (label (record { year = pos y; month = m }))
      ≡ some (record { year = pos y; month = m })
unfolding parse_month label padded_i32
parse_month-label is_date y m b c d =
    rw (padded_year y b, padded_month m c, split_label y m b, year_len y b, month_len m c)
      (month_of_digits is_date y m b c d)
