-- ===== src/Money.antt =====
-- Amounts as texts: `parseMoney`, `moneyText` and `class Money` of nanacoin_ui/src/app/api/money.ts.
-- `Intl.NumberFormat` is the platform's: what it prints for a locale is a parameter.
pub mod Digits
pub mod Reads
pub mod Fractions
pub mod RoundTrip
pub mod Service
pub mod Tests
use nanacoin.Prelude.{
  ℕ, zero, suc, ◌+◌, ◌-◌, ◌*◌, ◌/◌, ◌%◌, ◌^◌, Bool, true, false, ◌||◌, ◌&&◌, not, if◌then◌else◌,
  Option, none, some, or_else, List, [], ◌∷◌, ◌++◌, any, all, length, reversed, ltb, leb, ◌==◌,
  Text, is_empty, same_text, trim, ℤ, neg_part, pos_part,
}
use nanacoin.Money.Digits.{number_text}

abbrev pub max_money : ℕ
max_money = 1000000000000000

-- What `Intl.NumberFormat` gives for a locale: `format grouping n`, and the parts of type
-- `decimal` and `minusSign`.
pub record Locale : Type 0 where
  pub format : Bool → ℕ → Text
  pub decimal : Option Text
  pub minus_sign : Option Text

-- The errors that `parseMoney` throws, in the order of the source.
pub data Refusal : Type 0 where
  precision wrong_point not_plain too_fine too_big : Refusal

pub data Reading : Type 0 where
  amount : ℕ → Reading
  refused : Refusal → Reading

abbrev starts_with : Text → Text → Bool
starts_with [] s = true
starts_with (a ∷ p) [] = false
starts_with (a ∷ p) (c ∷ s) = a == c && starts_with p s

-- `s.split(old).join(new)` for an `old` that is not empty. `skip` counts what is left of a match.
abbrev pub replace_from : ℕ → Text → Text → Text → Text
replace_from skip old new [] = []
replace_from (suc k) old new (c ∷ s) = replace_from k old new s
replace_from zero old new (c ∷ s) = elim (starts_with old (c ∷ s)) [
  | true ↦ new ++ replace_from (length old - 1) old new s
  | false ↦ c ∷ replace_from zero old new s
]

abbrev pub replace_all : Text → Text → Text → Text
replace_all = replace_from zero

-- One round of the loop over the ten digits of the locale.
abbrev pub latin_digit : Locale → ℕ → Text → Text
latin_digit locale digit input =
    let native = locale.format false digit in
    let plain = (b'0' + digit) ∷ [] in
    if same_text native plain then input else replace_all native plain input

abbrev pub latin_digits : Locale → ℕ → Text → Text
latin_digits locale zero input = input
latin_digits locale (suc n) input = latin_digit locale n (latin_digits locale n input)

abbrev pub is_digit : ℕ → Bool
is_digit c = leb b'0' c && leb c b'9'

abbrev pub is_point : ℕ → Bool
is_point c = c == b'.'

-- `[whole, fraction] = input.split('.')`
abbrev pub whole_of : Text → Text
whole_of [] = []
whole_of (c ∷ s) = if is_point c then [] else c ∷ whole_of s

abbrev pub fraction_of : Text → Option Text
fraction_of [] = none
fraction_of (c ∷ s) = if is_point c then some s else fraction_of s

-- `0|[1-9]\d*`
abbrev pub is_whole : Text → Bool
is_whole [] = false
is_whole (c ∷ s) = all is_digit (c ∷ s) && (not (c == b'0') || is_empty s)

-- `(?:\.\d+)?`
abbrev pub is_fraction : Option Text → Bool
is_fraction none = true
is_fraction (some s) = not (is_empty s) && all is_digit s

-- `/^(0|[1-9]\d*)(?:\.\d+)?$/.test(input)`
abbrev pub is_plain : Text → Bool
is_plain input = is_whole (whole_of input) && is_fraction (fraction_of input)

-- `BigInt(text)` of a text of digits
abbrev pub value_from : ℕ → Text → ℕ
value_from n [] = n
value_from n (c ∷ s) = value_from (n * 10 + (c - b'0')) s

abbrev pub value : Text → ℕ
value = value_from 0

abbrev pub zero_digits : ℕ → Text
zero_digits zero = []
zero_digits (suc n) = b'0' ∷ zero_digits n

-- `s.padEnd(n, '0')`
abbrev pub pad_end : ℕ → Text → Text
pad_end n s = s ++ zero_digits (n - length s)

-- `s.padStart(n, '0')`
abbrev pub pad_start : ℕ → Text → Text
pad_start n s = zero_digits (n - length s) ++ s

abbrev pub minor_units : ℕ → Text → Text → ℕ
minor_units decimals whole fraction =
    value whole * 10 ^ decimals + value (pad_end decimals fraction)

abbrev pub bounded : ℕ → Reading
bounded minor =
    if ltb max_money minor then Reading.refused Refusal.too_big else Reading.amount minor

-- `parseMoney` from the test of the plain form on
unfoldable pub read_plain : ℕ → Text → Reading
read_plain decimals input =
    let fraction = or_else (fraction_of input) [] in
    if not (is_plain input)
    then Reading.refused Refusal.not_plain
    else if ltb decimals (length fraction)
    then Reading.refused Refusal.too_fine
    else bounded (minor_units decimals (whole_of input) fraction)

unfoldable pub parse_money : Locale → ℕ → Text → Reading
unfolding read_plain
parse_money locale decimals text =
    let point = or_else locale.decimal (b'.' ∷ []) in
    let input = latin_digits locale 10 (trim text) in
    if ltb 8 decimals
    then Reading.refused Refusal.precision
    else if same_text point (b'.' ∷ [])
    then read_plain decimals input
    else if any is_point input
    then Reading.refused Refusal.wrong_point
    else read_plain decimals (replace_all point (b'.' ∷ []) input)

-- `s.replace(/0+$/, '')`
abbrev pub drop_zeros : Text → Text
drop_zeros [] = []
drop_zeros (c ∷ s) = if c == b'0' then drop_zeros s else c ∷ s

abbrev pub without_zeros : Text → Text
without_zeros s = reversed (drop_zeros (reversed s))

-- The fraction of `moneyText`, before its digits are those of the locale.
unfoldable pub fraction_text : ℕ → ℕ → Text
fraction_text decimals magnitude =
    without_zeros (pad_start decimals (number_text (magnitude % 10 ^ decimals)))

abbrev pub native_digits : Locale → Text → Text
native_digits locale [] = []
native_digits locale (c ∷ s) = locale.format false (c - b'0') ++ native_digits locale s

-- `moneyText(value, decimals, locale, grouping)`
unfoldable pub money_text : Locale → ℤ → ℕ → Bool → Text
unfolding fraction_text
money_text locale value decimals grouping =
    let magnitude = pos_part value + neg_part value in
    let sign = if neg_part value == 0 then [] else or_else locale.minus_sign (b'-' ∷ []) in
    let fraction = fraction_text decimals magnitude in
    let rest =
      if is_empty fraction
      then []
      else or_else locale.decimal (b'.' ∷ []) ++ native_digits locale fraction in
    sign ++ locale.format grouping (magnitude / 10 ^ decimals) ++ rest
