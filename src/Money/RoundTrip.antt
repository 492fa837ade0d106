-- ===== src/Money/RoundTrip.antt =====
-- An amount that is printed for an input field is read back.
use nanacoin.Prelude.{
  ℕ, zero, suc, ◌+◌, ◌-◌, ◌*◌, ◌/◌, ◌%◌, ◌^◌, ◌≤◌, ◌<◌, ◌≡◌, refl, arith, true, false,
  if◌then◌else◌, some, none, [], ◌∷◌, ◌++◌, All, length, All-append, Text, is_empty, trim-Solid,
  Solid, pos,
}
use native.Mathlib.Nat.{div-add-mod'}
use nanacoin.Money.Digits.{number_text, digits_onto_none, digits_onto_more}
use nanacoin.Money.Reads.{
  Digit, value-number_text, number_text-Digit, is_whole-number_text, all-Digit,
}
use nanacoin.Money.Fractions.{fraction-ReadsAs}
use nanacoin.Money.{
  Locale, Reading, is_whole, whole_of, fraction_of, max_money, parse_money, money_text,
  fraction_text, read_plain, latin_digits, latin_digit, native_digits, bounded, minor_units,
}

-- Where a text is split.
abbrev tail : Text → Text
tail f = if is_empty f then [] else b'.' ∷ f

whole_of-point : (w f : Text) → All Digit w → whole_of (w ++ (b'.' ∷ f)) ≡ w
whole_of-point [] f h = refl
whole_of-point (c ∷ w) f (h, hs) = ground (arith, whole_of-point w f hs)

fraction_of-point : (w f : Text) → All Digit w → fraction_of (w ++ (b'.' ∷ f)) ≡ some f
fraction_of-point [] f h = refl
fraction_of-point (c ∷ w) f (h, hs) = ground (arith, fraction_of-point w f hs)

whole_of-digits : (w : Text) → All Digit w → whole_of (w ++ []) ≡ w
whole_of-digits [] h = refl
whole_of-digits (c ∷ w) (h, hs) = ground (arith, whole_of-digits w hs)

fraction_of-digits : (w : Text) → All Digit w → fraction_of (w ++ []) ≡ none
fraction_of-digits [] h = refl
fraction_of-digits (c ∷ w) (h, hs) = ground (arith, fraction_of-digits w hs)

read_parts :
    (decimals : ℕ) (w f : Text)
    → is_whole w ≡ true
    → All Digit w
    → All Digit f
    → length f ≤ decimals
    → read_plain decimals (w ++ tail f) ≡ bounded (minor_units decimals w f)
unfolding read_plain
read_parts d w [] whole all-w all-f short =
    rw (whole_of-digits w all-w, fraction_of-digits w all-w, whole) (ground arith)
read_parts d w (c ∷ f) whole all-w all-f short =
    rw
      (
        whole_of-point w (c ∷ f) all-w,
        fraction_of-point w (c ∷ f) all-w,
        whole,
        all-Digit (c ∷ f) all-f,
      )
      (ground arith)

-- What `Intl` prints in a locale of Latin digits with a point, without groups.
pub record IsPlain (locale : Locale) : Type 0 where
  pub plain_number : (n : ℕ) → locale.format false n ≡ number_text n
  pub plain_point : locale.decimal ≡ some (b'.' ∷ [])

last_digit : (d : ℕ) → d < 10 → d / 10 ≡ 0
last_digit d h = omega arith

digit-number_text : (d : ℕ) → d < 10 → number_text d ≡ (b'0' + d) ∷ []
unfolding number_text
digit-number_text d h =
    ground (arith, digits_onto_more d [], digits_onto_none ((b'0' + d % 10) ∷ []), last_digit d h)

below_ten : (c : ℕ) → Digit c → c - b'0' < 10
below_ten c h = ground arith

Digit-Solid : (c : ℕ) → Digit c → Solid c
Digit-Solid c h = ground arith

All-Solid : (s : Text) → All Digit s → All Solid s
All-Solid [] h = tt
All-Solid (c ∷ s) (h, hs) = (Digit-Solid c h, All-Solid s hs)

tail-Solid : (f : Text) → All Digit f → All Solid (tail f)
tail-Solid [] h = tt
tail-Solid (c ∷ f) h = (refl, All-Solid (c ∷ f) h)

-- The units of a whole part and its remainder.
together : (n scale : ℕ) → n / scale * scale + n % scale ≡ n
together n scale = div-add-mod' n scale

bounded-amount : (n : ℕ) → n ≤ max_money → bounded n ≡ Reading.amount n
bounded-amount n h = ground arith

plus_nothing : (n : ℕ) → n + 0 ≡ n
plus_nothing n = omega arith

module _ (locale : Locale) (plain : IsPlain locale) where
  latin_digit-plain : (d : ℕ) (s : Text) → d < 10 → latin_digit locale d s ≡ s
  latin_digit-plain d s h = rw (plain.plain_number d, digit-number_text d h) (ground arith)

  latin_digits-plain : (n : ℕ) (s : Text) → n ≤ 10 → latin_digits locale n s ≡ s
  latin_digits-plain zero s h = refl
  latin_digits-plain (suc n) s h =
      rw (latin_digits-plain n s (omega arith)) (latin_digit-plain n s h)

  native_digits-plain : (s : Text) → All Digit s → native_digits locale s ≡ s
  native_digits-plain [] h = refl
  native_digits-plain (c ∷ s) (h, hs) =
      rw
        (
          plain.plain_number (c - b'0'),
          digit-number_text (c - b'0') (below_ten c h),
          native_digits-plain s hs,
        )
        (ground arith)

  money_text-plain :
      (n decimals : ℕ)
      → money_text locale (pos n) decimals false
        ≡ number_text (n / 10 ^ decimals) ++ tail (fraction_text decimals n)
  unfolding money_text
  money_text-plain n decimals =
      let r = fraction-ReadsAs decimals n in
      rw
        (
          plus_nothing n,
          plain.plain_number (n / 10 ^ decimals),
          plain.plain_point,
          native_digits-plain (fraction_text decimals n) r.digits,
        )
        refl

  parse_money-Solid :
      (decimals : ℕ) (s : Text)
      → decimals ≤ 8
      → All Solid s
      → parse_money locale decimals s ≡ read_plain decimals s
  unfolding parse_money
  parse_money-Solid decimals s h solid =
      rw (trim-Solid s solid, latin_digits-plain 10 s (omega arith), plain.plain_point)
        (ground arith)

  -- In a locale that prints Latin digits with a point, an amount of minor units that is at most
  -- the largest amount of money, printed without groups for an input field with the currency's
  -- decimals (at most eight), is read back as the same amount.
  pub parse_money-money_text :
      (decimals n : ℕ)
      → decimals ≤ 8
      → n ≤ max_money
      → parse_money locale decimals (money_text locale (pos n) decimals false) ≡ Reading.amount n
  parse_money-money_text decimals n h bound =
      let w = number_text (n / 10 ^ decimals) in
      let f = fraction_text decimals n in
      let r = fraction-ReadsAs decimals n in
      rw
        (
          money_text-plain n decimals,
          parse_money-Solid decimals (w ++ tail f) h (
              All-append Solid w (tail f) (All-Solid w (number_text-Digit (n / 10 ^ decimals)))
                (tail-Solid f r.digits)),
          read_parts decimals w f (is_whole-number_text (n / 10 ^ decimals))
              (number_text-Digit (n / 10 ^ decimals)) r.digits r.short,
          value-number_text (n / 10 ^ decimals),
          r.reads,
          together n (10 ^ decimals),
        )
        (bounded-amount n bound)
