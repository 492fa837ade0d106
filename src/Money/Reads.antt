-- ===== src/Money/Reads.antt =====
-- What the digits of a number are, and what their text is read as.
use nanacoin.Prelude.{
  ℕ, zero, suc, ◌+◌, ◌/◌, ◌%◌, ◌^◌, ◌≤◌, ◌<◌, ◌≡◌, refl, sym, ap, subst, ◌≢◌, arith, true, if-elim,
  [], ◌∷◌, ◌++◌, All, all, length, ◌==◌, Text,
}
use nanacoin.Money.Digits.{
  number_text, digits_onto, digits_onto_none, digits_onto_more, by_size, shrinks,
}
use nanacoin.Money.{is_digit, value, value_from, zero_digits, is_whole}
use mathlib.Core.WellFounded
use native.Mathlib.Decide.{dec_lt}

abbrev leading : Text → ℕ
leading [] = b'0'
leading (c ∷ s) = c

abbrev pub Digit : ℕ → Type 0
Digit c = is_digit c ≡ true

zero_eq : (m : ℕ) → ¬ (0 < m) → 0 ≡ m
zero_eq m h = omega arith

leading_step :
    (n : ℕ) (out s : Text)
    → 0 < n
    → (0 < n / 10 → leading s ≢ b'0') × (n / 10 ≡ 0 → s ≡ (b'0' + n % 10) ∷ out)
    → leading s ≢ b'0'
leading_step n out s h (more, last) e = elim (dec_lt 0 (n / 10)) [
  | yes p ↦ more p e
  | no p ↦ ground (arith, last (sym (zero_eq (n / 10) p)))
]

-- By recursion on the size of a number, as its digits are made.
module _ (P : ℕ → Text → Text → Type 0) (nothing : (out : Text) → P 0 out out)
    (digit : (n : ℕ) (out s : Text)
      → 0 < n
      → P (n / 10) ((b'0' + n % 10) ∷ out) s
      → P n out s) where
  digits_onto-induction : (n : ℕ) (out : Text) → P n out (digits_onto n out)
  digits_onto-induction n =
      WellFounded.induction by_size {C = λ m. (out : Text) → P m out (digits_onto m out)} n
        λ m ih out. elim (dec_lt 0 m) [
          | yes h ↦
              rw (digits_onto_more m out h)
                (digit m out _ h (ih (m / 10) (shrinks h) ((b'0' + m % 10) ∷ out)))
          | no h ↦
              subst (λ k. P k out (digits_onto k out)) (zero_eq m h)
                (rw (digits_onto_none out) (nothing out))
        ]

value-digits_onto : (n : ℕ) (out : Text) → value (digits_onto n out) ≡ value_from n out
value-digits_onto =
    digits_onto-induction (λ n out s. value s ≡ value_from n out) (λ out. refl)
      (λ n out s h e. ground arith)

digits_onto-Digit : (n : ℕ) (out : Text) → All Digit out → All Digit (digits_onto n out)
digits_onto-Digit =
    digits_onto-induction (λ n out s. All Digit out → All Digit s) (λ out h. h)
      (λ n out s h step all. step (ground arith, all))

leading_digits :
    (n : ℕ) (out : Text)
    → (0 < n → leading (digits_onto n out) ≢ b'0') × (n ≡ 0 → digits_onto n out ≡ out)
leading_digits =
    digits_onto-induction (λ n out s. (0 < n → leading s ≢ b'0') × (n ≡ 0 → s ≡ out))
      (λ out. (λ h. absurd (omega arith), λ h. refl))
      (λ n out s h step. (λ h'. leading_step n out s h step, λ e. absurd (omega arith)))

length-digits_onto :
    (k n : ℕ) (out : Text) → n < 10 ^ k → length (digits_onto n out) ≤ k + length out
length-digits_onto zero n out h = ground (arith, digits_onto_none out)
length-digits_onto (suc k) n out h = elim (dec_lt 0 n) [
  | yes p ↦
      rw (digits_onto_more n out p)
        (omega (arith, length-digits_onto k (n / 10) ((b'0' + n % 10) ∷ out)))
  | no p ↦
      subst (λ m. length (digits_onto m out) ≤ suc k + length out) (zero_eq n p)
        (rw (digits_onto_none out) (omega arith))
]

-- The digits of a number and of 0.
pub value-number_text : (n : ℕ) → value (number_text n) ≡ n
unfolding number_text
value-number_text n = ground (arith, value-digits_onto n [])

pub number_text-Digit : (n : ℕ) → All Digit (number_text n)
unfolding number_text
number_text-Digit n = if-elim (All Digit) (n == 0) _ _ (refl, tt) (digits_onto-Digit n [] tt)

pub all-Digit : (s : Text) → All Digit s → all is_digit s ≡ true
all-Digit [] h = refl
all-Digit (c ∷ s) (h, hs) = ground (arith, all-Digit s hs)

whole_of_digits : (s : Text) → All Digit s → leading s ≢ b'0' → is_whole s ≡ true
whole_of_digits [] h k = absurd (k refl)
whole_of_digits (c ∷ s) h k = ground (arith, all-Digit (c ∷ s) h)

whole_zero : is_whole (number_text 0) ≡ true
unfolding number_text
whole_zero = refl

number_text-positive : (n : ℕ) → 0 < n → number_text n ≡ digits_onto n []
unfolding number_text
number_text-positive n h = ground arith

pub is_whole-number_text : (n : ℕ) → is_whole (number_text n) ≡ true
is_whole-number_text n = elim (dec_lt 0 n) [
  | yes h ↦
      rw (number_text-positive n h)
        (whole_of_digits _ (digits_onto-Digit n [] tt) ((leading_digits n []).0 h))
  | no h ↦ subst (λ m. is_whole (number_text m) ≡ true) (zero_eq n h) whole_zero
]

pub length-number_text : (k n : ℕ) → n < 10 ^ suc k → length (number_text n) ≤ suc k
unfolding number_text
length-number_text k n h = ground (arith, length-digits_onto (suc k) n [])

pub value_from-zero_digits : (k : ℕ) (s : Text) → value (zero_digits k ++ s) ≡ value s
value_from-zero_digits zero s = refl
value_from-zero_digits (suc k) s = value_from-zero_digits k s

pub zero_digits-Digit : (k : ℕ) → All Digit (zero_digits k)
zero_digits-Digit zero = tt
zero_digits-Digit (suc k) = (refl, zero_digits-Digit k)

pub length-zero_digits : (k : ℕ) → length (zero_digits k) ≡ k
length-zero_digits zero = refl
length-zero_digits (suc k) = ap suc (length-zero_digits k)
