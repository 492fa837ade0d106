-- ===== src/Money/Fractions.antt =====
-- The fraction of a printed amount: the digits that are left, and their value.
use nanacoin.Prelude.{
  ℕ, zero, suc, ◌-◌, ◌%◌, ◌^◌, ◌≤◌, ◌<◌, ◌≡◌, refl, sym, ap, subst, ◌∙◌, arith, if◌then◌else◌,
  if-elim, [], ◌∷◌, ◌++◌, All, all, length, length-append, reversed, reverse_onto,
  reversed-reversed, reverse_onto-append, reverse_onto-tail, All-reversed, All-append, ◌==◌, Text,
}
use native.Mathlib.Nat.{mod-lt}
use nanacoin.Money.Digits.{number_text}
use nanacoin.Money.Reads.{
  Digit, value-number_text, number_text-Digit, length-number_text, value_from-zero_digits,
  zero_digits-Digit, length-zero_digits,
}
use nanacoin.Money.{
  value, zero_digits, pad_start, pad_end, drop_zeros, without_zeros, fraction_text,
}

leading_zeros : Text → ℕ
leading_zeros [] = 0
leading_zeros (c ∷ s) = if c == b'0' then suc (leading_zeros s) else 0

drop_zeros-split : (s : Text) → zero_digits (leading_zeros s) ++ drop_zeros s ≡ s
unfolding leading_zeros
drop_zeros-split [] = refl
drop_zeros-split (c ∷ s) = ground (arith, drop_zeros-split s)

zeros_shift : (k : ℕ) (s : Text) → zero_digits k ++ (b'0' ∷ s) ≡ b'0' ∷ (zero_digits k ++ s)
zeros_shift zero s = refl
zeros_shift (suc k) s = ap (b'0' ∷◌) (zeros_shift k s)

reverse_zeros : (k : ℕ) (s : Text) → reverse_onto (zero_digits k) s ≡ zero_digits k ++ s
reverse_zeros zero s = refl
reverse_zeros (suc k) s = reverse_zeros k (b'0' ∷ s) ∙ zeros_shift k s

zero_digits-append_nil : (k : ℕ) → zero_digits k ++ [] ≡ zero_digits k
zero_digits-append_nil zero = refl
zero_digits-append_nil (suc k) = ap (b'0' ∷◌) (zero_digits-append_nil k)

-- Zeros at the end of a fraction, which the print leaves out.
without_zeros-split : (p : Text) → without_zeros p ++ zero_digits (leading_zeros (reversed p)) ≡ p
without_zeros-split p =
    let q = reversed p in
    let k = leading_zeros q in
    sym (reverse_onto-tail (drop_zeros q) [] (zero_digits k))
    ∙ ap (reverse_onto (drop_zeros q)) (sym (reverse_zeros k [] ∙ zero_digits-append_nil k))
    ∙ sym (reverse_onto-append (zero_digits k) (drop_zeros q) [])
    ∙ ap reversed (drop_zeros-split q)
    ∙ reversed-reversed p

rest_length : (n k : ℕ) (f p : Text) → f ++ zero_digits k ≡ p → length p ≡ n → n - length f ≡ k
rest_length n k f p e h =
    omega (arith, ap length e, length-append f (zero_digits k), length-zero_digits k)

-- The reading puts them back.
pad_end-without_zeros : (n : ℕ) (p : Text) → length p ≡ n → pad_end n (without_zeros p) ≡ p
pad_end-without_zeros n p h =
    let k = leading_zeros (reversed p) in
    let e = without_zeros-split p in
    ap (λ j. without_zeros p ++ zero_digits j) (rest_length n k (without_zeros p) p e h) ∙ e

All-drop_zeros : (s : Text) → All Digit s → All Digit (drop_zeros s)
All-drop_zeros [] h = tt
All-drop_zeros (c ∷ s) (h, hs) =
    if-elim (All Digit) (c == b'0') (drop_zeros s) (c ∷ s) (All-drop_zeros s hs) (h, hs)

without_zeros-Digit : (s : Text) → All Digit s → All Digit (without_zeros s)
without_zeros-Digit s h =
    All-reversed Digit (drop_zeros (reversed s))
      (All-drop_zeros (reversed s) (All-reversed Digit s h))

length-pad_start : (n : ℕ) (s : Text) → length s ≤ n → length (pad_start n s) ≡ n
length-pad_start n s h =
    omega (arith, length-append (zero_digits (n - length s)) s, length-zero_digits (n - length s))

-- The fraction of a print: its digits, at most as many as the currency has, are read as the
-- remainder.
pub record ReadsAs (decimals remainder : ℕ) (fraction : Text) : Type 0 where
  pub digits : All Digit fraction
  pub short : length fraction ≤ decimals
  pub reads : value (pad_end decimals fraction) ≡ remainder

split_length : (k : ℕ) (f p : Text) → f ++ zero_digits k ≡ p → length f ≤ length p
split_length k f p e = omega (arith, ap length e, length-append f (zero_digits k))

stripped-ReadsAs :
    (n r : ℕ) (p : Text) → All Digit p → length p ≡ n → value p ≡ r → ReadsAs n r (without_zeros p)
stripped-ReadsAs n r p all len val = record {
  digits = without_zeros-Digit p all;
  short =
      subst (length (without_zeros p) ≤◌) len
        (split_length (leading_zeros (reversed p)) (without_zeros p) p (without_zeros-split p));
  reads = ap value (pad_end-without_zeros n p len) ∙ val;
}

pub pow-pos : (k : ℕ) → 0 < 10 ^ k
pow-pos zero = omega arith
pow-pos (suc k) = omega (arith, pow-pos k)

mod_one : (m : ℕ) → 0 ≡ m % 10 ^ 0
mod_one m = omega arith

nothing-ReadsAs : ReadsAs 0 0 (without_zeros (pad_start 0 (number_text 0)))
unfolding number_text
nothing-ReadsAs = record { digits = tt; short = omega arith; reads = refl }

pub fraction-ReadsAs :
    (decimals m : ℕ) → ReadsAs decimals (m % 10 ^ decimals) (fraction_text decimals m)
unfolding fraction_text
fraction-ReadsAs zero m =
    subst (λ r. ReadsAs 0 r (without_zeros (pad_start 0 (number_text r)))) (mod_one m)
      nothing-ReadsAs
fraction-ReadsAs (suc k) m =
    let r = m % 10 ^ suc k in
    stripped-ReadsAs (suc k) r (pad_start (suc k) (number_text r))
      (All-append Digit (zero_digits (suc k - length (number_text r))) (number_text r)
        (zero_digits-Digit _) (number_text-Digit r))
      (length-pad_start (suc k) (number_text r)
        (length-number_text k r (mod-lt m (pow-pos (suc k)))))
      (value_from-zero_digits (suc k - length (number_text r)) (number_text r)
        ∙ value-number_text r)
