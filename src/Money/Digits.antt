-- ===== src/Money/Digits.antt =====
-- `n.toString()` of a natural number: the decimal digits.
use mathlib.Core.Logic.{dite, ite}
use mathlib.Core.WellFounded.{Acc, WellFounded, Acc-prop}
use native.Mathlib.Decide.{dec_lt}
use nanacoin.Prelude.{
  ℕ, zero, suc, ◌+◌, ◌/◌, ◌%◌, ◌<◌, ◌≡◌, arith, if◌then◌else◌, [], ◌∷◌, Text, ◌==◌,
}

descends : (bound n : ℕ) → n < bound → Acc ◌<◌ n
descends zero n h = absurd (omega arith)
descends (suc bound) n h = Acc.intro n λ m lt. descends bound m (omega arith)

pub by_size : WellFounded ◌<◌
unfolding descends
by_size = record { apply = λ n. descends (suc n) n (omega arith) }

pub shrinks : {n : ℕ} → 0 < n → n / 10 < n
shrinks h = omega arith

divide : (n : ℕ) → Acc ◌<◌ n → Text → Text
divide n (Acc.intro _ less) out =
    dite (dec_lt 0 n) (λ h. divide (n / 10) (less (n / 10) (shrinks h)) ((b'0' + n % 10) ∷ out))
      (λ _. out)

-- The digits of `n` in front of `out`; none for 0.
unfoldable pub digits_onto : ℕ → Text → Text
unfolding divide by_size dec_lt descends
digits_onto n = divide n (by_size.apply n)

divide_round :
    (n : ℕ) (w : Acc ◌<◌ n) (v : Acc ◌<◌ (n / 10)) (out : Text)
    → divide n w out ≡ ite (dec_lt 0 n) (divide (n / 10) v ((b'0' + n % 10) ∷ out)) out
unfolding divide
divide_round n (Acc.intro _ less) v out = λ i.
    dite (dec_lt 0 n)
      (λ h. divide (n / 10) (Acc-prop (less (n / 10) (shrinks h)) v i) ((b'0' + n % 10) ∷ out))
      (λ _. out)

pub digits_onto_round :
    (n : ℕ) (out : Text)
    → digits_onto n out ≡ ite (dec_lt 0 n) (digits_onto (n / 10) ((b'0' + n % 10) ∷ out)) out
unfolding digits_onto
digits_onto_round n out = divide_round n (by_size.apply n) (by_size.apply (n / 10)) out

pub digits_onto_none : (out : Text) → digits_onto 0 out ≡ out
digits_onto_none out = ground (arith, digits_onto_round 0 out)

pub digits_onto_more :
    (n : ℕ) (out : Text) → 0 < n → digits_onto n out ≡ digits_onto (n / 10) ((b'0' + n % 10) ∷ out)
digits_onto_more n out h = ground (arith, digits_onto_round n out)

unfoldable pub number_text : ℕ → Text
unfolding digits_onto
number_text n = if n == 0 then b'0' ∷ [] else digits_onto n []
