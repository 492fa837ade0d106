-- ===== src/Ledger/Lottos/Scaled.antt =====
-- What a reform of the currency does to a draw (`reform` of nanacoin_ui/src/app/demo/lotto.ts).
use nanacoin.Prelude.{
  ℕ, zero, suc, ◌+◌, ◌*◌, ◌/◌, ◌%◌, ◌^◌, ◌≤◌, ◌<◌, ◌≡◌, refl, sym, ap, ◌∙◌, subst, arith, false,
  not, ◌==◌, List, [], ◌∷◌, All, ℤ, pos, negsuc, pos_part, neg_part, *ℕ_parts, int_laws, ◌*ℕ◌,
}
use native.Mathlib.Nat.{div-add-mod', mul-div_cancel, le_of_mul-le-mul_right, mul-le-mul_right}
use nanacoin.Exec.{Exec, Result, ok, err, Fault, lift, gets, modify, ◌>>=◌}
use nanacoin.Model.{Draw}
use nanacoin.Ledger.State.{Ledger}
use nanacoin.Ledger.Conversion.{
  convert, convert_or, shift_units, convert_each, map_ok, then_ok, is_inexact, draw_units, draw_in,
}
use nanacoin.Ledger.Lottos.Fair.{sold_tickets}

-- `reform(convert)` of the lotto, and the writes that it returns.
unfoldable pub reform_draws : ℤ → Exec Ledger (Unit {0})
unfolding ◌>>=◌ convert_each
reform_draws exponent = do
  converted ← gets (λ s. convert_each (draw_in exponent) s.lotto)
  draws ← lift converted
  modify (λ s. record s { lotto = draws })

-- The tickets are those of the entries, the pool is their price, and the interest is no more than
-- that of the pool at the rate.
pub record IsSound (d : Draw) : Type 0 where
  pub counted : sold_tickets d.entries ≡ d.tickets
  pub priced : d.pool ≡ d.tickets * d.terms.ticket_price
  pub earned : d.interest * 10000 ≤ d.pool * d.terms.rate_bps

abbrev up : ℤ → ℕ
up e = 10 ^ pos_part e

abbrev down : ℤ → ℕ
down e = 10 ^ neg_part e

power_pos : (a : ℕ) → 0 < 10 ^ a
power_pos zero = omega arith
power_pos (suc a) = omega (arith, power_pos a)

cancel_factor : (a b n : ℕ) → 0 < n → a * n ≡ b * n → a ≡ b
cancel_factor a b n h e = sym (mul-div_cancel a h) ∙ (ap (λ z. z / n) e ∙ mul-div_cancel b h)

err_not_ok : {A : Type 0} {e : Fault} {a : A} → ¬ (err e ≡ ok a)
err_not_ok h = cc

module _ {A B : Type 0} where
  then_ok-inverse :
      (r : Result A) (k : A → Result B) (b : B)
      → then_ok r k ≡ ok b
      → (a : A) × (r ≡ ok a) × (k a ≡ ok b)
  then_ok-inverse (err e) k b h = absurd (err_not_ok h)
  then_ok-inverse (ok a) k b h = (a, refl, h)

  map_ok-inverse :
      (f : A → B) (r : Result A) (b : B) → map_ok f r ≡ ok b → (a : A) × (r ≡ ok a) × (f a ≡ b)
  map_ok-inverse f (err e) b h = absurd (err_not_ok h)
  map_ok-inverse f (ok a) b h = (a, refl, ground arith)

draw_units-value :
    (e : ℤ) (n v : ℕ)
    → draw_units e n ≡ ok v
    → (is_inexact e (pos n) ≡ false) × (pos_part (shift_units e (pos n)) ≡ v)
unfolding convert convert_or
draw_units-value e n v h = ground arith

raised : (n k : ℕ) → pos n *ℕ 10 ^ k ≡ pos (n * 10 ^ k)
raised n k = omega (int_laws, *ℕ_parts (pos n) (10 ^ k))

no_remainder : (n d : ℕ) → not ((n + 0) % d == 0) ≡ false → n % d ≡ 0
no_remainder n d h = subst (λ m. m % d ≡ 0) (plus_zero n) (rest ((n + 0) % d) h)
  where
    plus_zero : (n : ℕ) → n + 0 ≡ n
    plus_zero n = omega arith

    rest : (r : ℕ) → not (r == 0) ≡ false → r ≡ 0
    rest r h = ground arith

times_one : (n m : ℕ) → n ≡ m → n * 10 ^ 0 ≡ m
times_one n m h = omega (arith, h)

whole : (n v d : ℕ) → n % d ≡ 0 → n / d ≡ v → v * d ≡ n * 10 ^ 0
whole n v d h e = omega (arith, div-add-mod' n d, ap (λ z. z * d) e)

-- What is converted is in the ratio of the powers of ten.
draw_units-ratio : (e : ℤ) (n v : ℕ) → draw_units e n ≡ ok v → v * down e ≡ n * up e
unfolding shift_units
draw_units-ratio (pos k) n v h =
    times_one v (n * 10 ^ k)
      (sym (sym (ap pos_part (raised n k)) ∙ (draw_units-value (pos k) n v h).1))
draw_units-ratio (negsuc k) n v h =
    let (whole_units, value) = draw_units-value (negsuc k) n v h in
    whole n v (10 ^ suc k) (no_remainder n (10 ^ suc k) whole_units) value

priced-scales :
    (t pool price pool' price' u d : ℕ)
    → 0 < d
    → pool' * d ≡ pool * u
    → price' * d ≡ price * u
    → pool ≡ t * price
    → pool' ≡ t * price'
priced-scales t pool price pool' price' u d h e f g =
    cancel_factor pool' (t * price') d h (omega (arith, e, ap (λ z. t * z) f, ap (λ z. z * u) g))

cancel_order : (a b d : ℕ) → 0 < d → a * d ≤ b * d → a ≤ b
cancel_order a b d h e = le_of_mul-le-mul_right e h

times_order : (a b u : ℕ) → a ≤ b → a * u ≤ b * u
times_order a b u h = mul-le-mul_right u h

earned-scales :
    (interest pool interest' pool' rate u d : ℕ)
    → 0 < d
    → interest' * d ≡ interest * u
    → pool' * d ≡ pool * u
    → interest * 10000 ≤ pool * rate
    → interest' * 10000 ≤ pool' * rate
earned-scales interest pool interest' pool' rate u d h e f g =
    cancel_order (interest' * 10000) (pool' * rate) d h
      (omega (arith, e, ap (λ z. z * rate) f, times_order (interest * 10000) (pool * rate) u g))

draw_in-IsSound : (e : ℤ) (d d' : Draw) → draw_in e d ≡ ok d' → IsSound d → IsSound d'
draw_in-IsSound e d d' h sound =
    let (price, priced, h1) = then_ok-inverse _ _ d' h in
    let (pool, pooled, h2) = then_ok-inverse _ _ d' h1 in
    let (interest, earned, same) = map_ok-inverse _ _ d' h2 in
    subst IsSound same record {
      counted = sound.counted;
      priced =
          priced-scales d.tickets d.pool d.terms.ticket_price pool price (up e) (down e)
            (power_pos (neg_part e)) (draw_units-ratio e d.pool pool pooled)
            (draw_units-ratio e d.terms.ticket_price price priced) sound.priced;
      earned =
          earned-scales d.interest d.pool interest pool d.terms.rate_bps (up e) (down e)
            (power_pos (neg_part e)) (draw_units-ratio e d.interest interest earned)
            (draw_units-ratio e d.pool pool pooled) sound.earned;
    }

ok_eq : (a b : List Draw) → Path (Result (List Draw)) (ok a) (ok b) → a ≡ b
ok_eq a b h = cc

draws_in-IsSound :
    (e : ℤ) (ds ds' : List Draw)
    → convert_each (draw_in e) ds ≡ ok ds'
    → All IsSound ds
    → All IsSound ds'
unfolding convert_each
draws_in-IsSound e [] ds' h sound = subst (All IsSound) (ok_eq [] ds' h) tt
draws_in-IsSound e (d ∷ ds) ds' h (sound, sounds) =
    let (d', first, h1) = then_ok-inverse _ _ ds' h in
    let (rest, later, same) = map_ok-inverse (λ x. d' ∷ x) (convert_each (draw_in e) ds) ds' h1 in
    subst (All IsSound) same
      (draw_in-IsSound e d d' first sound, draws_in-IsSound e ds rest later sounds)

written-Sound :
    (e : ℤ) (s : Ledger) (r : Result (List Draw))
    → convert_each (draw_in e) s.lotto ≡ r
    → All IsSound s.lotto
    → All IsSound ((lift r >>= λ draws. modify (λ s. record s { lotto = draws })) s).1.lotto
unfolding ◌>>=◌
written-Sound e s (err x) h sound = sound
written-Sound e s (ok ds) h sound = draws_in-IsSound e s.lotto ds h sound

-- A reform of the lotto keeps every draw sound, or writes nothing.
pub reform_draws-Sound :
    (e : ℤ) (s : Ledger) → All IsSound s.lotto → All IsSound (reform_draws e s).1.lotto
unfolding reform_draws ◌>>=◌
reform_draws-Sound e s sound = written-Sound e s (convert_each (draw_in e) s.lotto) refl sound
