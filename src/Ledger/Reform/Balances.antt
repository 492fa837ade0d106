-- ===== src/Ledger/Reform/Balances.antt =====
-- What the exponents that a reform writes do to the postings in the book, and so to balances.
use nanacoin.Prelude.{
  ℕ, zero, suc, ◌+◌, ◌*◌, ◌^◌, ◌≤◌, ◌<◌, ◌≡◌, refl, sym, ap, ap₂, ◌∙◌, arith, true, false, inl, inr,
  or_else, List, [], ◌∷◌, ◌++◌, map, length, get_or, All, Bool-cases, ℤ, pos, ◌+ℤ◌, ◌*ℕ◌, *ℕ_parts,
  +ℤ_parts, eq_of_parts, int_laws, sum_by, pos_part, neg_part,
}
use native.Mathlib.Nat.{pow-suc}
use nanacoin.Model.{AccountId, same_account, same_account_iff, is_usd, Posting, Transaction}
use nanacoin.Ledger.State.{
  scale_amount, exponent_of, current_posting, current_postings, amount_at, effect, balance_in,
}

-- A transaction of an epoch that the ledger has.
abbrev pub IsDated : List ℕ → Transaction → Type 0
IsDated exponents t = or_else t.money_epoch 0 < length exponents

times_ten : (x y z : ℕ) → x ≡ y * z → x * 10 ≡ y * (z * 10)
times_ten x y z h = omega (arith, h)

power_sum : (a b : ℕ) → 10 ^ (a + b) ≡ 10 ^ a * 10 ^ b
power_sum a zero = ap (λ n. 10 ^ n) (plus_zero a) ∙ sym (times_one (10 ^ a))
  where
    plus_zero : (n : ℕ) → n + 0 ≡ n
    plus_zero n = omega arith

    times_one : (n : ℕ) → n * 10 ^ 0 ≡ n
    times_one n = omega arith
power_sum a (suc b) =
    ap (λ n. 10 ^ n) (shift a b)
    ∙ (pow-suc 10 (a + b)
        ∙ (times_ten (10 ^ (a + b)) (10 ^ a) (10 ^ b) (power_sum a b)
            ∙ ap (λ z. 10 ^ a * z) (sym (pow-suc 10 b))))
  where
    shift : (a b : ℕ) → a + suc b ≡ suc (a + b)
    shift a b = omega arith

twice_parts :
    (pa na p n q r x y k m : ℕ)
    → p + na * (k * m) ≡ n + pa * (k * m)
    → q + na * k ≡ r + pa * k
    → x + r * m ≡ y + q * m
    → p + y ≡ x + n
twice_parts pa na p n q r x y k m h f g = omega (arith, h, ap (λ z. z * m) f, g)

sum_parts :
    (pa na pb nb ps ns p n qa ra qb rb x y k : ℕ)
    → p + ns * k ≡ n + ps * k
    → ps + na + nb ≡ ns + pa + pb
    → qa + na * k ≡ ra + pa * k
    → qb + nb * k ≡ rb + pb * k
    → x + ra + rb ≡ y + qa + qb
    → p + y ≡ x + n
sum_parts pa na pb nb ps ns p n qa ra qb rb x y k h s f g e =
    omega (arith, h, ap (λ z. z * k) s, f, g, e)

times_twice : (a : ℤ) (k m : ℕ) → a *ℕ (k * m) ≡ a *ℕ k *ℕ m
times_twice a k m = eq_of_parts _ _ (
    twice_parts (pos_part a) (neg_part a) _ _ _ _ _ _ k m (*ℕ_parts a (k * m)) (*ℕ_parts a k)
      (*ℕ_parts (a *ℕ k) m))

times_sum : (a b : ℤ) (k : ℕ) → (a +ℤ b) *ℕ k ≡ a *ℕ k +ℤ b *ℕ k
times_sum a b k = eq_of_parts _ _ (
    sum_parts _ _ _ _ (pos_part (a +ℤ b)) (neg_part (a +ℤ b)) _ _ _ _ _ _ _ _ k
      (*ℕ_parts (a +ℤ b) k) (+ℤ_parts a b) (*ℕ_parts a k) (*ℕ_parts b k)
      (+ℤ_parts (a *ℕ k) (b *ℕ k)))

zero_times : (k : ℕ) → pos 0 ≡ pos 0 *ℕ k
zero_times k = omega (int_laws, *ℕ_parts (pos 0) k)

true_not_false : ¬ (true ≡ false)
true_not_false h = cc

-- The exponents that a reform writes.
module _ (n : ℕ) where
  abbrev pub shifted : List ℕ → List ℕ
  shifted es = map (λ e. e + n) es ++ 0 ∷ []

  get_or-shifted :
      (es : List ℕ) (i : ℕ) → i < length es → get_or (shifted es) i 0 ≡ get_or es i 0 + n
  get_or-shifted [] i h = absurd (omega arith)
  get_or-shifted (e ∷ es) zero h = refl
  get_or-shifted (e ∷ es) (suc i) h = get_or-shifted es i (omega arith)

  length-shifted : (es : List ℕ) → length es ≤ length (shifted es)
  length-shifted [] = omega arith
  length-shifted (e ∷ es) = omega (arith, length-shifted es)

  -- The transactions stay dated.
  pub All-shifted :
      (es : List ℕ) (ts : List Transaction) → All (IsDated es) ts → All (IsDated (shifted es)) ts
  All-shifted es [] h = tt
  All-shifted es (t ∷ ts) (h, hs) = (omega (arith, length-shifted es, h), All-shifted es ts hs)

scale_twice : (e n : ℕ) (x : ℤ) → scale_amount (e + n) x ≡ scale_amount e x *ℕ 10 ^ n
scale_twice e n x = ap (λ k. x *ℕ k) (power_sum e n) ∙ times_twice x (10 ^ e) (10 ^ n)

module _ (n : ℕ) (a : AccountId) (coin : is_usd a ≡ false) where
  not_same : (b : AccountId) → is_usd b ≡ true → same_account b a ≡ false
  not_same b h = elim (Bool-cases (same_account b a)) [
    | inl same ↦
        absurd (true_not_false (sym h ∙ (ap is_usd ((same_account_iff b a).0 same) ∙ coin)))
    | inr other ↦ other
  ]

  posting-scaled :
      (e : ℕ) (p : Posting)
      → amount_at a (current_posting (e + n) p) ≡ amount_at a (current_posting e p) *ℕ 10 ^ n
  posting-scaled e p = elim (Bool-cases (is_usd p.account)) [
    | inl dollars ↦ rw dollars (rw (not_same p.account dollars) (zero_times (10 ^ n)))
    | inr coins ↦ elim (Bool-cases (same_account p.account a)) [
      | inl same ↦ rw (coins, same) (scale_twice e n p.amount)
      | inr other ↦ rw (coins, other) (zero_times (10 ^ n))
    ]
  ]

  postings-scaled :
      (e : ℕ) (ps : List Posting)
      → sum_by (amount_at a) (map (current_posting (e + n)) ps)
        ≡ sum_by (amount_at a) (map (current_posting e) ps) *ℕ 10 ^ n
  unfolding sum_by
  postings-scaled e [] = zero_times (10 ^ n)
  postings-scaled e (p ∷ ps) =
      ap₂ ◌+ℤ◌ (posting-scaled e p) (postings-scaled e ps) ∙ sym (times_sum _ _ (10 ^ n))

  effect-scaled :
      (es : List ℕ) (t : Transaction)
      → IsDated es t
      → effect (shifted n es) a t ≡ effect es a t *ℕ 10 ^ n
  unfolding effect current_postings
  effect-scaled es t h =
      ap (λ e. sum_by (amount_at a) (map (current_posting e) t.postings))
        (get_or-shifted n es (or_else t.money_epoch 0) h)
      ∙ postings-scaled (exponent_of es t) t.postings

  -- Every coin balance is multiplied by the power of ten.
  pub balance_in-scaled :
      (es : List ℕ) (ts : List Transaction)
      → All (IsDated es) ts
      → balance_in (shifted n es) ts a ≡ balance_in es ts a *ℕ 10 ^ n
  unfolding balance_in sum_by
  balance_in-scaled es [] h = zero_times (10 ^ n)
  balance_in-scaled es (t ∷ ts) (h, hs) =
      ap₂ ◌+ℤ◌ (effect-scaled es t h) (balance_in-scaled es ts hs) ∙ sym (times_sum _ _ (10 ^ n))
