-- ===== src/Ledger/LoanExact.antt =====
-- The arithmetic of a loan loses nothing: interest to the last fraction, payments to the last unit.
use nanacoin.Prelude.{
  ℕ, ◌+◌, ◌-◌, ◌*◌, ◌/◌, ◌%◌, ◌≤◌, ◌<◌, ◌≡◌, ap, sym, subst, ◌∙◌, Option, none, some, arith, ℤ,
}
use nanacoin.Exec.{ok}
use nanacoin.Model.{StoredLoan}
use nanacoin.Ledger.Guards.{max_safe_integer}
use native.Mathlib.Nat.{add_comm, mul-add, mul-add-div_right, mul-add-mod_self_right, div-add-mod'}
use nanacoin.Ledger.Loans.{
  denominator, numerator, accrued, accrue, fall_due, requested_of, after_payment,
}

-- What an accrual has done when it returns.
pub accrue-ok :
    (l l' : StoredLoan) (now : ℕ)
    → accrue l now ≡ ok l'
    → (l.accrued_at ≤ now)
      × ((accrued l now).interest + l.principal ≤ max_safe_integer)
      × (accrued l now ≡ l')
unfolding accrue
accrue-ok l l' now h = ground arith

accrue-returns :
    (l : StoredLoan) (now : ℕ)
    → l.accrued_at ≤ now
    → (accrued l now).interest + l.principal ≤ max_safe_integer
    → accrue l now ≡ ok (accrued l now)
unfolding accrue
accrue-returns l now h k = ground arith

elapsed : (a b c : ℕ) → a ≤ b → b ≤ c → c - a ≡ (b - a) + (c - b)
elapsed a b c h h' = omega arith

split_time : (k a b c : ℕ) → a ≤ b → b ≤ c → k * (c - a) ≡ k * (b - a) + k * (c - b)
split_time k a b c h h' = ap (λ z. k * z) (elapsed a b c h h') ∙ mul-add k (b - a) (c - b)

module _ (d : ℕ) (positive : 0 < d) where
  carry : (n x : ℕ) → n + x ≡ n / d * d + (n % d + x)
  carry n x = omega (arith, div-add-mod' n d)

  div-carry : (n x : ℕ) → (n + x) / d ≡ n / d + (x + n % d) / d
  div-carry n x =
      ap (λ z. z / d) (carry n x)
      ∙ mul-add-div_right positive (n / d) (n % d + x)
      ∙ ap (λ z. n / d + z / d) (add_comm (n % d) x)

  mod-carry : (n x : ℕ) → (n + x) % d ≡ (x + n % d) % d
  mod-carry n x =
      ap (λ z. z % d) (carry n x)
      ∙ mul-add-mod_self_right (n / d) d (n % d + x)
      ∙ ap (λ z. z % d) (add_comm (n % d) x)

numerator-splits :
    (l : StoredLoan) (t u : ℕ)
    → l.accrued_at ≤ t
    → t ≤ u
    → numerator l u ≡ numerator l t + l.principal * l.rate_bps * (u - t)
numerator-splits l t u h h' =
    let e = split_time (l.principal * l.rate_bps) l.accrued_at t u h h' in omega (arith, e)

denominator-positive : (l : StoredLoan) → 0 < l.rate_days → 0 < denominator l
denominator-positive l h = omega arith

accrued-accrued :
    (l : StoredLoan) (t u : ℕ)
    → 0 < l.rate_days
    → l.accrued_at ≤ t
    → t ≤ u
    → accrued (accrued l t) u ≡ accrued l u
accrued-accrued l t u days h h' =
    let x = l.principal * l.rate_bps * (u - t) in
    let d = denominator l in
    let n = numerator l t in
    let more = numerator-splits l t u h h' in
    let quotient = ap (λ z. z / d) more ∙ div-carry d (denominator-positive l days) n x in
    let rest = ap (λ z. z % d) more ∙ mod-carry d (denominator-positive l days) n x in
    let interest : (accrued (accrued l t) u).interest ≡ (accrued l u).interest =
      omega (arith, quotient) in
    λ i. record (accrued l u) { interest = interest i; remainder = sym rest i }

-- Interest does not depend on when it is looked at: to accrue up to one moment and then up to a
-- later one gives the very loan that accruing up to the later one at once gives, the fraction that
-- is carried over included. The rate has to be for a positive number of days.
pub accrue-splits :
    (l first second : StoredLoan) (t u : ℕ)
    → 0 < l.rate_days
    → accrue l t ≡ ok first
    → accrue first u ≡ ok second
    → accrue l u ≡ ok second
accrue-splits l first second t u days e e' =
    let (h, bound, same) = accrue-ok l first t e in
    let e'' = subst (λ z. accrue z u ≡ ok second) (sym same) e' in
    let (h', bound', same') = accrue-ok (accrued l t) second u e'' in
    let both = accrued-accrued l t u days h h' in
    accrue-returns l u (omega arith)
      (subst (λ (z : StoredLoan). z.interest + l.principal ≤ max_safe_integer) both bound')
    ∙ ap (λ z. ok z) (sym both ∙ same')

-- No more falls due than is owed.
pub record IsDue (l : StoredLoan) : Type 0 where
  pub principal : l.principal_due ≤ l.principal
  pub interest : l.interest_due ≤ l.interest

pub fall_due-IsDue : (l : StoredLoan) (now : ℕ) → IsDue l → IsDue (fall_due l now)
unfolding fall_due
fall_due-IsDue l now h = grind arith

pub after_payment-IsDue :
    (l : StoredLoan) (paid : ℕ) (balance : ℤ) (now : ℕ)
    → IsDue l
    → IsDue (after_payment l paid balance now)
unfolding after_payment
after_payment-IsDue l paid balance now h = grind arith

pub requested_of-owed :
    (l : StoredLoan) (amount : Option ℕ)
    → IsDue l
    → requested_of l amount ≤ l.principal + l.interest
unfolding requested_of
requested_of-owed l none h = grind arith
requested_of-owed l (some n) h = grind arith

pub after_payment-owed :
    (l : StoredLoan) (paid : ℕ) (balance : ℤ) (now : ℕ)
    → paid ≤ l.principal + l.interest
    → (after_payment l paid balance now).principal
        + (after_payment l paid balance now).interest
        + paid
      ≡ l.principal + l.interest
unfolding after_payment
after_payment-owed l paid balance now h = grind arith

pub fall_due-owed :
    (l : StoredLoan) (now : ℕ)
    → (fall_due l now).principal + (fall_due l now).interest ≡ l.principal + l.interest
unfolding fall_due
fall_due-owed l now = grind arith
