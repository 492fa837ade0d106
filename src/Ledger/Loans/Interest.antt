-- ===== src/Ledger/Loans/Interest.antt =====
-- Interest to the second, with the fraction that is left over kept for the next time (`accrue` and
-- the arithmetic of `settle` in nanacoin_ui/src/app/demo/lending.ts).
use nanacoin.Prelude.{
  ℕ, ◌+◌, ◌-◌, ◌*◌, ◌/◌, ◌%◌, min, ◌&&◌, if◌then◌else◌, Option, none, some, ℤ, pos, ◌-ℤ◌, ltb, leb,
  ◌==◌,
}
use nanacoin.Exec.{Result, ok, err, Fault}
use nanacoin.Model.{StoredLoan, LoanStatus}
use nanacoin.Ledger.Guards.{max_money, max_safe_integer}

abbrev pub day : ℕ
day = 86400

-- A year's worth of basis points, in seconds: what interest is counted in.
abbrev pub denominator : StoredLoan → ℕ
denominator l = 10000 * (l.rate_days * day)

abbrev pub numerator : StoredLoan → ℕ → ℕ
numerator l now = l.principal * l.rate_bps * (now - l.accrued_at) + l.remainder

abbrev pub accrued : StoredLoan → ℕ → StoredLoan
accrued l now = record l {
  interest = l.interest + numerator l now / denominator l;
  remainder = numerator l now % denominator l;
  accrued_at = now;
}

-- `accrue(l, now)`
unfoldable pub accrue : StoredLoan → ℕ → Result StoredLoan
accrue l now =
    if ltb now l.accrued_at
    then err Fault.plain
    else if ltb max_safe_integer ((accrued l now).interest + l.principal)
    then err Fault.plain
    else ok (accrued l now)

-- Whole payment periods that have ended by `now`.
abbrev pub periods : StoredLoan → ℕ → ℕ
periods l now = (now - l.next_due_at) / (l.payment_days * day) + 1

-- What falls due when a payment date has passed.
unfoldable pub fall_due : StoredLoan → ℕ → StoredLoan
fall_due l now =
    if leb l.next_due_at now
    then record l {
      principal_due = min l.principal (l.principal_due + periods l now * l.installment);
      interest_due = l.interest;
      next_due_at = l.next_due_at + periods l now * l.payment_days * day;
    }
    else l

-- What a settlement asks for: all that is due, or the given amount, up to all that is owed.
unfoldable pub requested_of : StoredLoan → Option ℕ → ℕ
requested_of l none = min max_money (l.principal_due + l.interest_due)
requested_of l (some amount) = min amount (l.principal + l.interest)

-- The part of a payment that goes to interest, and the rest.
abbrev pub interest_part : StoredLoan → ℕ → ℕ
interest_part l paid = min paid l.interest

abbrev pub principal_part : StoredLoan → ℕ → ℕ
principal_part l paid = paid - interest_part l paid

abbrev pub reduced : StoredLoan → ℕ → ℤ → ℕ → StoredLoan
reduced l paid balance now = record l {
  principal = l.principal - principal_part l paid;
  interest = l.interest - interest_part l paid;
  principal_due = l.principal_due - principal_part l paid;
  interest_due = l.interest_due - interest_part l paid;
  attempted_balance = balance -ℤ pos paid;
  updated_at = now;
}

-- A loan on which nothing is owed any more is paid.
abbrev pub finished : StoredLoan → StoredLoan
finished l =
    if l.principal == 0 && l.interest == 0
    then record l { status = LoanStatus.paid; remainder = 0; next_due_at = 0 }
    else l

-- The loan after a payment of `paid` out of `balance`.
unfoldable pub after_payment : StoredLoan → ℕ → ℤ → ℕ → StoredLoan
after_payment l paid balance now = finished (reduced l paid balance now)
