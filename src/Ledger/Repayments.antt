-- ===== src/Ledger/Repayments.antt =====
-- The life of a loan after it has been offered: `offer` in answer to an application, `accept`,
-- `close`, `settle`, `repay` and `tick` of nanacoin_ui/src/app/demo/lending.ts.
use nanacoin.Prelude.{
  ℕ, ◌+◌, ◌*◌, min, Bool, true, false, ◌&&◌, ◌||◌, not, if◌then◌else◌, Option, none, some, ℤ, pos,
  pos_part, ltb_ℤ, leb_ℤ, ◌==◌,
}
use nanacoin.Exec.{Exec, err, Fault, pure, lift, gets, throw_if, modify, ◌>>=◌, ◌>>◌}
use nanacoin.Model.{AccountId, same_account, User, StoredLoan, LoanStatus}
use nanacoin.Ledger.State.{Ledger, balance_of}
use nanacoin.Money.{max_money}
use nanacoin.Ledger.Loans.{
  LoanOfferInput, require_owner, require_lender, loan_by_id, update_loan, check_funds, post_loan,
  are_bad_terms, day, accrue, fall_due, requested_of, interest_part, principal_part, after_payment,
}

abbrev pub is_requested : LoanStatus → Bool
is_requested LoanStatus.requested = true
is_requested _ = false

abbrev pub is_offered : LoanStatus → Bool
is_offered LoanStatus.offered = true
is_offered _ = false

abbrev pub is_armed : LoanStatus → Bool
is_armed LoanStatus.armed = true
is_armed _ = false

abbrev pub is_active_loan : LoanStatus → Bool
is_active_loan LoanStatus.active = true
is_active_loan _ = false

-- `Object.assign(application, input, {…})`
abbrev pub answered : User → LoanOfferInput → ℕ → StoredLoan → StoredLoan
answered actor input now l = record l {
  borrower = input.borrower;
  amount = pos_part input.amount;
  rate_bps = pos_part input.rate_bps;
  rate_days = input.rate_days;
  payment_days = input.payment_days;
  installment = pos_part input.installment;
  credit = input.credit;
  memo = input.memo;
  lender = some actor.account;
  lender_name = actor.display_name;
  status = LoanStatus.offered;
  updated_at = now;
}

-- `offer(actor, input, now, false, responding)`
unfoldable pub answer_loan : User → LoanOfferInput → ℕ → ℕ → Exec Ledger StoredLoan
unfolding ◌>>=◌ require_owner
answer_loan actor input now responding = do
  require_owner actor.account
  require_owner input.borrower
  throw_if (λ _. are_bad_terms actor input false) Fault.plain
  l ← loan_by_id responding
  throw_if (λ _. not (is_requested l.status) || not (same_account l.borrower input.borrower))
      Fault.plain
  modify (update_loan responding (answered actor input now))
  pure (answered actor input now l)

-- `start(l, now)`: the principal is paid out.
abbrev pub started : ℕ → StoredLoan → StoredLoan
started now l = record l {
  status = LoanStatus.active;
  principal = l.amount;
  accrued_at = now;
  next_due_at = now + l.payment_days * day;
  updated_at = now;
}

-- An application without a lender cannot start: its lender owns no account.
unfoldable pub pay_out : StoredLoan → Option AccountId → Exec Ledger (Unit {0})
unfolding ◌>>=◌
pay_out l none = lift (err Fault.plain)
pay_out l (some lender) = do
  check_funds lender l.borrower l.amount
  post_loan lender l.borrower l.amount l.id false

unfoldable pub start_loan : StoredLoan → ℕ → Exec Ledger StoredLoan
unfolding ◌>>=◌ pay_out
start_loan l now = do
  pay_out l l.lender
  modify (update_loan l.id (started now))
  pure (started now l)

abbrev pub armed_at : ℕ → StoredLoan → StoredLoan
armed_at now l = record l { status = LoanStatus.armed; updated_at = now }

unfoldable pub accept_loan : User → ℕ → ℕ → Exec Ledger StoredLoan
unfolding ◌>>=◌ start_loan
accept_loan actor id now = do
  l ← loan_by_id id
  require_owner actor.account
  require_lender l.lender
  throw_if (λ _. not (same_account actor.account l.borrower) || not (is_offered l.status))
      Fault.plain
  if l.credit
      then modify (update_loan id (armed_at now)) >> pure (armed_at now l)
      else start_loan l now

abbrev pub is_lender : Option AccountId → AccountId → Bool
is_lender none a = false
is_lender (some b) a = same_account b a

abbrev pub closed_status : User → StoredLoan → LoanStatus
closed_status actor l =
    if same_account actor.account l.borrower && is_offered l.status
    then LoanStatus.declined
    else LoanStatus.cancelled

unfoldable pub close_loan : User → ℕ → ℕ → Exec Ledger StoredLoan
unfolding ◌>>=◌ require_owner
close_loan actor id now = do
  require_owner actor.account
  l ← loan_by_id id
  throw_if
      (λ _.
        not (same_account l.borrower actor.account || is_lender l.lender actor.account)
        || not (is_requested l.status || (is_offered l.status || is_armed l.status)))
      Fault.plain
  let close = λ (x : StoredLoan). record x { status = closed_status actor l; updated_at = now }
  modify (update_loan id close)
  pure (close l)

-- The two transfers of a payment, each only where it moves something.
unfoldable pub pay_parts : StoredLoan → AccountId → ℕ → Exec Ledger (Unit {0})
unfolding ◌>>=◌ check_funds post_loan
pay_parts l lender paid = do
  if paid == 0 then pure tt else check_funds l.borrower lender paid
  if principal_part l paid == 0
      then pure tt
      else post_loan l.borrower lender (principal_part l paid) l.id false
  if interest_part l paid == 0
      then pure tt
      else post_loan l.borrower lender (interest_part l paid) l.id true

-- What is paid of what is asked for, out of a balance.
abbrev pub paid_of : ℕ → ℤ → ℕ
paid_of requested balance = min requested (pos_part balance)

abbrev pub is_given : Option ℕ → Bool
is_given none = false
is_given (some n) = true

-- A settlement with a known lender, on the loan with interest and dues up to date.
unfoldable pub settle_with : StoredLoan → AccountId → ℕ → Option ℕ → Exec Ledger (Unit {0})
unfolding ◌>>=◌ pay_parts
settle_with l lender now amount = do
  let requested = requested_of l amount
  balance ← gets (λ s. balance_of s l.borrower)
  throw_if (λ _. is_given amount && ltb_ℤ balance (pos requested)) Fault.plain
  pay_parts l lender (paid_of requested balance)
  modify (update_loan l.id (λ _. after_payment l (paid_of requested balance) balance now))

unfoldable pub settle_for : StoredLoan → Option AccountId → ℕ → Option ℕ → Exec Ledger (Unit {0})
unfolding settle_with lift
settle_for l none now amount = lift (err Fault.plain)
settle_for l (some lender) now amount = settle_with l lender now amount

-- `settle(original, now, amount)`
unfoldable pub settle_loan : StoredLoan → ℕ → Option ℕ → Exec Ledger (Unit {0})
unfolding ◌>>=◌ settle_for
settle_loan original now amount = do
  throw_if (λ _. not (is_active_loan original.status)) Fault.plain
  require_owner original.borrower
  require_lender original.lender
  l ← lift (accrue original now)
  settle_for (fall_due l now) l.lender now amount

unfoldable pub repay_loan : User → ℕ → ℤ → ℕ → Exec Ledger StoredLoan
unfolding ◌>>=◌ settle_loan
repay_loan actor id amount now = do
  l ← loan_by_id id
  require_owner actor.account
  throw_if
      (λ _.
        not (same_account l.borrower actor.account)
        || (leb_ℤ amount (pos 0) || ltb_ℤ (pos max_money) amount))
      Fault.plain
  settle_loan l now (some (pos_part amount))
  loan_by_id id
