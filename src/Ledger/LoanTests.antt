-- ===== src/Ledger/LoanTests.antt =====
-- A loan at concrete moments, at which the theorems on its arithmetic are applied.
use nanacoin.Prelude.{◌⊎◌, ◌∷◌, ◌≡◌, refl, false, some, [], pos, codes, arith}
use nanacoin.Exec.{ok, err, Fault}
use nanacoin.Model.{AccountId, StoredLoan, LoanStatus}
use nanacoin.Ledger.Loans.{accrue, accrued}
use nanacoin.Ledger.Repayments.{settle_loan}
use nanacoin.Ledger.State.{Ledger}
use nanacoin.Ledger.Balances.{IsCurrent}
use nanacoin.Ledger.Settled.{IsSettled, owed, settle_loan-settles}
use nanacoin.Prelude.{sum_by, to_lower, trim, ◌+ℤ◌, neg, ◌*ℕ◌}
use nanacoin.Exec.{◌>>=◌}
use nanacoin.Ledger.State.{
  now, tick, time_of, user_by_account, user_by_name, sum_amounts, balance_of, balance_in, effect,
  current_postings, display_name_of,
}
use nanacoin.Ledger.Delivery.{recorded, earlier, start_delivery, close_delivery}
use nanacoin.Ledger.Append.{append, commit, push, note_refund, note_gift, note_cash, cash_changed}
use nanacoin.Ledger.Guards.{require_active, require_amount, require_nana, require_user_account}
use nanacoin.Ledger.Transfers.{require_payable, transfer, issue}
use nanacoin.Ledger.Market.{create_listing, listing_by_id, update_listing, buy_listing}
use nanacoin.Ledger.Members.{add_user, provision}
use nanacoin.Ledger.Requests.{run, handle, add_member}
use nanacoin.Ledger.Loans.{
  fall_due, requested_of, after_payment, check_funds, post_loan, require_owner, update_loan,
}
use nanacoin.Ledger.Repayments.{settle_for, settle_with, pay_parts}
use nanacoin.Ledger.Tests.{opened, opened-IsCurrent}
use nanacoin.Ledger.LoanExact.{IsDue, accrue-splits}

-- 1000 units at 5 percent in 30 days, paid back weekly by 100.
abbrev loan : StoredLoan
loan = record {
  id = 1;
  lender = some (AccountId.member 2);
  lender_name = codes "Ann";
  borrower = AccountId.member 3;
  borrower_name = codes "Ben";
  amount = 1000;
  rate_bps = 500;
  rate_days = 30;
  payment_days = 7;
  installment = 100;
  credit = false;
  memo = [];
  status = LoanStatus.active;
  principal = 1000;
  interest = 0;
  next_due_at = 604800;
  created_at = 0;
  updated_at = 0;
  remainder = 0;
  accrued_at = 0;
  principal_due = 0;
  interest_due = 0;
  attempted_balance = pos 0;
}

accrue_first : accrue loan 100000 ≡ ok (accrued loan 100000)
unfolding accrue
accrue_first = refl

accrue_second : accrue (accrued loan 100000) 700000 ≡ ok (accrued (accrued loan 100000) 700000)
unfolding accrue
accrue_second = refl

accrue-splits_example : accrue loan 700000 ≡ ok (accrued (accrued loan 100000) 700000)
accrue-splits_example =
    accrue-splits loan (accrued loan 100000) (accrued (accrued loan 100000) 700000) 100000 700000
      (omega arith) accrue_first accrue_second

-- Ann owes Ben: ten days later she pays 60 units out of the 100 that she has.
abbrev owing : StoredLoan
owing = record loan {
  lender = some (AccountId.member 3);
  lender_name = codes "Ben";
  borrower = AccountId.member 2;
  borrower_name = codes "Ann";
}

abbrev lending : Ledger
lending = record opened { lending = record opened.lending { loans = owing ∷ [] } }

owing-IsDue : IsDue owing
owing-IsDue = record { principal = omega arith; interest = omega arith }

lending-IsCurrent : IsCurrent lending
lending-IsCurrent = record { exponent = opened-IsCurrent.exponent }

settle_loan-settles_example :
    ((e : Fault) × ((settle_loan owing 864000 (some 60) lending).0 ≡ err e))
    ⊎ IsSettled 1
        (AccountId.member 2)
        (AccountId.member 3)
        (owed (accrued owing 864000))
        (some 60)
        lending
        (settle_loan owing 864000 (some 60) lending).1
settle_loan-settles_example =
    settle_loan-settles owing (AccountId.member 3) 864000 (some 60) lending lending-IsCurrent
      owing-IsDue refl refl

-- The settlement does not throw.
settled : (settle_loan owing 864000 (some 60) lending).0 ≡ ok tt
unfolding run handle ◌>>=◌ add_member provision add_user issue create_listing transfer buy_listing
    require_active require_amount require_nana require_user_account now tick time_of user_by_account
    user_by_name to_lower trim append commit push recorded earlier start_delivery close_delivery
    note_refund note_gift note_cash cash_changed sum_amounts balance_of balance_in effect
    current_postings sum_by listing_by_id update_listing require_payable display_name_of ◌+ℤ◌ neg
    ◌*ℕ◌ settle_loan settle_for settle_with accrue fall_due requested_of after_payment pay_parts
    check_funds post_loan require_owner update_loan
settled = refl
