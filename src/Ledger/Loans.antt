-- ===== src/Ledger/Loans.antt =====
-- Loans between members (`DemoLending` of nanacoin_ui/src/app/demo/lending.ts), on the ledger that
-- hosts them: `balance`, `user` and `post` of the host are those of `DemoLedger`. Interest has its
-- own functions: what accrues, what falls due, and what a payment takes off.
mod Interest
unfoldable pub use Interest.*
use nanacoin.Prelude.{
  ℕ, suc, ◌+◌, ◌-◌, ◌*◌, min, Bool, true, false, ◌&&◌, ◌||◌, not, if◌then◌else◌, Option, none, some,
  List, [], ◌∷◌, ◌++◌, length, find, any, update, ℤ, pos, pos_part, ◌+ℤ◌, ltb_ℤ, leb_ℤ, ltb, leb,
  ◌==◌, Text, byte_length, has_control, codes,
}
use nanacoin.Exec.{Exec, Fault, pure, lift, gets, throw_if, modify, or_raise, ◌>>=◌, ◌>>◌}
use nanacoin.Model.{
  AccountId, same_account, User, is_active, Actor, TransactionKind, Memo, Reference, EconomicKind,
  StoredLoan, LoanStatus,
}
use nanacoin.Ledger.State.{Ledger, balance_of, user_by_account}
use nanacoin.Ledger.Delivery.{no_options}
use nanacoin.Ledger.Append.{append}
use nanacoin.Ledger.Guards.{is_safe_integer}
use nanacoin.Money.{max_money}
use nanacoin.Ledger.Transfers.{two_postings}

-- `interface LoanOfferInput`
pub record LoanOfferInput : Type 0 where
  pub borrower : AccountId
  pub amount : ℤ
  pub rate_bps : ℤ
  pub rate_days : ℕ
  pub payment_days : ℕ
  pub installment : ℤ
  pub credit : Bool
  pub memo : Text

-- `active(account)`: the member who owns an account, if not disabled.
abbrev active_owner : Option User → Option User
active_owner none = none
active_owner (some u) = if is_active u.status then some u else none

unfoldable pub require_owner : AccountId → Exec Ledger User
unfolding ◌>>=◌ user_by_account
require_owner a = do
  found ← gets (λ s. user_by_account s a)
  lift (or_raise (active_owner found) Fault.plain)

-- The lender of an application is the empty text, which no member owns.
abbrev pub require_lender : Option AccountId → Exec Ledger User
require_lender none = lift (or_raise none Fault.plain)
require_lender (some a) = require_owner a

abbrev pub has_loan_id : ℕ → StoredLoan → Bool
has_loan_id id l = l.id == id

unfoldable pub loan_by_id : ℕ → Exec Ledger StoredLoan
unfolding ◌>>=◌
loan_by_id id = do
  found ← gets (λ s. find (has_loan_id id) s.lending.loans)
  lift (or_raise found Fault.plain)

-- A write through the reference that `find` returned.
unfoldable pub update_loan : ℕ → (StoredLoan → StoredLoan) → Ledger → Ledger
update_loan id f s = record s {
  lending = record s.lending { loans = update (has_loan_id id) f s.lending.loans };
}

-- `checkFunds(from, to, amount)`
unfoldable pub check_funds : AccountId → AccountId → ℕ → Exec Ledger (Unit {0})
unfolding ◌>>=◌ require_owner
check_funds from to amount = do
  require_owner from
  require_owner to
  throw_if (λ s. ltb_ℤ (balance_of s from) (pos amount)) Fault.plain
  throw_if (λ s. not (is_safe_integer (balance_of s to +ℤ pos amount))) Fault.plain

-- `host.post(from, to, amount, loan, interest)`
unfoldable pub post_loan : AccountId → AccountId → ℕ → ℕ → Bool → Exec Ledger (Unit {0})
unfolding ◌>>=◌
post_loan from to amount loan is_interest = do
  append TransactionKind.transfer Actor.system
      (if is_interest then Memo.loan_interest else Memo.loan_principal)
      (two_postings from to (pos amount))
      (record no_options {
        reference = some (Reference.loan loan);
        economic_kind =
            some (if is_interest then EconomicKind.interest else EconomicKind.loan_principal);
      })
  pure tt

abbrev is_rate_days : ℕ → Bool
is_rate_days n = n == 1 || (n == 7 || (n == 30 || n == 365))

abbrev is_payment_days : ℕ → Bool
is_payment_days n = n == 1 || (n == 7 || n == 30)

-- What `offer` refuses: the terms, and who asks whom.
abbrev pub are_bad_terms : User → LoanOfferInput → Bool → Bool
are_bad_terms actor input request =
    (if request
      then not (same_account actor.account input.borrower)
      else same_account actor.account input.borrower)
    || (leb_ℤ input.amount (pos 0)
        || (ltb_ℤ (pos max_money) input.amount
            || (leb_ℤ input.installment (pos 0)
                || (ltb_ℤ input.amount input.installment
                    || (ltb_ℤ input.rate_bps (pos 0)
                        || (ltb_ℤ (pos 4294967295) input.rate_bps
                            || (not (is_rate_days input.rate_days)
                                || (not (is_payment_days input.payment_days)
                                    || (ltb 96 (byte_length input.memo)
                                        || has_control input.memo)))))))))

abbrev pub is_terminal : StoredLoan → Bool
is_terminal l = elim l.status [
  | LoanStatus.paid ↦ true
  | LoanStatus.declined ↦ true
  | LoanStatus.cancelled ↦ true
  | _ ↦ false
]

-- `splice(i, 1)` at the first loan that is over.
unfoldable pub remove_terminal : List StoredLoan → List StoredLoan
remove_terminal [] = []
remove_terminal (l ∷ ls) = if is_terminal l then ls else l ∷ remove_terminal ls

abbrev pub new_loan : ℕ → User → User → LoanOfferInput → Bool → ℕ → StoredLoan
new_loan id actor borrower input request now = record {
  id = id;
  lender = if request then none else some actor.account;
  lender_name = if request then codes "Seeking lender" else actor.display_name;
  borrower = input.borrower;
  borrower_name = borrower.display_name;
  amount = pos_part input.amount;
  rate_bps = pos_part input.rate_bps;
  rate_days = input.rate_days;
  payment_days = input.payment_days;
  installment = pos_part input.installment;
  credit = input.credit;
  memo = input.memo;
  status = if request then LoanStatus.requested else LoanStatus.offered;
  principal = 0;
  interest = 0;
  next_due_at = 0;
  created_at = now;
  updated_at = now;
  remainder = 0;
  accrued_at = 0;
  principal_due = 0;
  interest_due = 0;
  attempted_balance = pos 0;
}

-- Room for one more: 32 loans, of which those that are over may go.
abbrev pub make_room : List StoredLoan → List StoredLoan
make_room ls = if length ls == 32 then remove_terminal ls else ls

unfoldable pub push_loan : StoredLoan → Ledger → Ledger
unfolding remove_terminal
push_loan l s = record s {
  lending = record s.lending {
    loans = make_room s.lending.loans ++ l ∷ [];
    next_loan = s.lending.next_loan + 1;
  };
}

-- `offer(actor, input, now, request)` without an application to respond to.
unfoldable pub offer_loan : User → LoanOfferInput → ℕ → Bool → Exec Ledger StoredLoan
unfolding ◌>>=◌ require_owner
offer_loan actor input now request = do
  require_owner actor.account
  borrower ← require_owner input.borrower
  throw_if (λ _. are_bad_terms actor input request) Fault.plain
  throw_if (λ s. length s.lending.loans == 32 && not (any is_terminal s.lending.loans)) Fault.plain
  id ← gets (λ s. s.lending.next_loan)
  modify (push_loan (new_loan id actor borrower input request now))
  pure (new_loan id actor borrower input request now)
