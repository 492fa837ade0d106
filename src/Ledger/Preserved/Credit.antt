-- ===== src/Ledger/Preserved/Credit.antt =====
-- The methods of lending.
use nanacoin.Prelude.{ℕ, ◌≡◌, false, Bool, Option, none, some, ℤ, [], ◌∷◌}
use nanacoin.Exec.{modify}
use nanacoin.Exec.Keeps.{Keeps, Keeps-modify, keeps_rules}
use nanacoin.Model.{TransactionKind, Actor, Memo, Posting, AccountId, User, StoredLoan}
use nanacoin.Ledger.Delivery.{Options}
use nanacoin.Ledger.Append.{append}
use nanacoin.Ledger.Core.{Core, core, Holds}
use nanacoin.Ledger.Loans.{
  LoanOfferInput, require_owner, require_lender, loan_by_id, update_loan, check_funds, post_loan,
  push_loan, offer_loan,
}
use nanacoin.Ledger.Repayments.{
  answer_loan, pay_out, start_loan, accept_loan, close_loan, pay_parts, settle_with, settle_for,
  settle_loan, repay_loan,
}

module _ (Q : Core → Type 0)
    (pair : (k : TransactionKind) (a : Actor) (m : Memo) (p q : Posting) (opts : Options)
      → opts.allow_overdraft ≡ false
      → Keeps (Holds Q) (append k a m (p ∷ q ∷ []) opts)) where
  require_owner-Keeps : (a : AccountId) → Keeps (Holds Q) (require_owner a)
  unfolding require_owner
  require_owner-Keeps a = search keeps_rules

  require_lender-Keeps : (a : Option AccountId) → Keeps (Holds Q) (require_lender a)
  require_lender-Keeps none = search keeps_rules
  require_lender-Keeps (some a) = require_owner-Keeps a

  loan_by_id-Keeps : (id : ℕ) → Keeps (Holds Q) (loan_by_id id)
  unfolding loan_by_id
  loan_by_id-Keeps id = search keeps_rules

  update_loan-Keeps :
      (id : ℕ) (f : StoredLoan → StoredLoan) → Keeps (Holds Q) (modify (update_loan id f))
  unfolding update_loan core
  update_loan-Keeps id f = Keeps-modify _ (λ s h. h)

  push_loan-Keeps : (l : StoredLoan) → Keeps (Holds Q) (modify (push_loan l))
  unfolding push_loan core
  push_loan-Keeps l = Keeps-modify _ (λ s h. h)

  check_funds-Keeps : (a b : AccountId) (n : ℕ) → Keeps (Holds Q) (check_funds a b n)
  unfolding check_funds
  check_funds-Keeps a b n = search (keeps_rules, require_owner-Keeps)

  post_loan-Keeps : (a b : AccountId) (n id : ℕ) (i : Bool) → Keeps (Holds Q) (post_loan a b n id i)
  unfolding post_loan
  post_loan-Keeps a b n id i = search (keeps_rules, pair)

  ruleset loan_rules = (
    keeps_rules, require_owner-Keeps, require_lender-Keeps, loan_by_id-Keeps, update_loan-Keeps,
    push_loan-Keeps, check_funds-Keeps, post_loan-Keeps,
  )

  pub offer_loan-Keeps :
      (u : User) (i : LoanOfferInput) (now : ℕ) (r : Bool) → Keeps (Holds Q) (offer_loan u i now r)
  unfolding offer_loan
  offer_loan-Keeps u i now r = search loan_rules depth 20

  pub answer_loan-Keeps :
      (u : User) (i : LoanOfferInput) (now id : ℕ) → Keeps (Holds Q) (answer_loan u i now id)
  unfolding answer_loan
  answer_loan-Keeps u i now id = search loan_rules depth 20

  pay_out-Keeps : (l : StoredLoan) (a : Option AccountId) → Keeps (Holds Q) (pay_out l a)
  unfolding pay_out
  pay_out-Keeps l none = search loan_rules
  pay_out-Keeps l (some a) = search loan_rules

  pub start_loan-Keeps : (l : StoredLoan) (now : ℕ) → Keeps (Holds Q) (start_loan l now)
  unfolding start_loan
  start_loan-Keeps l now = search (loan_rules, pay_out-Keeps)

  pub accept_loan-Keeps : (u : User) (id now : ℕ) → Keeps (Holds Q) (accept_loan u id now)
  unfolding accept_loan
  accept_loan-Keeps u id now = search (loan_rules, start_loan-Keeps) depth 20

  pub close_loan-Keeps : (u : User) (id now : ℕ) → Keeps (Holds Q) (close_loan u id now)
  unfolding close_loan
  close_loan-Keeps u id now = search loan_rules depth 20

  pay_parts-Keeps : (l : StoredLoan) (a : AccountId) (n : ℕ) → Keeps (Holds Q) (pay_parts l a n)
  unfolding pay_parts
  pay_parts-Keeps l a n = search loan_rules depth 20

  settle_with-Keeps :
      (l : StoredLoan) (a : AccountId) (now : ℕ) (n : Option ℕ)
      → Keeps (Holds Q) (settle_with l a now n)
  unfolding settle_with
  settle_with-Keeps l a now n = search (loan_rules, pay_parts-Keeps) depth 20

  settle_for-Keeps :
      (l : StoredLoan) (a : Option AccountId) (now : ℕ) (n : Option ℕ)
      → Keeps (Holds Q) (settle_for l a now n)
  unfolding settle_for
  settle_for-Keeps l none now n = search loan_rules
  settle_for-Keeps l (some a) now n = settle_with-Keeps l a now n

  pub settle_loan-Keeps :
      (l : StoredLoan) (now : ℕ) (n : Option ℕ) → Keeps (Holds Q) (settle_loan l now n)
  unfolding settle_loan
  settle_loan-Keeps l now n = search (loan_rules, settle_for-Keeps) depth 20

  pub repay_loan-Keeps :
      (u : User) (id : ℕ) (n : ℤ) (now : ℕ) → Keeps (Holds Q) (repay_loan u id n now)
  unfolding repay_loan
  repay_loan-Keeps u id n now = search (loan_rules, settle_loan-Keeps) depth 20
