-- ===== src/Model/Lending.antt =====
-- A loan as nanacoin_ui/src/app/demo/lending.ts stores it, and the state of `DemoLending`.
use nanacoin.Prelude.{ℕ, Bool, List, ℤ, Text, Option}
use nanacoin.Model.Accounts.{AccountId}

pub data LoanStatus : Type 0 where
  requested offered armed active paid declined cancelled : LoanStatus

-- `interface Stored extends Loan`; the two fields that are computed on reading (`overdue`,
-- `waiting_reason`) are left out. `lender` is absent while an application seeks one (`''`).
pub record StoredLoan : Type 0 where
  pub id : ℕ
  pub lender : Option AccountId
  pub lender_name : Text
  pub borrower : AccountId
  pub borrower_name : Text
  pub amount : ℕ
  pub rate_bps : ℕ
  pub rate_days : ℕ
  pub payment_days : ℕ
  pub installment : ℕ
  pub credit : Bool
  pub memo : Text
  pub status : LoanStatus
  pub principal : ℕ
  pub interest : ℕ
  pub next_due_at : ℕ
  pub created_at : ℕ
  pub updated_at : ℕ
  pub remainder : ℕ
  pub accrued_at : ℕ
  pub principal_due : ℕ
  pub interest_due : ℕ
  pub attempted_balance : ℤ

pub record LendingState : Type 0 where
  pub loans : List StoredLoan
  pub next_loan : ℕ
  pub blocked : List AccountId
