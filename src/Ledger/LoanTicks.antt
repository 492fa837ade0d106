-- ===== src/Ledger/LoanTicks.antt =====
-- The regular check of all loans (`tick` of nanacoin_ui/src/app/demo/lending.ts): up to four are
-- started or settled, those that are due first first.
use nanacoin.Prelude.{
  ℕ, ◌+◌, Bool, ◌&&◌, ◌||◌, not, if◌then◌else◌, none, some, List, [], ◌∷◌, find, any, pos, ltb_ℤ,
  eqb_ℤ, ltb, leb, ◌==◌,
}
use nanacoin.Exec.{Result, ok, err}
use nanacoin.Model.{same_account, StoredLoan}
use nanacoin.Ledger.State.{Ledger, balance_of}
use nanacoin.Ledger.Loans.{has_loan_id}
use nanacoin.Ledger.Repayments.{is_armed, is_active_loan, start_loan, settle_loan}

-- `a.next_due_at || a.updated_at`
abbrev pub sort_key : StoredLoan → ℕ
sort_key l = if l.next_due_at == 0 then l.updated_at else l.next_due_at

-- Whether a loan comes before another, equal keys by id.
abbrev pub comes_before : StoredLoan → StoredLoan → Bool
comes_before a b = ltb (sort_key a) (sort_key b) || (sort_key a == sort_key b && ltb a.id b.id)

unfoldable pub insert_loan : StoredLoan → List StoredLoan → List StoredLoan
insert_loan l [] = l ∷ []
insert_loan l (x ∷ xs) = if comes_before l x then l ∷ x ∷ xs else x ∷ insert_loan l xs

unfoldable pub sort_loans : List StoredLoan → List StoredLoan
unfolding insert_loan
sort_loans [] = []
sort_loans (l ∷ ls) = insert_loan l (sort_loans ls)

abbrev pub is_blocked : Ledger → StoredLoan → Bool
is_blocked s l = any (same_account l.borrower) s.lending.blocked

-- An armed loan starts at a balance of zero that no credit has made.
abbrev pub is_startable : Ledger → StoredLoan → Bool
is_startable s l =
    is_armed l.status && (eqb_ℤ (balance_of s l.borrower) (pos 0) && not (is_blocked s l))

-- A loan is settled when a payment date has passed, or when money for what is due has come in.
abbrev pub is_collectable : Ledger → StoredLoan → ℕ → Bool
is_collectable s l now =
    is_active_loan l.status
    && (leb l.next_due_at now
        || (ltb 0 (l.principal_due + l.interest_due)
            && (ltb_ℤ (pos 0) (balance_of s l.borrower)
                && not (eqb_ℤ (balance_of s l.borrower) l.attempted_balance))))

-- One more is done where the step did not throw; what it wrote stays either way.
abbrev pub count_done : {A : Type 0} → ℕ → Result A × Ledger → ℕ × Ledger
count_done n (ok a, s) = (n + 1, s)
count_done n (err e, s) = (n, s)

abbrev pub step_loan : StoredLoan → ℕ → ℕ → Ledger → ℕ × Ledger
step_loan l now n s =
    if is_startable s l
    then count_done n (start_loan l now s)
    else if is_collectable s l now
    then count_done n (settle_loan l now none s)
    else (n, s)

-- The loan as it is now: a reference of the loop shows what earlier steps wrote.
abbrev pub step_id : StoredLoan → ℕ → ℕ → Ledger → ℕ × Ledger
step_id l now n s = elim (find (has_loan_id l.id) s.lending.loans) [
  | none ↦ (n, s)
  | some current ↦ step_loan current now n s
]

unfoldable pub tick_loop : List StoredLoan → ℕ → ℕ → Ledger → ℕ × Ledger
tick_loop [] now n s = (n, s)
tick_loop (l ∷ ls) now n s =
    let (n', s') = if n == 4 then (n, s) else step_id l now n s in tick_loop ls now n' s'

unfoldable pub tick_loans : ℕ → Ledger → ℕ × Ledger
unfolding tick_loop sort_loans
tick_loans now s = tick_loop (sort_loans s.lending.loans) now 0 s
