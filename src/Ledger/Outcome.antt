-- ===== src/Ledger/Outcome.antt =====
-- How a method that records at most one transaction ends: refused with the state as it was, or
-- done with one more transaction in the book.
use nanacoin.Prelude.{
  ◌≡◌, refl, true, false, ◌⊎◌, inl, inr, none, List, Bool-cases, any, not, ◌&&◌, eqb_ℤ, pos, ℤ,
  Text,
}
use nanacoin.Exec.{◌>>=◌}
use nanacoin.Exec.Atomic.{IsRefused, IsDone, Checks, checks_rules}
use nanacoin.Ledger.Guards.{require_active, require_nana, require_amount, require_user_account}
use nanacoin.Ledger.Transfers.{require_payable}
use nanacoin.Model.{TransactionKind, Actor, Memo, Posting, User, AccountId}
use nanacoin.Ledger.State.{Ledger, sum_amounts}
use nanacoin.Ledger.Delivery.{Options}
use nanacoin.Ledger.Append.{append, commit, overdraws, push, note_refund, note_gift}
use nanacoin.Ledger.Book.{Appended, append-checked}

module _ (k : TransactionKind) (a : Actor) (m : Memo) (ps : List Posting) (opts : Options) where
  -- A transaction that undoes none is always recorded to the end.
  commit-IsDone : (s : Ledger) → opts.reverses ≡ none → IsDone (commit k a m ps opts s).0
  unfolding commit ◌>>=◌ push note_refund note_gift
  commit-IsDone s fresh = rw fresh (_, refl)

  append-IsDone :
      (s : Ledger)
      → opts.reverses ≡ none
      → eqb_ℤ (sum_amounts ps) (pos 0) ≡ true
      → (not opts.allow_overdraft && any (overdraws s) ps) ≡ false
      → IsDone (append k a m ps opts s).0
  unfolding append ◌>>=◌
  append-IsDone s fresh balanced covered = rw balanced (rw covered (commit-IsDone s fresh))

  pub append-outcome :
      (s : Ledger)
      → opts.reverses ≡ none
      → IsRefused s (append k a m ps opts s)
        ⊎ (IsDone (append k a m ps opts s).0 × Appended k a m ps opts s (append k a m ps opts s).1)
  append-outcome s fresh = elim (Bool-cases (eqb_ℤ (sum_amounts ps) (pos 0))) [
    | inr unbalanced ↦ inl (unfold append ◌>>=◌ in rw unbalanced (_, refl))
    | inl balanced ↦ elim (Bool-cases (not opts.allow_overdraft && any (overdraws s) ps)) [
      | inl short ↦ inl (unfold append ◌>>=◌ in rw balanced (rw short (_, refl)))
      | inr covered ↦
          inr (
            append-IsDone s fresh balanced covered,
            append-checked k a m ps opts s balanced covered,
          )
    ]
  ]

module _ (s : Ledger) where
  pub require_active-Checks : (u : User) → Checks s (require_active u)
  unfolding require_active
  require_active-Checks u = search checks_rules

  pub require_nana-Checks : (u : User) → Checks s (require_nana u)
  unfolding require_nana
  require_nana-Checks u = search checks_rules

  pub require_amount-Checks : (n : ℤ) → Checks s (require_amount n)
  unfolding require_amount
  require_amount-Checks n = search checks_rules

  pub require_user_account-Checks : (a : AccountId) → Checks s (require_user_account a)
  unfolding require_user_account
  require_user_account-Checks a = search checks_rules

  pub require_payable-Checks : (n : ℤ) (m : Text) → Checks s (require_payable n m)
  unfolding require_payable
  require_payable-Checks n m = search (checks_rules, require_amount-Checks)
