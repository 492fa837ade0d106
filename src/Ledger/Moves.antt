-- ===== src/Ledger/Moves.antt =====
-- What the methods that move coins do to every balance: nothing at all, or exactly what their
-- postings say (`transfer`, `issue`, `retire` of nanacoin_ui/src/app/demo/ledger.ts).
use nanacoin.Prelude.{
  some, ◌≡◌, refl, false, inl, inr, ◌⊎◌, Option, ℤ, pos, neg, ◌+ℤ◌, ◌≤ℤ◌, int_laws, if◌then◌else◌,
  sum_by, Text, any, none,
}
use nanacoin.Exec.{Result}
use nanacoin.Model.{
  Transaction, TransactionKind, Actor, Memo, AccountId, same_account, same_account_iff, User,
}
use nanacoin.Ledger.State.{Ledger, balance_of}
use nanacoin.Ledger.Delivery.{Options}
use nanacoin.Ledger.Append.{append, overdraws}
use nanacoin.Exec.Atomic.{IsRefused, IsDone, Atomic, Atomic-check, checks_rules}
use nanacoin.Ledger.Outcome.{
  append-outcome, require_active-Checks, require_nana-Checks, require_amount-Checks,
  require_user_account-Checks, require_payable-Checks,
}
use nanacoin.Ledger.Solvent.{strictly_covered}
use nanacoin.Ledger.Transfers.{two_postings, Economic, economic_options, transfer, issue, retire}
use nanacoin.Ledger.Book.{entry, Appended}
use nanacoin.Ledger.Balances.{posted, balance_of-Extends, IsCurrent}

-- No balance changes.
abbrev pub IsIdle : Ledger → Ledger → Type 0
IsIdle s s' = (x : AccountId) → balance_of s' x ≡ balance_of s x

-- `amount` goes from one account to another, and no other balance changes.
abbrev pub IsMove : AccountId → AccountId → ℤ → Ledger → Ledger → Type 0
IsMove from to amount s s' =
    (x : AccountId)
    → balance_of s' x
      ≡ balance_of s x
        +ℤ (if same_account from x then neg amount else pos 0)
        +ℤ (if same_account to x then amount else pos 0)

posted-two :
    (from to : AccountId) (amount : ℤ) (x : AccountId)
    → posted x (two_postings from to amount)
      ≡ (if same_account from x then neg amount else pos 0)
        +ℤ (if same_account to x then amount else pos 0)
unfolding posted sum_by
posted-two from to amount x = omega int_laws

-- The payer had the amount, or needs none: the issuance account may go below zero.
abbrev pub IsFunded : Ledger → AccountId → ℤ → Type 0
IsFunded s from n = (from ≡ AccountId.system_issuance) ⊎ ((n ≤ℤ pos 0) ⊎ (n ≤ℤ balance_of s from))

-- A payment that was made: a value comes back, the payer had the money, the coins have moved.
abbrev pub IsPaid : {A : Type 0} → AccountId → AccountId → ℤ → Ledger → Result A × Ledger → Type 0
IsPaid from to n s r = IsDone r.0 × (IsFunded s from n × IsMove from to n s r.1)

covered-IsFunded :
    (s : Ledger) (from to : AccountId) (n : ℤ)
    → any (overdraws s) (two_postings from to n) ≡ false
    → IsFunded s from n
covered-IsFunded s from to n h = grind (int_laws, same_account_iff AccountId.system_issuance from)

module _ (k : TransactionKind) (a : Actor) (m : Memo) (from to : AccountId) (n : ℤ)
    (opts : Options) where
  pub Appended-IsPaid :
      (s : Ledger) (r : Result Transaction × Ledger)
      → IsCurrent s
      → opts.allow_overdraft ≡ false
      → IsDone r.0
      → Appended k a m (two_postings from to n) opts s r.1
      → IsPaid from to n s r
  Appended-IsPaid s r current strict done d = (
    done,
    (
      covered-IsFunded s from to n (strictly_covered _ _ strict d.covered),
      (λ x.
          rw
            (balance_of-Extends s r.1 (entry k a m (two_postings from to n) opts s) x d.extends
              current.exponent)
            (rw (posted-two from to n x) (omega int_laws))),
    ),
  )

  pub append-pays :
      (s : Ledger)
      → IsCurrent s
      → opts.reverses ≡ none
      → opts.allow_overdraft ≡ false
      → Atomic (IsPaid from to n s) s (append k a m (two_postings from to n) opts)
  append-pays s current fresh strict =
      elim (append-outcome k a m (two_postings from to n) opts s fresh) [
        | inl refused ↦ record { ends = inl refused }
        | inr (done, d) ↦ record { ends = inr (Appended-IsPaid s _ current strict done d) }
      ]

ruleset pays_rules = (
  Atomic-check, checks_rules, require_active-Checks, require_nana-Checks, require_amount-Checks,
  require_user_account-Checks, require_payable-Checks, append-pays,
)

economic_options-strict : (e : Option Economic) → (economic_options e).allow_overdraft ≡ false
economic_options-strict none = refl
economic_options-strict (some e) = refl

economic_options-fresh : (e : Option Economic) → (economic_options e).reverses ≡ none
economic_options-fresh none = refl
economic_options-fresh (some e) = refl

module _ (s : Ledger) (current : IsCurrent s) (u : User) (to : AccountId) (n : ℤ) (m : Text) where
  transfer-Atomic : (e : Option Economic) → Atomic (IsPaid u.account to n s) s (transfer u to n m e)
  unfolding transfer
  transfer-Atomic e = search (pays_rules, economic_options-strict, economic_options-fresh) depth 20

  issue-Atomic : Atomic (IsPaid AccountId.system_issuance to n s) s (issue u to n m)
  unfolding issue
  issue-Atomic = search pays_rules depth 20

  retire-Atomic : Atomic (IsPaid to AccountId.system_issuance n s) s (retire u to n m)
  unfolding retire
  retire-Atomic = search pays_rules depth 20

  -- A transfer is refused and nothing changes, or the actor had the amount and exactly that moves
  -- from the actor to the payee. The units of today have to be those of the epoch.
  pub transfer-pays :
      (e : Option Economic)
      → IsRefused s (transfer u to n m e s) ⊎ IsPaid u.account to n s (transfer u to n m e s)
  transfer-pays e = (transfer-Atomic e).ends

  -- An issue is refused and nothing changes, or exactly the amount moves from the issuance account
  -- to the member: what circulates grows by the amount. The units of today have to be those of the
  -- epoch.
  pub issue-pays :
      IsRefused s (issue u to n m s) ⊎ IsPaid AccountId.system_issuance to n s (issue u to n m s)
  issue-pays = issue-Atomic.ends

  -- A retirement is refused and nothing changes, or the member had the amount and exactly that moves
  -- back to the issuance account. The units of today have to be those of the epoch.
  pub retire-pays :
      IsRefused s (retire u to n m s) ⊎ IsPaid to AccountId.system_issuance n s (retire u to n m s)
  retire-pays = retire-Atomic.ends
