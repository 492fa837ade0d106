-- ===== src/Ledger/Settled.antt =====
-- What a settlement does to the ledger: to the stored loan, and to every balance (`settle` of
-- nanacoin_ui/src/app/demo/lending.ts).
use nanacoin.Prelude.{
  ℕ, ◌+◌, ◌≤◌, ◌≡◌, sym, ap, subst, ◌∙◌, true, false, ◌⊎◌, inl, inr, Option, none, some, or_else,
  find, arith, ℤ, pos, pos_part, min, ◌==◌, ltb_ℤ, ◌&&◌, find-update,
}
use nanacoin.Exec.{ok, err, Fault, modify, ◌>>=◌}
use nanacoin.Exec.Ends.{
  Ends, Ends-bind, Ends-gets, Ends-lift, Ends-check, Ends-throw_if, Ends-modify, Ends-map,
}
use nanacoin.Model.{AccountId, StoredLoan}
use nanacoin.Ledger.State.{Ledger, balance_of}
use nanacoin.Ledger.Balances.{IsCurrent}
use nanacoin.Ledger.Moves.{IsMove}
use nanacoin.Ledger.Loans.{
  accrue, accrued, fall_due, requested_of, after_payment, has_loan_id, update_loan,
}
use nanacoin.Ledger.Repayments.{paid_of, is_given, pay_parts, settle_with, settle_for, settle_loan}
use nanacoin.Ledger.LoanExact.{
  IsDue, accrue-ok, fall_due-IsDue, fall_due-owed, requested_of-owed, after_payment-owed,
  after_payment-IsDue,
}
use nanacoin.Ledger.Paid.{IsMoved, require_owner-Checks, require_lender-Checks, pay_parts-Ends}

abbrev pub owed : StoredLoan → ℕ
owed l = l.principal + l.interest

-- What a settlement of the loan `id` leaves, of which `total` is owed: the stored loan is paid off by
-- exactly the coins that went from the borrower, who had them, to the lender.
pub record IsSettled (id : ℕ) (borrower lender : AccountId) (total : ℕ) (amount : Option ℕ)
    (s s' : Ledger) : Type 0 where
  pub after : StoredLoan
  pub paid : ℕ
  pub stored : find (has_loan_id id) s'.lending.loans ≡ some after
  pub covered : paid ≤ pos_part (balance_of s borrower)
  pub reduced : owed after + paid ≡ total
  pub asked : (n : ℕ) → amount ≡ some n → paid ≡ min n total
  pub moved : IsMove borrower lender (pos paid) s s'
  pub sound : IsDue after

after_payment-id :
    (l : StoredLoan) (paid : ℕ) (balance : ℤ) (now : ℕ)
    → (after_payment l paid balance now).id ≡ l.id
unfolding after_payment
after_payment-id l paid balance now = ground arith

fall_due-id : (l : StoredLoan) (now : ℕ) → (fall_due l now).id ≡ l.id
unfolding fall_due
fall_due-id l now = ground arith

fall_due-borrower : (l : StoredLoan) (now : ℕ) → (fall_due l now).borrower ≡ l.borrower
unfolding fall_due
fall_due-borrower l now = ground arith

fully_asked :
    (d : StoredLoan) (amount : Option ℕ) (balance : ℤ) (n : ℕ)
    → (is_given amount && ltb_ℤ balance (pos (requested_of d amount))) ≡ false
    → amount ≡ some n
    → paid_of (requested_of d amount) balance ≡ min n (owed d)
unfolding requested_of
fully_asked d none balance n h e = absurd (cc e)
fully_asked d (some k) balance n h e = ground (arith, ap (λ o. or_else o 0) e)

accrued-IsDue : (l : StoredLoan) (now : ℕ) → IsDue l → IsDue (accrued l now)
accrued-IsDue l now h = record { principal = h.principal; interest = omega (arith, h.interest) }

same_id : (a b : ℕ) → a ≡ b → (a == b) ≡ true
same_id a b h = ground arith

module _ (d l : StoredLoan) (lender : AccountId) (now : ℕ) (amount : Option ℕ) (s : Ledger)
    (current : IsCurrent s) (due : IsDue d)
    (found : find (has_loan_id d.id) s.lending.loans ≡ some l) where
  abbrev Settled : Unit {0} → Ledger → Type 0
  Settled _ s' = IsSettled d.id d.borrower lender (owed d) amount s s'

  -- What is paid out of the borrower's balance
  abbrev payment : ℕ
  payment = paid_of (requested_of d amount) (balance_of s d.borrower)

  abbrev loan_after : StoredLoan
  loan_after = after_payment d payment (balance_of s d.borrower) now

  payment-bound : payment ≤ owed d
  payment-bound = omega (arith, requested_of-owed d amount due)

  written-IsSettled :
      (s' : Ledger)
      → (is_given amount && ltb_ℤ (balance_of s d.borrower) (pos (requested_of d amount))) ≡ false
      → IsMoved d.borrower lender payment s s'
      → IsSettled d.id d.borrower lender (owed d) amount s (update_loan d.id (λ _. loan_after) s')
  unfolding update_loan balance_of
  written-IsSettled s' enough h = record {
    after = loan_after;
    paid = payment;
    stored =
        find-update (has_loan_id d.id) (λ _. loan_after) s'.lending.loans l
          (ap (find (has_loan_id d.id)) h.loans ∙ found)
          (same_id _ _ (after_payment-id d payment (balance_of s d.borrower) now));
    covered = omega arith;
    reduced = after_payment-owed d payment (balance_of s d.borrower) now payment-bound;
    asked = λ n e. fully_asked d amount (balance_of s d.borrower) n enough e;
    moved = h.moved;
    sound = after_payment-IsDue d payment (balance_of s d.borrower) now due;
  }

  paid-Ends :
      (is_given amount && ltb_ℤ (balance_of s d.borrower) (pos (requested_of d amount))) ≡ false
      → Ends Settled s
          (pay_parts d lender payment >>= λ _. modify (update_loan d.id (λ _. loan_after)))
  paid-Ends enough =
      Ends-bind (λ _ s'. IsMoved d.borrower lender payment s s') s
        (λ _. modify (update_loan d.id (λ _. loan_after))) (pay_parts d lender payment)
        (pay_parts-Ends d lender s current payment)
        (λ _ s' h.
          Ends-modify Settled s' (update_loan d.id (λ _. loan_after))
            (written-IsSettled s' enough h))

  settle_with-Ends : Ends Settled s (settle_with d lender now amount)
  unfolding settle_with
  settle_with-Ends = search (Ends-gets, Ends-throw_if, paid-Ends) depth 12

module _ (l : StoredLoan) (lender : AccountId) (now : ℕ) (amount : Option ℕ) (s : Ledger)
    (current : IsCurrent s) (due : IsDue l)
    (found : find (has_loan_id l.id) s.lending.loans ≡ some l) (lent : l.lender ≡ some lender) where
  abbrev up_to_date : StoredLoan
  up_to_date = fall_due (accrued l now) now

  dated-Ends :
      Ends
        (λ _ s'. IsSettled l.id l.borrower lender (owed (accrued l now)) amount s s')
        s
        (settle_with up_to_date lender now amount)
  dated-Ends =
      let h =
        settle_with-Ends up_to_date l lender now amount s current
          (fall_due-IsDue (accrued l now) now (accrued-IsDue l now due))
          (ap (λ i. find (has_loan_id i) s.lending.loans) (fall_due-id (accrued l now) now)
            ∙ found) in
      Ends-map
        (λ _ s' settled.
          subst (λ i. IsSettled i l.borrower lender (owed (accrued l now)) amount s s')
            (fall_due-id (accrued l now) now)
            (subst (λ b. IsSettled up_to_date.id b lender (owed (accrued l now)) amount s s')
              (fall_due-borrower (accrued l now) now)
              (subst (λ n. IsSettled up_to_date.id up_to_date.borrower lender n amount s s')
                (fall_due-owed (accrued l now) now) settled)))
        h

  abbrev Done : Unit {0} → Ledger → Type 0
  Done _ s' = IsSettled l.id l.borrower lender (owed (accrued l now)) amount s s'

  lent-Ends : Ends Done s (settle_for up_to_date l.lender now amount)
  unfolding settle_for
  lent-Ends = subst (λ o. Ends Done s (settle_for up_to_date o now amount)) (sym lent) dated-Ends

  rest-Ends :
      (d : StoredLoan)
      → accrue l now ≡ ok d
      → Ends Done s (settle_for (fall_due d now) d.lender now amount)
  rest-Ends d e =
      subst (λ (z : StoredLoan). Ends Done s (settle_for (fall_due z now) z.lender now amount))
        (accrue-ok l d now e).2 lent-Ends

  settle_loan-Ends : Ends Done s (settle_loan l now amount)
  unfolding settle_loan
  settle_loan-Ends =
      search
        (
          Ends-throw_if, Ends-check, Ends-lift, require_owner-Checks, require_lender-Checks,
          rest-Ends,
        )
        depth 12

  -- A settlement of a stored loan of which no more is due than is owed throws, or the stored loan is
  -- reduced, with the interest up to now counted in, by exactly what is paid; the borrower had that
  -- much, exactly that much goes from the borrower to the lender and no other balance changes; an
  -- amount that is asked for is paid in full, up to all that is owed; and no more is due than is
  -- owed afterwards. The units of today have to be those of the epoch.
  pub settle_loan-settles :
      ((e : Fault) × ((settle_loan l now amount s).0 ≡ err e))
      ⊎ IsSettled l.id l.borrower lender
          (owed (accrued l now))
          amount
          s
          (settle_loan l now amount s).1
  settle_loan-settles = elim settle_loan-Ends.ends [
    | inl thrown ↦ inl thrown
    | inr (_, _, settled) ↦ inr settled
  ]
