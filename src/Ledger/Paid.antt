-- ===== src/Ledger/Paid.antt =====
-- What the transfers of a settlement do to balances and to the stored loans (`settle` of
-- nanacoin_ui/src/app/demo/lending.ts).
use nanacoin.Prelude.{
  ℕ, ◌+◌, ◌≡◌, refl, sym, ap, ap₂, get_or, subst, ◌∙◌, Bool, true, false, inl, inr, Bool-cases,
  if◌then◌else◌, Option, none, some, arith, ℤ, pos, neg, pos_part, neg_part, ◌+ℤ◌, int_laws, ◌==◌,
}
use nanacoin.Exec.{Exec, pure, ◌>>◌}
use nanacoin.Exec.Atomic.{Checks, checks_rules}
use nanacoin.Exec.Ends.{Ends, Ends-bind, Ends-check, Ends-map, Checks-lift, Checks-gets}
use nanacoin.Model.{AccountId, same_account, StoredLoan, TransactionKind, Actor, Memo}
use nanacoin.Ledger.State.{Ledger, balance_of}
use nanacoin.Ledger.Delivery.{Options}
use nanacoin.Ledger.Append.{append}
use nanacoin.Ledger.Balances.{IsCurrent}
use nanacoin.Ledger.Outcome.{append-outcome}
use nanacoin.Ledger.Moves.{IsMove, Appended-IsPaid}
use nanacoin.Ledger.Transfers.{two_postings}
use nanacoin.Ledger.Loans.{
  principal_part, interest_part, require_owner, require_lender, check_funds, post_loan,
}
use nanacoin.Ledger.Repayments.{pay_parts}

pub require_owner-Checks : (s : Ledger) (a : AccountId) → Checks s (require_owner a)
unfolding require_owner
require_owner-Checks s a = search (checks_rules, Checks-lift, Checks-gets)

pub require_lender-Checks : (s : Ledger) (a : Option AccountId) → Checks s (require_lender a)
require_lender-Checks s none = Checks-lift s _
require_lender-Checks s (some a) = require_owner-Checks s a

check_funds-Checks : (s : Ledger) (from to : AccountId) (n : ℕ) → Checks s (check_funds from to n)
unfolding check_funds
check_funds-Checks s from to n = search (checks_rules, require_owner-Checks)

-- Coins that have moved and loans that have not changed; the units of today stay.
pub record IsMoved (from to : AccountId) (n : ℕ) (s s' : Ledger) : Type 0 where
  pub current : IsCurrent s'
  pub loans : s'.lending.loans ≡ s.lending.loans
  pub moved : IsMove from to (pos n) s s'

none_moved :
    (a b : Bool) (x : ℤ)
    → x ≡ x +ℤ (if a then neg (pos 0) else pos 0) +ℤ (if b then pos 0 else pos 0)
none_moved true true x = omega int_laws
none_moved true false x = omega int_laws
none_moved false true x = omega int_laws
none_moved false false x = omega int_laws

both_moved :
    (a b : Bool) (x y z : ℤ) (p q n : ℕ)
    → p + q ≡ n
    → y ≡ x +ℤ (if a then neg (pos p) else pos 0) +ℤ (if b then pos p else pos 0)
    → z ≡ y +ℤ (if a then neg (pos q) else pos 0) +ℤ (if b then pos q else pos 0)
    → z ≡ x +ℤ (if a then neg (pos n) else pos 0) +ℤ (if b then pos n else pos 0)
both_moved true true x y z p q n e h k =
    omega (int_laws, ap pos_part h, ap neg_part h, ap pos_part k, ap neg_part k)
both_moved true false x y z p q n e h k =
    omega (int_laws, ap pos_part h, ap neg_part h, ap pos_part k, ap neg_part k)
both_moved false true x y z p q n e h k =
    omega (int_laws, ap pos_part h, ap neg_part h, ap pos_part k, ap neg_part k)
both_moved false false x y z p q n e h k =
    omega (int_laws, ap pos_part h, ap neg_part h, ap pos_part k, ap neg_part k)

module _ (from to : AccountId) where
  IsMoved-zero : (s : Ledger) → IsCurrent s → IsMoved from to 0 s s
  IsMoved-zero s current = record {
    current = current;
    loans = refl;
    moved = λ x. none_moved (same_account from x) (same_account to x) (balance_of s x);
  }

  IsMoved-trans :
      (p q n : ℕ) (a b c : Ledger)
      → p + q ≡ n
      → IsMoved from to p a b
      → IsMoved from to q b c
      → IsMoved from to n a c
  IsMoved-trans p q n a b c e h k = record {
    current = k.current;
    loans = k.loans ∙ h.loans;
    moved = λ x.
        both_moved (same_account from x) (same_account to x) (balance_of a x) (balance_of b x)
          (balance_of c x) p q n e (h.moved x) (k.moved x);
  }

  module _ (s : Ledger) (current : IsCurrent s) (n : ℕ) where
    append-Ends :
        (m : Memo) (opts : Options)
        → opts.reverses ≡ none
        → opts.allow_overdraft ≡ false
        → Ends
            (λ _ s'. IsMoved from to n s s')
            s
            (append TransactionKind.transfer Actor.system m (two_postings from to (pos n)) opts)
    append-Ends m opts fresh strict =
        let k = TransactionKind.transfer in
        elim (append-outcome k Actor.system m (two_postings from to (pos n)) opts s fresh) [
          | inl (e, x) ↦ record { ends = inl (e, ap (λ r. r.0) x) }
          | inr ((t, done), d) ↦ record {
            ends = inr (
              t,
              done,
              record {
                current = record {
                  exponent =
                      ap₂ (λ es e. get_or es e 0) d.extends.frame.epoch_exponents
                        d.extends.frame.money_epoch
                      ∙ current.exponent;
                };
                loans = d.extends.frame.loans;
                moved =
                    (Appended-IsPaid k Actor.system m from to (pos n) opts s _ current strict
                      (t, done) d).1.1;
              },
            );
          }
        ]

    post_loan-Ends :
        (loan : ℕ) (interest : Bool)
        → Ends (λ _ s'. IsMoved from to n s s') s (post_loan from to n loan interest)
    unfolding post_loan pure
    post_loan-Ends loan interest =
        Ends-bind (λ _ s'. IsMoved from to n s s') s (λ _. pure tt) _ (append-Ends _ _ refl refl)
          (λ t s' h. record { ends = inr (tt, refl, h) })

parts_sum : (l : StoredLoan) (paid : ℕ) → principal_part l paid + interest_part l paid ≡ paid
parts_sum l paid = omega arith

zero_of : (n : ℕ) → (n == 0) ≡ true → n ≡ 0
zero_of n h = ground arith

-- One of the two transfers of a payment, which is left out where it would move nothing
part-Ends :
    (from to : AccountId) (n loan : ℕ) (interest : Bool) (s : Ledger)
    → IsCurrent s
    → Ends
        (λ _ s'. IsMoved from to n s s')
        s
        (if n == 0 then pure tt else post_loan from to n loan interest)
unfolding pure
part-Ends from to n loan interest s current = elim (Bool-cases (n == 0)) [
  | inl e ↦ rw e (record {
    ends = inr (
      tt,
      refl,
      subst (λ k. IsMoved from to k s s) (sym (zero_of n e)) (IsMoved-zero from to s current),
    );
  })
  | inr e ↦ rw e (post_loan-Ends from to s current n loan interest)
]

module _ (l : StoredLoan) (lender : AccountId) (s : Ledger) (current : IsCurrent s) where
  funds-Checks :
      (paid : ℕ) → Checks s (if paid == 0 then pure tt else check_funds l.borrower lender paid)
  funds-Checks paid = search (checks_rules, check_funds-Checks)

  first_part : ℕ → Exec Ledger (Unit {0})
  first_part paid =
      if principal_part l paid == 0
      then pure tt
      else post_loan l.borrower lender (principal_part l paid) l.id false

  second_part : ℕ → Exec Ledger (Unit {0})
  second_part paid =
      if interest_part l paid == 0
      then pure tt
      else post_loan l.borrower lender (interest_part l paid) l.id true

  abbrev Moved : ℕ → Unit {0} → Ledger → Type 0
  Moved n _ s' = IsMoved l.borrower lender n s s'

  pub pay_parts-Ends : (paid : ℕ) → Ends (Moved paid) s (pay_parts l lender paid)
  unfolding pay_parts first_part second_part
  pay_parts-Ends paid =
      Ends-check s (λ _. first_part paid >> second_part paid)
        (if paid == 0 then pure tt else check_funds l.borrower lender paid) (funds-Checks paid)
        (λ _.
          Ends-bind (Moved (principal_part l paid)) s (λ _. second_part paid) (first_part paid)
            (part-Ends l.borrower lender (principal_part l paid) l.id false s current)
            (λ _ s' h.
              further h
                (part-Ends l.borrower lender (interest_part l paid) l.id true s' h.current)))
    where
      further :
          {s' : Ledger} {m : Exec Ledger (Unit {0})}
          → IsMoved l.borrower lender (principal_part l paid) s s'
          → Ends (λ _ s''. IsMoved l.borrower lender (interest_part l paid) s' s'') s' m
          → Ends (λ _ s''. IsMoved l.borrower lender paid s s'') s' m
      further {s'} {m} h k =
          Ends-map
            (λ _ s'' j. IsMoved-trans l.borrower lender _ _ paid s s' s'' (parts_sum l paid) h j) k
