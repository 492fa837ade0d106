-- ===== src/Ledger/Balances.antt =====
-- Balances under one more transaction: exactly its postings are added, where today's units are
-- the units of its epoch.
use nanacoin.Prelude.{
  ℕ, ◌≡◌, refl, ap, ap₂, ◌∙◌, sym, List, [], ◌∷◌, ◌++◌, map, ℤ, ◌+ℤ◌, ◌*ℕ◌, *ℕ_parts, int_laws,
  arith, sum_by, sum_by-snoc, get_or,
}
use nanacoin.Model.{AccountId, Transaction, Posting}
use nanacoin.Ledger.State.{
  Ledger, scale_amount, exponent_of, current_posting, current_postings, amount_at, effect,
  balance_in, balance_of,
}
use nanacoin.Ledger.Book.{facts, book, Extends}

-- The sum of an account's amounts in a list of postings.
unfoldable pub posted : AccountId → List Posting → ℤ
posted a = sum_by (amount_at a)

-- The units of today are those of the last epoch.
pub record IsCurrent (s : Ledger) : Type 0 where
  pub exponent : get_or s.epoch_exponents s.money_epoch 0 ≡ 0

*ℕ_one : (x : ℤ) → x *ℕ 1 ≡ x
*ℕ_one x = omega (int_laws, *ℕ_parts x 1)

scale-zero : (x : ℤ) → scale_amount 0 x ≡ x
scale-zero x = *ℕ_one x

current_posting-zero : (p : Posting) → current_posting 0 p ≡ p
current_posting-zero p = ground (arith, scale-zero p.amount)

current_postings-zero : (ps : List Posting) → map (current_posting 0) ps ≡ ps
current_postings-zero [] = refl
current_postings-zero (p ∷ ps) = ground (arith, current_posting-zero p, current_postings-zero ps)

-- A transaction of an epoch with today's units has its own postings for its effect.
pub effect-posted :
    (es : List ℕ) (a : AccountId) (t : Transaction)
    → exponent_of es t ≡ 0
    → effect es a t ≡ posted a t.postings
unfolding effect posted current_postings
effect-posted es a t e = rw e (rw current_postings-zero)

balance_in-facts :
    (es : List ℕ) (ts : List Transaction) (a : AccountId)
    → balance_in es (map facts ts) a ≡ balance_in es ts a
unfolding balance_in effect current_postings sum_by
balance_in-facts es [] a = refl
balance_in-facts es (t ∷ ts) a = ap (λ z. effect es a t +ℤ z) (balance_in-facts es ts a)

pub balance_of-book :
    (s : Ledger) (a : AccountId) → balance_of s a ≡ balance_in s.epoch_exponents (book s) a
unfolding balance_of book
balance_of-book s a = sym (balance_in-facts s.epoch_exponents s.transactions a)

pub balance_in-snoc :
    (es : List ℕ) (ts : List Transaction) (t : Transaction) (a : AccountId)
    → balance_in es (ts ++ t ∷ []) a ≡ balance_in es ts a +ℤ effect es a t
unfolding balance_in
balance_in-snoc es ts t a = sum_by-snoc (effect es a) ts t

-- The balances of a state that extends another by one transaction of today's epoch.
pub balance_of-Extends :
    (s s' : Ledger) (t : Transaction) (a : AccountId)
    → Extends s (book s ++ t ∷ []) s'
    → exponent_of s.epoch_exponents t ≡ 0
    → balance_of s' a ≡ balance_of s a +ℤ posted a t.postings
balance_of-Extends s s' t a h e =
    balance_of-book s' a
    ∙ ap₂ (λ es b. balance_in es b a) h.frame.epoch_exponents h.book
    ∙ balance_in-snoc s.epoch_exponents (book s) t a
    ∙ ap₂ ◌+ℤ◌ (sym (balance_of-book s a)) (effect-posted s.epoch_exponents a t e)
