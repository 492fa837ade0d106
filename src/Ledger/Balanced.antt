-- ===== src/Ledger/Balanced.antt =====
-- Double entry: in every transaction of the book the postings sum to zero, whatever is called.
use nanacoin.Prelude.{
  ℕ, ◌≡◌, refl, sym, true, inl, inr, Option, List, [], ◌∷◌, map, ℤ, pos, eqb_ℤ_iff, int_laws, All,
  All-append, sum_by, subst, Text,
}
use mathlib.Core.List.{map-append}
use nanacoin.Exec.{modify}
use nanacoin.Exec.Keeps.{Keeps, Keeps-modify, keeps_rules}
use nanacoin.Model.{
  Transaction, TransactionKind, TransactionId, Actor, Memo, Reference, Posting, AccountId, User,
  is_usd,
}
use nanacoin.Ledger.State.{Ledger, sum_amounts, balanced}
use nanacoin.Ledger.Delivery.{Options}
use nanacoin.Ledger.Append.{append}
use nanacoin.Ledger.Book.{facts, book, append-cases}
use nanacoin.Ledger.Core.{Core, core, Holds}
use nanacoin.Ledger.Exchange.{push_usd, usd_transaction, dollar_postings}
use nanacoin.Ledger.Refunds.{reverse_payment}
use nanacoin.Ledger.Guards.{require_active}
use nanacoin.Ledger.Requests.{Request, run, initial}
use nanacoin.Ledger.Preserved.{run-Holds, All-Allowed}

abbrev pub IsBalanced : Transaction → Type 0
IsBalanced t = sum_amounts t.postings ≡ pos 0

-- Every transaction of the book balances.
abbrev pub BookBalanced : Core → Type 0
BookBalanced c = All IsBalanced c.book

append-BookBalanced :
    (k : TransactionKind) (a : Actor) (m : Memo) (ps : List Posting) (opts : Options)
    → Keeps (Holds BookBalanced) (append k a m ps opts)
unfolding core
append-BookBalanced k a m ps opts = record {
  kept = λ s h. elim (append-cases k a m ps opts s) [
    | inl same ↦ subst (Holds BookBalanced) (sym same) h
    | inr d ↦
        subst (All IsBalanced) (sym d.extends.book)
          (All-append IsBalanced (book s) _ h (d.balanced, tt))
  ];
}

dollar_postings-sum :
    (from to : AccountId) (n l : Text) (cents : ℤ)
    → sum_amounts (dollar_postings from n to l cents) ≡ pos 0
unfolding sum_amounts
dollar_postings-sum from to n l cents = omega int_laws

dollars-BookBalanced :
    (s : Ledger) (k : TransactionKind) (at : ℕ) (a : Actor) (m : Memo) (r : Option Reference)
    (from to : AccountId) (n l : Text) (cents : ℤ)
    → is_usd from ≡ true
    → is_usd to ≡ true
    → Keeps
        (Holds BookBalanced)
        (modify (push_usd (usd_transaction s k at a m r (dollar_postings from n to l cents))))
unfolding core push_usd
dollars-BookBalanced s k at a m r from to n l cents _ _ = Keeps-modify _ (λ x h.
    subst (All IsBalanced) (sym (map-append facts x.transactions _))
      (All-append IsBalanced (book x) _ h (dollar_postings-sum from to n l cents, tt)))

require_active-BookBalanced : (u : User) → Keeps (Holds BookBalanced) (require_active u)
unfolding require_active
require_active-BookBalanced u = search keeps_rules

reverse-BookBalanced :
    (u : User) (id : TransactionId) (m : Text)
    → Unit {0}
    → Keeps (Holds BookBalanced) (reverse_payment u id m)
unfolding reverse_payment
reverse-BookBalanced u id m _ =
    search (keeps_rules, require_active-BookBalanced, append-BookBalanced) depth 20

sum-BookBalanced :
    (ts : List Transaction)
    → All IsBalanced (map facts ts)
    → sum_by (λ (t : Transaction). sum_amounts t.postings) ts ≡ pos 0
unfolding sum_by
sum-BookBalanced [] h = refl
sum-BookBalanced (t ∷ ts) (h, hs) = rw h (rw (sum-BookBalanced ts hs) (omega int_laws))

balanced-BookBalanced : (s : Ledger) → BookBalanced (core s) → balanced s ≡ true
unfolding core book balanced
balanced-BookBalanced s h = (eqb_ℤ_iff _ _).1 (sum-BookBalanced s.transactions h)

initial-BookBalanced : (clock : ℕ) → BookBalanced (core (initial clock))
unfolding core book
initial-BookBalanced clock = tt

-- Whatever requests whatever members make of a new ledger, and whatever time passes between them, the check that the status page reports
-- (`ledger_balanced`) holds afterwards: all postings in the book sum to zero.
pub run-balanced :
    (clock : ℕ) (rs : List (User × Request)) → balanced (run rs (initial clock)) ≡ true
run-balanced clock rs = balanced-BookBalanced _ (
    run-Holds BookBalanced (λ k a m p q opts _. append-BookBalanced k a m (p ∷ q ∷ []) opts)
      dollars-BookBalanced (λ _. Unit {0}) reverse-BookBalanced rs (initial clock) (All-Allowed rs)
      (initial-BookBalanced clock))
