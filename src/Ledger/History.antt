-- ===== src/Ledger/History.antt =====
-- The book only grows: a recorded transaction is never changed or removed, but for its delivery
-- record.
use nanacoin.Prelude.{
  ℕ, ◌≡◌, sym, true, inl, inr, Option, List, [], ◌∷◌, ◌++◌, ap, ◌∙◌, ℤ, subst, Text,
}
use mathlib.Core.List.{map-append, append_assoc, append-nil}
use nanacoin.Exec.{modify}
use nanacoin.Exec.Keeps.{Keeps, Keeps-modify, keeps_rules}
use nanacoin.Model.{
  Transaction, TransactionKind, TransactionId, Actor, Memo, Reference, Posting, AccountId, User,
  is_usd,
}
use nanacoin.Ledger.State.{Ledger}
use nanacoin.Ledger.Delivery.{Options}
use nanacoin.Ledger.Append.{append}
use nanacoin.Ledger.Book.{facts, book, append-cases}
use nanacoin.Ledger.Core.{Core, core, Holds}
use nanacoin.Ledger.Exchange.{push_usd, usd_transaction, dollar_postings}
use nanacoin.Ledger.Refunds.{reverse_payment}
use nanacoin.Ledger.Guards.{require_active}
use nanacoin.Ledger.Requests.{Request, run}
use nanacoin.Ledger.Preserved.{run-Holds, All-Allowed}

-- A book that begins with `b`.
abbrev pub Grown : List Transaction → Core → Type 0
Grown b c = (ts : List Transaction) × (c.book ≡ b ++ ts)

module _ (b : List Transaction) where
  grow :
      (xs : List Transaction) (t : Transaction)
      → (ts : List Transaction) × (xs ≡ b ++ ts)
      → (ts : List Transaction) × (xs ++ t ∷ [] ≡ b ++ ts)
  grow xs t (ts, e) = (ts ++ t ∷ [], ap (λ ys. ys ++ t ∷ []) e ∙ append_assoc b ts (t ∷ []))

  append-Grown :
      (k : TransactionKind) (a : Actor) (m : Memo) (ps : List Posting) (opts : Options)
      → Keeps (Holds (Grown b)) (append k a m ps opts)
  unfolding core
  append-Grown k a m ps opts = record {
    kept = λ s h. elim (append-cases k a m ps opts s) [
      | inl same ↦ subst (Holds (Grown b)) (sym same) h
      | inr d ↦
          subst (λ ys. (ts : List Transaction) × (ys ≡ b ++ ts)) (sym d.extends.book)
            (grow (book s) _ h)
    ];
  }

  dollars-Grown :
      (s : Ledger) (k : TransactionKind) (at : ℕ) (a : Actor) (m : Memo) (r : Option Reference)
      (from to : AccountId) (n l : Text) (cents : ℤ)
      → is_usd from ≡ true
      → is_usd to ≡ true
      → Keeps
          (Holds (Grown b))
          (modify (push_usd (usd_transaction s k at a m r (dollar_postings from n to l cents))))
  unfolding core push_usd
  dollars-Grown s k at a m r from to n l cents _ _ = Keeps-modify _ (λ x h.
      subst (λ ys. (ts : List Transaction) × (ys ≡ b ++ ts))
        (sym (map-append facts x.transactions _)) (grow (book x) _ h))

  require_active-Grown : (u : User) → Keeps (Holds (Grown b)) (require_active u)
  unfolding require_active
  require_active-Grown u = search keeps_rules

  reverse-Grown :
      (u : User) (id : TransactionId) (m : Text)
      → Unit {0}
      → Keeps (Holds (Grown b)) (reverse_payment u id m)
  unfolding reverse_payment
  reverse-Grown u id m _ = search (keeps_rules, require_active-Grown, append-Grown) depth 20

start-Grown : (s : Ledger) → Grown (book s) (core s)
unfolding core
start-Grown s = ([], sym (append-nil (book s)))

-- From any ledger, by any requests and over any time, the book afterwards is the book before with some
-- transactions behind it: an undone payment stays, and its undoing is another transaction.
pub run-appends :
    (s : Ledger) (rs : List (User × Request))
    → (ts : List Transaction) × (book (run rs s) ≡ book s ++ ts)
unfolding core
run-appends s rs =
    run-Holds (Grown (book s)) (λ k a m p q opts _. append-Grown (book s) k a m (p ∷ q ∷ []) opts)
      (dollars-Grown (book s)) (λ _. Unit {0}) (reverse-Grown (book s)) rs s (All-Allowed rs)
      (start-Grown s)
