-- ===== src/Ledger/Core.antt =====
-- The part of the state that the money depends on, and how the primitive steps keep a predicate
-- on it.
use nanacoin.Prelude.{ℕ, ◌+◌, ◌≡◌, sym, if-elim, List, [], ◌∷◌, ◌++◌, subst}
use mathlib.Core.List.{map-append}
use nanacoin.Exec.{modify}
use nanacoin.Exec.Keeps.{Keeps, Keeps-modify}
use nanacoin.Model.{Transaction}
use nanacoin.Ledger.State.{Ledger, now, tick}
use nanacoin.Ledger.Exchange.{push_usd}
use nanacoin.Ledger.Book.{facts, book, Extends}

-- The book, the exponents of the epochs, and the epoch.
pub record Core : Type 0 where
  pub book : List Transaction
  pub exponents : List ℕ
  pub epoch : ℕ

unfoldable pub core : Ledger → Core
unfolding book
core s = record { book = book s; exponents = s.epoch_exponents; epoch = s.money_epoch }

-- The core with one more transaction.
abbrev pub with_entry : Ledger → Transaction → Core
with_entry s t = record {
  book = book s ++ t ∷ [];
  exponents = s.epoch_exponents;
  epoch = s.money_epoch;
}

pub core-Extends :
    (s s' : Ledger) (t : Transaction) → Extends s (book s ++ t ∷ []) s' → core s' ≡ with_entry s t
unfolding core
core-Extends s s' t h = λ i. record {
  book = h.book i;
  exponents = h.frame.epoch_exponents i;
  epoch = h.frame.money_epoch i;
}

pub core-push_usd : (s : Ledger) (t : Transaction) → core (push_usd t s) ≡ with_entry s (facts t)
unfolding core push_usd
core-push_usd s t = λ i. record {
  book = map-append facts s.transactions (t ∷ []) i;
  exponents = s.epoch_exponents;
  epoch = s.money_epoch;
}

module _ (Q : Core → Type 0) where
  abbrev pub Holds : Ledger → Type 0
  Holds s = Q (core s)

  -- A step that leaves the core alone.
  pub Quiet-Keeps :
      (f : Ledger → Ledger) → ((s : Ledger) → core (f s) ≡ core s) → Keeps Holds (modify f)
  Quiet-Keeps f e = Keeps-modify f (λ s h. subst Q (sym (e s)) h)

  pub now-Keeps : Keeps Holds now
  unfolding now core tick
  now-Keeps = record {
    kept = λ s h. if-elim Holds s.live_clock s (record s { clock = s.clock + 1 }) h h;
  }
