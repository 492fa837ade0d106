-- ===== src/Ledger/Solvent.antt =====
-- No ordinary coin account is ever overdrawn, unless Nana reverses a payment whose money has been
-- spent: that reversal is the one call of `append` which allows an overdraft.
use nanacoin.Prelude.{
  ℕ, ◌≡◌, ◌≢◌, refl, sym, ap, Bool, true, false, ◌⊎◌, inl, inr, Option, none, some, List, [], ◌∷◌,
  map, any, ℤ, pos, neg, ◌+ℤ◌, ◌≤ℤ◌, +ℤ_zero, int_laws, arith, All, All-append, All-find, sum_by,
  subst, Text, get_or, Option-cases, Bool-cases,
}
use nanacoin.Exec.{Result, ◌>>=◌, modify}
use nanacoin.Exec.Keeps.{Keeps, Keeps-modify}
use nanacoin.Model.{
  Transaction, TransactionKind, TransactionId, Actor, Memo, Reference, Posting, AccountId, User,
  is_usd, same_account, same_account_iff, is_nana,
}
use nanacoin.Ledger.State.{
  find_transaction, Ledger, sum_amounts, balance_of, balance_in, effect, exponent_of, amount_at,
  current_postings, current_posting,
}
use nanacoin.Ledger.Delivery.{Options}
use nanacoin.Ledger.Append.{append, overdraws}
use nanacoin.Ledger.Book.{facts, book, append-cases, entry}
use nanacoin.Ledger.Balances.{posted, balance_in-snoc, balance_of-book, effect-posted}
use nanacoin.Ledger.Core.{Core, core, Holds, with_entry, core-Extends, core-push_usd}
use nanacoin.Ledger.Refunds.{reverse_payment, mirrored, reversal_options}
use nanacoin.Ledger.Guards.{require_active}
use nanacoin.Ledger.Requests.{Request, run, initial}
use nanacoin.Ledger.Preserved.{run-Holds, Allowed}
use nanacoin.Ledger.Exchange.{push_usd, usd_transaction, dollar_postings}

-- An account that holds coins: neither a dollar account nor the issuance account.
abbrev pub IsCoin : AccountId → Type 0
IsCoin a = (is_usd a ≡ false) × (a ≢ AccountId.system_issuance)

abbrev pub TwoSided : Transaction → Type 0
TwoSided t = (p : Posting) × (q : Posting) × (t.postings ≡ p ∷ q ∷ [])

-- Today's units are those of the last epoch, every transaction has two postings, and no coin
-- account is below zero.
pub record Solvent (c : Core) : Type 0 where
  pub current : get_or c.exponents c.epoch 0 ≡ 0
  pub sides : All TwoSided c.book
  pub funded : (a : AccountId) → IsCoin a → pos 0 ≤ℤ balance_in c.exponents c.book a

-- What two checked postings that sum to zero leave in an account.
covered_pair :
    (s : Ledger) (p q : Posting) (a : AccountId)
    → a ≢ AccountId.system_issuance
    → sum_amounts (p ∷ q ∷ []) ≡ pos 0
    → any (overdraws s) (p ∷ q ∷ []) ≡ false
    → pos 0 ≤ℤ balance_of s a
    → pos 0 ≤ℤ balance_of s a +ℤ posted a (p ∷ q ∷ [])
unfolding sum_amounts posted
covered_pair s p q a ne sum covered h = grind (
  int_laws,
  same_account_iff p.account a,
  same_account_iff q.account a,
  same_account_iff AccountId.system_issuance p.account,
  same_account_iff AccountId.system_issuance q.account,
)

Solvent-current : (s : Ledger) → Solvent (core s) → get_or s.epoch_exponents s.money_epoch 0 ≡ 0
unfolding core
Solvent-current s h = h.current

pub strictly_covered : (b c : Bool) → b ≡ false → (b ≡ true) ⊎ (c ≡ false) → c ≡ false
strictly_covered b c h k = ground arith

Solvent-snoc :
    (s : Ledger) (t : Transaction)
    → Solvent (core s)
    → TwoSided t
    → ((a : AccountId)
        → IsCoin a
        → pos 0 ≤ℤ balance_of s a
        → pos 0 ≤ℤ balance_of s a +ℤ effect s.epoch_exponents a t)
    → Solvent (with_entry s t)
unfolding core
Solvent-snoc s t h sides covered = record {
  current = h.current;
  sides = All-append TwoSided (book s) (t ∷ []) h.sides (sides, tt);
  funded = λ a coin.
      rw (balance_in-snoc s.epoch_exponents (book s) t a, ← balance_of-book s a)
        (covered a coin (rw (balance_of-book s a) (h.funded a coin)));
}

pair-Solvent :
    (k : TransactionKind) (a : Actor) (m : Memo) (p q : Posting) (opts : Options)
    → opts.allow_overdraft ≡ false
    → Keeps (Holds Solvent) (append k a m (p ∷ q ∷ []) opts)
pair-Solvent k a m p q opts strict = record {
  kept = λ s h. elim (append-cases k a m (p ∷ q ∷ []) opts s) [
    | inl same ↦ subst (Holds Solvent) (sym same) h
    | inr d ↦ subst Solvent (sym (core-Extends s _ _ d.extends)) (
        Solvent-snoc s (entry k a m (p ∷ q ∷ []) opts s) h (p, q, refl)
          (λ x coin funded.
            rw
              (effect-posted s.epoch_exponents x (entry k a m (p ∷ q ∷ []) opts s)
                (Solvent-current s h))
              (covered_pair s p q x coin.1 d.balanced (strictly_covered _ _ strict d.covered)
                funded)))
  ];
}

dollar_amount :
    (e : ℕ) (p : Posting) (a : AccountId)
    → is_usd p.account ≡ true
    → is_usd a ≡ false
    → amount_at a (current_posting e p) ≡ pos 0
dollar_amount e p a f g = elim (Bool-cases (same_account p.account a)) [
  | inl same ↦ absurd (cc (f, g, ap is_usd ((same_account_iff p.account a).0 same)))
  | inr other ↦ rw f (rw other refl)
]

dollars-effect :
    (es : List ℕ) (a from to : AccountId) (t : Transaction) (n l : Text) (cents : ℤ)
    → t.postings ≡ dollar_postings from n to l cents
    → is_usd from ≡ true
    → is_usd to ≡ true
    → is_usd a ≡ false
    → effect es a t ≡ pos 0
unfolding effect current_postings sum_by
dollars-effect es a from to t n l cents ps f g c = rw ps (
    rw
      (dollar_amount (exponent_of es t) (record { account = from; name = n; amount = neg cents }) a
        f c)
      (rw
        (dollar_amount (exponent_of es t) (record { account = to; name = l; amount = cents }) a g c)
        (omega int_laws)))

dollars-Solvent :
    (s : Ledger) (k : TransactionKind) (at : ℕ) (a : Actor) (m : Memo) (r : Option Reference)
    (from to : AccountId) (n l : Text) (cents : ℤ)
    → is_usd from ≡ true
    → is_usd to ≡ true
    → Keeps
        (Holds Solvent)
        (modify (push_usd (usd_transaction s k at a m r (dollar_postings from n to l cents))))
dollars-Solvent s k at a m r from to n l cents f g =
    let t = usd_transaction s k at a m r (dollar_postings from n to l cents) in
    Keeps-modify (push_usd t) (λ x h. subst Solvent (sym (core-push_usd x t)) (
      Solvent-snoc x t h (_, _, refl)
        (λ c coin funded.
          rw (dollars-effect x.epoch_exponents c from to t n l cents refl f g coin.0)
            (rw (+ℤ_zero (balance_of x c)) funded))))

module _ (u : User) (id : TransactionId) (m : Text) (s : Ledger) where
  -- The append that a reversal of `t` makes.
  abbrev undo_of : Transaction → Result Transaction × Ledger
  undo_of t =
      append TransactionKind.reversal (Actor.by_user u.id) (Memo.words m)
        (map mirrored (current_postings s.epoch_exponents t))
        (record (reversal_options t id) {
          allow_overdraft = is_nana u.role;
          reference = t.reference;
        })
        s

  reverse-missing : find_transaction s id ≡ none → (reverse_payment u id m s).1 ≡ s
  unfolding reverse_payment ◌>>=◌ require_active
  reverse-missing missing = ground arith

  reverse-found :
      (t : Transaction)
      → find_transaction s id ≡ some t
      → ((reverse_payment u id m s).1 ≡ s) ⊎ (reverse_payment u id m s ≡ undo_of t)
  unfolding reverse_payment ◌>>=◌ require_active
  reverse-found t found = ground arith

All-facts : (ts : List Transaction) → All TwoSided (map facts ts) → All TwoSided ts
All-facts [] h = tt
All-facts (t ∷ ts) (h, hs) = (h, All-facts ts hs)

-- A reversal by a member other than Nana is checked like any payment.
undo-Solvent :
    (u : User) (id : TransactionId) (m : Text) (s : Ledger) (t : Transaction)
    → is_nana u.role ≡ false
    → TwoSided t
    → Holds Solvent s
    → Holds Solvent (undo_of u id m s t).1
unfolding current_postings
undo-Solvent u id m s t member (p, q, ps) h = rw ps ((pair-Solvent _ _ _ _ _ _ member).kept s h)

reverse-Solvent :
    (u : User) (id : TransactionId) (m : Text)
    → is_nana u.role ≡ false
    → Keeps (Holds Solvent) (reverse_payment u id m)
unfolding find_transaction core book
reverse-Solvent u id m member = record {
  kept = λ s h. elim (Option-cases (find_transaction s id)) [
    | inl missing ↦ subst (Holds Solvent) (sym (reverse-missing u id m s missing)) h
    | inr (t, found) ↦ elim (reverse-found u id m s t found) [
      | inl same ↦ subst (Holds Solvent) (sym same) h
      | inr undone ↦
          subst (λ r. Holds Solvent r.1) (sym undone)
            (undo-Solvent u id m s t member
              (All-find TwoSided _ s.transactions t (All-facts s.transactions h.sides) found) h)
    ]
  ];
}

initial-Solvent : (clock : ℕ) → Solvent (core (initial clock))
unfolding core book balance_in sum_by
initial-Solvent clock = record { current = refl; sides = tt; funded = λ a coin. omega arith }

-- Whatever requests are made of a new ledger, and whatever time passes between them, if no reversal among them is Nana's, then no
-- coin account is below zero afterwards: members' accounts, the voucher reserve and every other account
-- but the issuance account and the dollar accounts.
pub run-solvent :
    (clock : ℕ) (rs : List (User × Request))
    → All (λ (mr : User × Request). Allowed (λ u. is_nana u.role ≡ false) mr.0 mr.1) rs
    → (a : AccountId) → IsCoin a
    → pos 0 ≤ℤ balance_of (run rs (initial clock)) a
unfolding core
run-solvent clock rs members a coin = rw (balance_of-book (run rs (initial clock)) a) (
    (run-Holds Solvent pair-Solvent dollars-Solvent (λ u. is_nana u.role ≡ false) reverse-Solvent rs
        (initial clock) members (initial-Solvent clock)).funded
      a coin)
