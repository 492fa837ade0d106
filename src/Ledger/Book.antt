-- ===== src/Ledger/Book.antt =====
-- The book: the transactions without their delivery records, which are all that ever changes in
-- a recorded transaction. What a commit adds to it, and what it leaves alone.
use nanacoin.Prelude.{
  ◌≡◌, refl, ap, ap₂, ◌∙◌, Bool, true, false, Option, none, some, List, [], ◌∷◌, ◌++◌, map, update,
  pos, arith, if-elim, find, Bool-cases, ◌⊎◌, inl, inr, ◌&&◌, not, any, eqb_ℤ, eqb_ℤ_iff,
}
use mathlib.Core.List.{map-append}
use nanacoin.Exec.{pure, modify, ◌>>=◌, ◌>>◌}
use nanacoin.Exec.Keeps.{Keeps, Keeps-modify, keeps_rules}
use nanacoin.Model.{Transaction, TransactionKind, Actor, Memo, Posting, Fulfillment}
use nanacoin.Ledger.State.{Ledger, sum_amounts, time_of, tick, has_id}
use nanacoin.Ledger.Delivery.{
  original_of, Options, recorded, earlier, start_delivery, close_delivery, new_transaction,
  on_fulfillment, closes_delivery, starts_delivery, with_delivery, is_positive, is_negative,
}
use nanacoin.Ledger.Append.{append, commit, overdraws, push, note_refund, note_gift, note_cash}

-- A transaction without its delivery record.
abbrev pub facts : Transaction → Transaction
facts t = record t { fulfillment = none }

unfoldable pub book : Ledger → List Transaction
book s = map facts s.transactions

facts-on_fulfillment :
    (g : Fulfillment → Fulfillment) (t : Transaction) → facts (on_fulfillment g t) ≡ facts t
facts-on_fulfillment g t = ground arith

pub facts-update :
    (p : Transaction → Bool) (g : Fulfillment → Fulfillment) (ts : List Transaction)
    → map facts (update p (on_fulfillment g) ts) ≡ map facts ts
facts-update p g [] = refl
facts-update p g (t ∷ ts) = ground (arith, facts-update p g ts, facts-on_fulfillment g t)

facts-earlier :
    (s : Ledger) (opts : Options) (o : Option Transaction) (t : Transaction)
    → map facts (earlier s opts o t) ≡ book s
unfolding earlier book
facts-earlier s opts none t = refl
facts-earlier s opts (some o) t =
    if-elim (λ ts. map facts ts ≡ book s) (closes_delivery s opts (some o))
      (close_delivery s t o.id s.transactions) s.transactions
      (facts-update (has_id o.id) _ s.transactions) refl

facts-with_delivery :
    (s : Ledger) (t : Transaction) (p r : Option Posting) → facts (with_delivery s t p r) ≡ facts t
facts-with_delivery s t none r = refl
facts-with_delivery s t (some p) none = refl
facts-with_delivery s t (some p) (some r) = refl

pub facts-recorded :
    (s : Ledger) (opts : Options) (o : Option Transaction) (t : Transaction)
    → facts (recorded s opts o t) ≡ facts t
unfolding recorded
facts-recorded s opts o t =
    if-elim (λ x. facts x ≡ facts t) (closes_delivery s opts o) t (start_delivery s opts t) refl
      (if-elim (λ x. facts x ≡ facts t) (starts_delivery t.kind opts)
        (with_delivery s t (find is_positive t.postings) (find is_negative t.postings)) t
        (facts-with_delivery s t (find is_positive t.postings) (find is_negative t.postings)) refl)

-- What `append` leaves alone, however it ends.
pub record Frame (s s' : Ledger) : Type 0 where
  pub decimals : s'.decimals ≡ s.decimals
  pub money_epoch : s'.money_epoch ≡ s.money_epoch
  pub epoch_exponents : s'.epoch_exponents ≡ s.epoch_exponents
  pub users : s'.users ≡ s.users
  pub listings : s'.listings ≡ s.listings
  pub offers : s'.offers ≡ s.offers
  pub quotes : s'.quotes ≡ s.quotes
  pub usd_balances : s'.usd_balances ≡ s.usd_balances
  pub nickles : s'.nickles ≡ s.nickles
  pub next_nickle : s'.next_nickle ≡ s.next_nickle
  pub next_id : s'.next_id ≡ s.next_id
  pub lotto : s'.lotto ≡ s.lotto
  pub loans : s'.lending.loans ≡ s.lending.loans

Frame-refl : (s : Ledger) → Frame s s
Frame-refl s = ground arith

pub Frame-trans : {a b c : Ledger} → Frame a b → Frame b c → Frame a c
Frame-trans h k = ground arith

-- A state that extends the state `s` to the book `b`.
pub record Extends (s : Ledger) (b : List Transaction) (s' : Ledger) : Type 0 where
  pub book : book s' ≡ b
  pub frame : Frame s s'

Extends-next :
    (s : Ledger) (b : List Transaction) (x y : Ledger)
    → Extends x (book x) y
    → Extends s b x
    → Extends s b y
Extends-next s b x y k h = record { book = k.book ∙ h.book; frame = Frame-trans h.frame k.frame }

note_refund-Extends :
    (opts : Options) (o : Option Transaction) (t : Transaction) (s : Ledger)
    → Extends s (book s) (note_refund opts o t s).1
unfolding note_refund book
note_refund-Extends opts o t s = ground arith

note_gift-Extends :
    (o : Option Transaction) (t : Transaction) (s : Ledger) → Extends s (book s) (note_gift o t s).1
unfolding note_gift book
note_gift-Extends o t s = ground arith

note_cash-Extends :
    (ps : List Posting) (opts : Options) (s : Ledger) → Extends s (book s) (note_cash ps opts s)
unfolding note_cash book
note_cash-Extends ps opts s = ground arith

tick-Frame : (s : Ledger) → Frame s (tick s)
unfolding tick
tick-Frame s = ground arith

module _ (s : Ledger) (b : List Transaction) where
  note_refund-Keeps :
      (opts : Options) (o : Option Transaction) (t : Transaction)
      → Keeps (Extends s b) (note_refund opts o t)
  note_refund-Keeps opts o t = record {
    kept = λ x h. Extends-next s b x _ (note_refund-Extends opts o t x) h;
  }

  note_gift-Keeps : (o : Option Transaction) (t : Transaction) → Keeps (Extends s b) (note_gift o t)
  note_gift-Keeps o t = record { kept = λ x h. Extends-next s b x _ (note_gift-Extends o t x) h }

  note_cash-Keeps :
      (ps : List Posting) (opts : Options) → Keeps (Extends s b) (modify (note_cash ps opts))
  note_cash-Keeps ps opts =
      Keeps-modify (note_cash ps opts) (λ x h. Extends-next s b x _ (note_cash-Extends ps opts x) h)

  -- The three notes behind the push.
  notes-Keeps :
      (opts : Options) (o : Option Transaction) (t : Transaction) (ps : List Posting)
      → Keeps
          (Extends s b)
          (note_refund opts o t >> (note_gift o t >> (modify (note_cash ps opts) >> pure t)))
  notes-Keeps opts o t ps =
      search (keeps_rules, note_refund-Keeps, note_gift-Keeps, note_cash-Keeps)

not_both : (b c : Bool) → (not b && c) ≡ false → (b ≡ true) ⊎ (c ≡ false)
not_both b c h = ground arith

module _ (k : TransactionKind) (a : Actor) (m : Memo) (ps : List Posting) (opts : Options) where
  -- The transaction that a commit puts into the book of `s`.
  abbrev pub entry : Ledger → Transaction
  entry s = new_transaction s k a m ps opts (time_of s)

  push-Frame : (s : Ledger) → Frame s (push k a m ps opts s).1
  unfolding push tick
  push-Frame s = ground arith

  push-Extends : (s : Ledger) → Extends s (book s ++ entry s ∷ []) (push k a m ps opts s).1
  unfolding push book
  push-Extends s =
      let o = original_of s opts in
      record {
        book =
            map-append facts (earlier s opts o (entry s)) (recorded s opts o (entry s) ∷ [])
            ∙ ap₂ ◌++◌ (facts-earlier s opts o (entry s))
                (ap (λ t. t ∷ []) (facts-recorded s opts o (entry s)));
        frame = push-Frame s;
      }

  -- One more transaction in the book, and the frame, whether or not the notes behind it fail.
  pub commit-Extends : (s : Ledger) → Extends s (book s ++ entry s ∷ []) (commit k a m ps opts s).1
  unfolding commit ◌>>=◌ push
  commit-Extends s =
      (notes-Keeps s (book s ++ entry s ∷ []) opts (original_of s opts)
          (recorded s opts (original_of s opts) (entry s)) ps).kept
        _ (push-Extends s)

  -- What a successful pass of the two checks of `append` at `s` leaves in `s'`.
  pub record Appended (s s' : Ledger) : Type 0 where
    pub balanced : sum_amounts ps ≡ pos 0
    pub covered : (opts.allow_overdraft ≡ true) ⊎ (any (overdraws s) ps ≡ false)
    pub extends : Extends s (book s ++ entry s ∷ []) s'

  pub append-checked :
      (s : Ledger)
      → eqb_ℤ (sum_amounts ps) (pos 0) ≡ true
      → (not opts.allow_overdraft && any (overdraws s) ps) ≡ false
      → Appended s (append k a m ps opts s).1
  unfolding append ◌>>=◌
  append-checked s balanced covered = rw balanced (
      rw covered (record {
        balanced = (eqb_ℤ_iff _ _).0 balanced;
        covered = not_both opts.allow_overdraft (any (overdraws s) ps) covered;
        extends = commit-Extends s;
      }))

  -- `append` throws and changes nothing, or it has passed both checks and added one transaction.
  pub append-cases :
      (s : Ledger) → ((append k a m ps opts s).1 ≡ s) ⊎ Appended s (append k a m ps opts s).1
  append-cases s = elim (Bool-cases (eqb_ℤ (sum_amounts ps) (pos 0))) [
    | inr unbalanced ↦ inl (unfold append ◌>>=◌ in rw unbalanced refl)
    | inl balanced ↦ elim (Bool-cases (not opts.allow_overdraft && any (overdraws s) ps)) [
      | inl short ↦ inl (unfold append ◌>>=◌ in rw balanced (rw short refl))
      | inr covered ↦ inr (append-checked s balanced covered)
    ]
  ]
