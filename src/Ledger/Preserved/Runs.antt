-- ===== src/Ledger/Preserved/Runs.antt =====
-- Every request keeps the predicate, and so does any run of requests.
use nanacoin.Prelude.{ℕ, ◌≡◌, Bool, true, false, Option, List, [], ◌∷◌, ℤ, Text, All}
use nanacoin.Exec.{Exec, ◌>>◌, modify, gets, pure}
use nanacoin.Exec.Keeps.{Keeps, Keeps-bind, Keeps-gets, Keeps-pure, Keeps-modify, keeps_rules}
use nanacoin.Model.{
  TransactionKind, TransactionId, Actor, Memo, Reference, Posting, AccountId, User, is_usd,
}
use nanacoin.Ledger.State.{Ledger, start_live}
use nanacoin.Ledger.Delivery.{Options}
use nanacoin.Ledger.Append.{append}
use nanacoin.Ledger.Core.{Core, core, Holds}
use nanacoin.Ledger.Exchange.{push_usd, usd_transaction, dollar_postings}
use nanacoin.Ledger.Refunds.{reverse_payment}
use nanacoin.Ledger.Requests.{Request, add_member, at_now, or_invalid, handle, run}
use nanacoin.Ledger.Preserved.Coins
use nanacoin.Ledger.Preserved.Sales
use nanacoin.Ledger.Preserved.Credit
use nanacoin.Ledger.Preserved.Gifts

-- Whether a request is one that keeps the predicate: a reversal may be for some members only.
abbrev pub Allowed : (User → Type 0) → User → Request → Type 0
Allowed Permitted me (Request.reverse id m) = Permitted me
Allowed Permitted me _ = Unit

-- Every request is allowed to everybody where nothing is asked of the member.
allowed : (u : User) (r : Request) → Allowed (λ _. Unit {0}) u r
allowed u (Request.reverse id m) = tt
allowed u r = tt

pub All-Allowed :
    (rs : List (User × Request))
    → All (λ (mr : User × Request). Allowed (λ _. Unit {0}) mr.0 mr.1) rs
All-Allowed [] = tt
All-Allowed ((u, r) ∷ rs) = (allowed u r, All-Allowed rs)

module _ (Q : Core → Type 0)
    (pair : (k : TransactionKind) (a : Actor) (m : Memo) (p q : Posting) (opts : Options)
      → opts.allow_overdraft ≡ false
      → Keeps (Holds Q) (append k a m (p ∷ q ∷ []) opts))
    (dollars : (s : Ledger) (k : TransactionKind) (at : ℕ) (a : Actor) (m : Memo)
        (r : Option Reference) (from to : AccountId) (n l : Text) (cents : ℤ)
      → is_usd from ≡ true
      → is_usd to ≡ true
      → Keeps
          (Holds Q)
          (modify (push_usd (usd_transaction s k at a m r (dollar_postings from n to l cents)))))
    (Permitted : User → Type 0)
    (undo : (u : User) (id : TransactionId) (m : Text)
      → Permitted u
      → Keeps (Holds Q) (reverse_payment u id m)) where
  add_member-Keeps : (u : User) (n d p : Text) (g : Bool) → Keeps (Holds Q) (add_member u n d p g)
  unfolding add_member
  add_member-Keeps u n d p true =
      search (keeps_rules, Sales.add_user-Keeps Q pair, Coins.issue-Keeps Q pair dollars)
  add_member-Keeps u n d p false = search (keeps_rules, Sales.add_user-Keeps Q pair)

  discard : {A : Type 0} {m : Exec Ledger A} → Keeps (Holds Q) m → Keeps (Holds Q) (m >> pure tt)
  discard {m} k = Keeps-bind m (λ _. pure tt) k (λ _. Keeps-pure tt)

  or_invalid-Keeps :
      {A : Type 0} {m : Exec Ledger A} → Keeps (Holds Q) m → Keeps (Holds Q) (or_invalid m)
  unfolding or_invalid
  or_invalid-Keeps k = record { kept = k.kept }

  at_now-Keeps :
      {A : Type 0} {m : ℕ → Exec Ledger A}
      → ((t : ℕ) → Keeps (Holds Q) (m t))
      → Keeps (Holds Q) (at_now m)
  unfolding at_now
  at_now-Keeps {m} k =
      Keeps-bind (gets (λ s. s.wall_clock)) (λ t. m t >> pure tt) (Keeps-gets _)
        (λ t. discard (k t))

  pub handle-Keeps :
      (me : User) (r : Request) → Allowed Permitted me r → Keeps (Holds Q) (handle me r)
  unfolding handle start_live core
  handle-Keeps me (Request.provision n d p h) _ = discard (Sales.provision-Keeps Q pair n d p h)
  handle-Keeps me (Request.add_user n d p g) _ = discard (add_member-Keeps me n d p g)
  handle-Keeps me (Request.set_status id st) _ =
      discard (Sales.set_user_status-Keeps Q pair me id st)
  handle-Keeps me (Request.set_bio id b) _ = discard (Sales.set_user_bio-Keeps Q pair me id b)
  handle-Keeps me (Request.set_password id p) _ =
      discard (Sales.set_user_password-Keeps Q pair me id p)
  handle-Keeps me (Request.transfer to n m e) _ =
      discard (Coins.transfer-Keeps Q pair dollars me to n m e)
  handle-Keeps me (Request.issue to n m) _ = discard (Coins.issue-Keeps Q pair dollars me to n m)
  handle-Keeps me (Request.retire from n m) _ =
      discard (Coins.retire-Keeps Q pair dollars me from n m)
  handle-Keeps me (Request.issue_usd to n m) _ =
      discard (Coins.issue_usd-Keeps Q pair dollars me to n m)
  handle-Keeps me (Request.create_nickle n fresh random) _ =
      discard (Coins.create_nickle-Keeps Q pair dollars me n fresh random)
  handle-Keeps me (Request.redeem_nickle token) _ =
      discard (Coins.redeem_nickle-Keeps Q pair dollars me token)
  handle-Keeps me (Request.post_quote side rate n) _ =
      discard (Coins.post_quote-Keeps Q pair dollars me side rate n)
  handle-Keeps me (Request.take_quote id) _ = discard (Coins.take_quote-Keeps Q pair dollars me id)
  handle-Keeps me (Request.cancel_quote id) _ =
      discard (Coins.cancel_quote-Keeps Q pair dollars me id)
  handle-Keeps me (Request.reverse id m) ok = discard (undo me id m ok)
  handle-Keeps me (Request.refund id n m) _ = discard (Coins.refund-Keeps Q pair dollars me id n m)
  handle-Keeps me (Request.set_fulfillment id a r) _ =
      discard (Sales.set_fulfillment-Keeps Q pair me id a r)
  handle-Keeps me (Request.create_listing input) _ =
      discard (Sales.create_listing-Keeps Q pair me input)
  handle-Keeps me (Request.cancel_listing id) _ = discard (Sales.cancel_listing-Keeps Q pair me id)
  handle-Keeps me (Request.purchase id) _ = discard (Sales.buy_listing-Keeps Q pair me id)
  handle-Keeps me (Request.make_offer id n m) _ = discard (Sales.make_offer-Keeps Q pair me id n m)
  handle-Keeps me (Request.accept_offer id) _ = discard (Sales.accept_offer-Keeps Q pair me id)
  handle-Keeps me (Request.decline_offer id) _ = discard (Sales.decline_offer-Keeps Q pair me id)
  handle-Keeps me (Request.withdraw_offer id) _ = discard (Sales.withdraw_offer-Keeps Q pair me id)
  handle-Keeps me (Request.offer_loan i) _ =
      at_now-Keeps (λ t. Credit.offer_loan-Keeps Q pair me i t false)
  handle-Keeps me (Request.request_loan i) _ =
      at_now-Keeps (λ t. Credit.offer_loan-Keeps Q pair me i t true)
  handle-Keeps me (Request.answer_loan id i) _ =
      at_now-Keeps (λ t. Credit.answer_loan-Keeps Q pair me i t id)
  handle-Keeps me (Request.accept_loan id) _ =
      at_now-Keeps (λ t. Credit.accept_loan-Keeps Q pair me id t)
  handle-Keeps me (Request.close_loan id) _ =
      at_now-Keeps (λ t. Credit.close_loan-Keeps Q pair me id t)
  handle-Keeps me (Request.repay_loan id n) _ =
      at_now-Keeps (λ t. Credit.repay_loan-Keeps Q pair me id n t)
  handle-Keeps me (Request.commerce a) _ =
      discard (or_invalid-Keeps (Gifts.command-Keeps Q pair me a))
  handle-Keeps me (Request.wait seconds) _ = Keeps-modify _ (λ s h. h)
  handle-Keeps me Request.go_live _ = Keeps-modify start_live (λ s h. h)

  pub run-Holds :
      (rs : List (User × Request)) (s : Ledger)
      → All (λ (mr : User × Request). Allowed Permitted mr.0 mr.1) rs
      → Holds Q s
      → Holds Q (run rs s)
  unfolding run
  run-Holds [] s a h = h
  run-Holds ((me, r) ∷ rs) s (a, as') h = run-Holds rs _ as' ((handle-Keeps me r a).kept s h)
