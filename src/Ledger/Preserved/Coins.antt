-- ===== src/Ledger/Preserved/Coins.antt =====
-- The guards, and the methods that move coins and dollars.
use nanacoin.Prelude.{ℕ, ◌≡◌, refl, Bool, true, false, Option, none, some, List, [], ◌∷◌, ℤ, Text}
use nanacoin.Exec.{modify}
use nanacoin.Exec.Keeps.{Keeps, Keeps-modify, keeps_rules}
use nanacoin.Model.{
  TransactionKind, TransactionId, Actor, Memo, Reference, Posting, AccountId, User, QuoteSide,
  is_usd,
}
use nanacoin.Ledger.State.{Ledger, now}
use nanacoin.Ledger.Delivery.{Options}
use nanacoin.Ledger.Append.{append}
use nanacoin.Ledger.Core.{Core, core, Holds, now-Keeps}
use nanacoin.Ledger.Guards.{require_nana, require_active, require_amount, require_user_account}
use nanacoin.Ledger.Transfers.{Economic, economic_options, require_payable, transfer, issue, retire}
use nanacoin.Ledger.Nickles.{create_nickle, redeem_nickle}
use nanacoin.Ledger.Exchange.{
  add_usd, push_usd, usd_transaction, dollar_postings, issue_usd, post_quote, take_quote,
  cancel_quote,
}
use nanacoin.Ledger.Refunds.{refund}

module _ (Q : Core → Type 0)
    (pair : (k : TransactionKind) (a : Actor) (m : Memo) (p q : Posting) (opts : Options)
      → opts.allow_overdraft ≡ false
      → Keeps (Holds Q) (append k a m (p ∷ q ∷ []) opts))
    (dollars : (s : Ledger) (k : TransactionKind) (at : ℕ) (a : Actor) (m : Memo)
        (r : Option Reference) (from to : AccountId) (n l : Text) (cents : ℤ)
      → is_usd from ≡ true
      → is_usd to ≡ true
      → Keeps (Holds Q) (
          modify
            (push_usd (usd_transaction s k at a m r (dollar_postings from n to l cents))))) where
  require_amount-Keeps : (n : ℤ) → Keeps (Holds Q) (require_amount n)
  unfolding require_amount
  require_amount-Keeps n = search keeps_rules

  clock-Keeps : Keeps (Holds Q) now
  clock-Keeps = now-Keeps Q

  require_nana-Keeps : (u : User) → Keeps (Holds Q) (require_nana u)
  unfolding require_nana
  require_nana-Keeps u = search keeps_rules

  require_active-Keeps : (u : User) → Keeps (Holds Q) (require_active u)
  unfolding require_active
  require_active-Keeps u = search keeps_rules

  require_user_account-Keeps : (a : AccountId) → Keeps (Holds Q) (require_user_account a)
  unfolding require_user_account
  require_user_account-Keeps a = search keeps_rules

  require_payable-Keeps : (n : ℤ) (m : Text) → Keeps (Holds Q) (require_payable n m)
  unfolding require_payable
  require_payable-Keeps n m = search (keeps_rules, require_amount-Keeps)

  ruleset guard_rules = (
    keeps_rules, require_amount-Keeps, require_nana-Keeps, require_active-Keeps,
    require_user_account-Keeps, require_payable-Keeps,
  )

  economic_options-allow_overdraft :
      (e : Option Economic) → (economic_options e).allow_overdraft ≡ false
  economic_options-allow_overdraft none = refl
  economic_options-allow_overdraft (some e) = refl

  pub transfer-Keeps :
      (u : User) (to : AccountId) (n : ℤ) (m : Text) (e : Option Economic)
      → Keeps (Holds Q) (transfer u to n m e)
  unfolding transfer
  transfer-Keeps u to n m e = search (guard_rules, pair, economic_options-allow_overdraft) depth 20

  pub issue-Keeps :
      (u : User) (to : AccountId) (n : ℤ) (m : Text) → Keeps (Holds Q) (issue u to n m)
  unfolding issue
  issue-Keeps u to n m = search (guard_rules, pair) depth 20

  pub retire-Keeps :
      (u : User) (from : AccountId) (n : ℤ) (m : Text) → Keeps (Holds Q) (retire u from n m)
  unfolding retire
  retire-Keeps u from n m = search (guard_rules, pair) depth 20

  pub create_nickle-Keeps :
      (u : User) (n : ℤ) (fresh : Bool) (r : List ℕ) → Keeps (Holds Q) (create_nickle u n fresh r)
  unfolding create_nickle core
  create_nickle-Keeps u n fresh r = search (guard_rules, pair, Keeps-modify) depth 20

  pub redeem_nickle-Keeps : (u : User) (token : Text) → Keeps (Holds Q) (redeem_nickle u token)
  unfolding redeem_nickle core
  redeem_nickle-Keeps u token = search (guard_rules, pair, Keeps-modify) depth 20

  add_usd-Keeps : (a : AccountId) (n : ℤ) → Keeps (Holds Q) (modify (add_usd a n))
  unfolding add_usd core
  add_usd-Keeps a n = Keeps-modify _ (λ s h. h)

  pub issue_usd-Keeps :
      (u : User) (to : AccountId) (n : ℤ) (m : Text) → Keeps (Holds Q) (issue_usd u to n m)
  unfolding issue_usd core
  issue_usd-Keeps u to n m =
      search (guard_rules, clock-Keeps, dollars, add_usd-Keeps, Keeps-modify) depth 20

  pub post_quote-Keeps :
      (u : User) (side : QuoteSide) (rate coins : ℤ)
      → Keeps (Holds Q) (post_quote u side rate coins)
  unfolding post_quote core
  post_quote-Keeps u side rate coins = search (guard_rules, clock-Keeps, Keeps-modify) depth 20

  pub take_quote-Keeps : (u : User) (id : ℕ) → Keeps (Holds Q) (take_quote u id)
  unfolding take_quote core
  take_quote-Keeps u id = search (guard_rules, pair, dollars, add_usd-Keeps, Keeps-modify) depth 20

  pub cancel_quote-Keeps : (u : User) (id : ℕ) → Keeps (Holds Q) (cancel_quote u id)
  unfolding cancel_quote core
  cancel_quote-Keeps u id = search (guard_rules, clock-Keeps, Keeps-modify) depth 20

  pub refund-Keeps :
      (u : User) (id : TransactionId) (n : ℤ) (m : Text) → Keeps (Holds Q) (refund u id n m)
  unfolding refund
  refund-Keeps u id n m = search (guard_rules, pair) depth 24
