-- ===== src/Ledger/Tests.antt =====
-- Runs of the ledger at concrete requests, at which the theorems of the ledger are applied.
use nanacoin.Prelude.{ℕ, ◌≡◌, refl, true, false, none, List, [], ◌∷◌, ◌++◌, pos, codes, ◌≤ℤ◌, ◌⊎◌}
use nanacoin.Prelude.{sum_by, to_lower, trim, ◌+ℤ◌, neg, ◌*ℕ◌}
use nanacoin.Exec.{◌>>=◌}
use nanacoin.Ledger.State.{
  now, tick, time_of, user_by_account, user_by_name, sum_amounts, balance_in, effect,
  current_postings, display_name_of,
}
use nanacoin.Ledger.Delivery.{recorded, earlier, start_delivery, close_delivery}
use nanacoin.Ledger.Append.{append, commit, push, note_refund, note_gift, note_cash, cash_changed}
use nanacoin.Ledger.Guards.{require_active, require_amount, require_nana, require_user_account}
use nanacoin.Ledger.Transfers.{require_payable}
use nanacoin.Ledger.Market.{create_listing, listing_by_id, update_listing}
use nanacoin.Ledger.Members.{add_user, provision}
use nanacoin.Ledger.Requests.{handle, add_member}
use nanacoin.Exec.Atomic.{IsRefused}
use nanacoin.Model.{User, Role, UserStatus, AccountId, Transaction}
use nanacoin.Ledger.State.{Ledger, balanced, balance_of}
use nanacoin.Ledger.Market.{ListingInput, buy_listing}
use nanacoin.Ledger.Transfers.{transfer, issue, retire}
use nanacoin.Ledger.Requests.{Request, run, initial}
use nanacoin.Ledger.Book.{book}
use nanacoin.Ledger.Balances.{IsCurrent}
use nanacoin.Ledger.Balanced.{run-balanced}
use nanacoin.Ledger.Solvent.{run-solvent}
use nanacoin.Ledger.History.{run-appends}
use nanacoin.Ledger.Moves.{IsPaid, transfer-pays, issue-pays, retire-pays}
use nanacoin.Ledger.Sold.{IsPurchase, buy_listing-sells}

abbrev member : ℕ → Role → User
member id role = record {
  id = id;
  username = codes "member";
  display_name = codes "Member";
  role = role;
  status = UserStatus.active;
  account = AccountId.member id;
  created_at = 1;
  bio = [];
  password = codes "secret";
}

abbrev pub nana : User
nana = member 1 Role.nana

abbrev pub ann : User
ann = member 2 Role.user

abbrev ben : User
ben = member 3 Role.user

abbrev bread : ListingInput
bread = record {
  title = codes "Bread";
  description = [];
  price = pos 30;
  side = none;
  kind = none;
  currency = none;
  minor_units = none;
  economic_kind = none;
  thing = none;
  quantity_milli = none;
  unit = none;
  standard = none;
}

-- Nana, Ann and Ben join, Ann gets 100 coins, Ben offers bread.
abbrev opening : List (User × Request)
opening =
    (nana, Request.provision (codes "nana") (codes "Nana") (codes "secret") (codes "Home"))
    ∷ (nana, Request.add_user (codes "ann") (codes "Ann") (codes "secret") false)
    ∷ (nana, Request.add_user (codes "ben") (codes "Ben") (codes "secret") false)
    ∷ (nana, Request.issue (AccountId.member 2) (pos 100) (codes "allowance"))
    ∷ (ben, Request.create_listing bread)
    ∷ []

abbrev pub opened : Ledger
opened = run opening (initial 40000000)

-- Ann pays Ben 40 coins, and a day later buys the bread.
abbrev pub trading : List (User × Request)
trading =
    (ann, Request.transfer (AccountId.member 3) (pos 40) (codes "thanks") none)
    ∷ (ann, Request.wait 86400)
    ∷ (ann, Request.purchase 4)
    ∷ []

opened_balance : balance_of opened (AccountId.member 2) ≡ pos 100
unfolding run handle ◌>>=◌ add_member provision add_user issue create_listing transfer buy_listing
    require_active require_amount require_nana require_user_account now tick time_of user_by_account
    user_by_name to_lower trim append commit push recorded earlier start_delivery close_delivery
    note_refund note_gift note_cash cash_changed sum_amounts balance_of balance_in effect
    current_postings sum_by listing_by_id update_listing require_payable display_name_of ◌+ℤ◌ neg
    ◌*ℕ◌ balanced book
opened_balance = refl

traded_balance : balance_of (run trading opened) (AccountId.member 3) ≡ pos 70
unfolding run handle ◌>>=◌ add_member provision add_user issue create_listing transfer buy_listing
    require_active require_amount require_nana require_user_account now tick time_of user_by_account
    user_by_name to_lower trim append commit push recorded earlier start_delivery close_delivery
    note_refund note_gift note_cash cash_changed sum_amounts balance_of balance_in effect
    current_postings sum_by listing_by_id update_listing require_payable display_name_of ◌+ℤ◌ neg
    ◌*ℕ◌ balanced book
traded_balance = refl

-- Nana adds Cy, who gets 20 coins of 10000 units, without a password of his own.
granted_balance :
    balance_of
      (run ((nana, Request.add_user (codes "cy") (codes "Cy") [] true) ∷ []) opened)
      (AccountId.member 5)
    ≡ pos 200000
unfolding run handle ◌>>=◌ add_member provision add_user issue create_listing transfer buy_listing
    require_active require_amount require_nana require_user_account now tick time_of user_by_account
    user_by_name to_lower trim append commit push recorded earlier start_delivery close_delivery
    note_refund note_gift note_cash cash_changed sum_amounts balance_of balance_in effect
    current_postings sum_by listing_by_id update_listing require_payable display_name_of ◌+ℤ◌ neg
    ◌*ℕ◌ balanced book
granted_balance = refl

pub opened-IsCurrent : IsCurrent opened
unfolding run handle ◌>>=◌ add_member provision add_user issue create_listing transfer buy_listing
    require_active require_amount require_nana require_user_account now tick time_of user_by_account
    user_by_name to_lower trim append commit push recorded earlier start_delivery close_delivery
    note_refund note_gift note_cash cash_changed sum_amounts balance_of balance_in effect
    current_postings sum_by listing_by_id update_listing require_payable display_name_of ◌+ℤ◌ neg
    ◌*ℕ◌ balanced book
opened-IsCurrent = record { exponent = refl }

run-balanced_example : balanced (run (opening ++ trading) (initial 40000000)) ≡ true
run-balanced_example = run-balanced 40000000 (opening ++ trading)

run-solvent_example :
    pos 0 ≤ℤ balance_of (run (opening ++ trading) (initial 40000000)) (AccountId.member 2)
run-solvent_example =
    run-solvent 40000000 (opening ++ trading) (tt, (tt, (tt, (tt, (tt, (tt, (tt, (tt, tt))))))))
      (AccountId.member 2) (refl, (λ e. cc))

run-appends_example : (ts : List Transaction) × (book (run trading opened) ≡ book opened ++ ts)
run-appends_example = run-appends opened trading

transfer-pays_example :
    IsRefused opened (transfer ann (AccountId.member 3) (pos 40) (codes "thanks") none opened)
    ⊎ IsPaid
        (AccountId.member 2)
        (AccountId.member 3)
        (pos 40)
        opened
        (transfer ann (AccountId.member 3) (pos 40) (codes "thanks") none opened)
transfer-pays_example =
    transfer-pays opened opened-IsCurrent ann (AccountId.member 3) (pos 40) (codes "thanks") none

issue-pays_example :
    IsRefused opened (issue nana (AccountId.member 3) (pos 5) (codes "gift") opened)
    ⊎ IsPaid AccountId.system_issuance
        (AccountId.member 3)
        (pos 5)
        opened
        (issue nana (AccountId.member 3) (pos 5) (codes "gift") opened)
issue-pays_example =
    issue-pays opened opened-IsCurrent nana (AccountId.member 3) (pos 5) (codes "gift")

retire-pays_example :
    IsRefused opened (retire nana (AccountId.member 2) (pos 5) (codes "fee") opened)
    ⊎ IsPaid
        (AccountId.member 2)
        AccountId.system_issuance
        (pos 5)
        opened
        (retire nana (AccountId.member 2) (pos 5) (codes "fee") opened)
retire-pays_example =
    retire-pays opened opened-IsCurrent nana (AccountId.member 2) (pos 5) (codes "fee")

buy_listing-sells_example :
    IsRefused opened (buy_listing ann 4 opened) ⊎ IsPurchase ann 4 opened (buy_listing ann 4 opened)
buy_listing-sells_example = buy_listing-sells ann 4 opened opened-IsCurrent
