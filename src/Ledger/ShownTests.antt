-- ===== src/Ledger/ShownTests.antt =====
-- The theorems on the views at a concrete ledger.
use nanacoin.Prelude.{
  ◌≡◌, ◌≤◌, ◌↔◌, refl, none, some, List, [], ◌∷◌, length, pos, codes, sum_by, to_lower, trim, ◌+ℤ◌,
  neg, ◌*ℕ◌,
}
use nanacoin.Prelude.Sorting.{Sorted, sort_by}
use nanacoin.Exec.{Result, ok, err, ◌>>=◌}
use nanacoin.Model.{Listing, ListingStatus, AccountId, Offer, User}
use nanacoin.Ledger.State.{
  Ledger, balance_of, now, tick, time_of, user_by_account, user_by_name, user_by_id, sum_amounts,
  balance_in, effect, current_postings, display_name_of,
}
use nanacoin.Ledger.Delivery.{recorded, earlier, start_delivery, close_delivery}
use nanacoin.Ledger.Append.{append, commit, push, note_refund, note_gift, note_cash, cash_changed}
use nanacoin.Ledger.Guards.{require_active, require_amount, require_nana, require_user_account}
use nanacoin.Ledger.Market.{create_listing, listing_by_id}
use nanacoin.Ledger.Offers.{make_offer}
use nanacoin.Ledger.Members.{add_user, provision}
use nanacoin.Ledger.Transfers.{issue}
use nanacoin.Ledger.Requests.{Request, run, handle, add_member}
use nanacoin.Ledger.Pages.{all_listings}
use nanacoin.Ledger.Views.{HistoryPage, start_cursor, history_at, outstanding_offers}
use nanacoin.Ledger.Seen.{AreViews, outstanding_offers-AreViews}
use nanacoin.Ledger.Catalog.{HasStatus, all_listings-exact}
use nanacoin.Prelude.Members.{In}
use nanacoin.Ledger.Tests.{ann, nana, opened}

-- Ann offers 25 coins for the bread.
abbrev offered : Ledger
offered = run ((ann, Request.make_offer 4 (pos 25) (codes "please")) ∷ []) opened

abbrev value_or : {A : Type 0} → Result A → A → A
value_or (ok a) d = a
value_or (err e) d = d

abbrev shown_to_nana : List Offer
shown_to_nana = value_or (outstanding_offers offered nana 2) []

shown_ok : outstanding_offers offered nana 2 ≡ ok shown_to_nana
unfolding run handle ◌>>=◌ add_member provision add_user issue create_listing require_active
    require_amount require_nana require_user_account now tick time_of user_by_account user_by_name
    to_lower trim append commit push recorded earlier start_delivery close_delivery note_refund
    note_gift note_cash cash_changed sum_amounts balance_of balance_in effect current_postings
    sum_by listing_by_id display_name_of ◌+ℤ◌ neg ◌*ℕ◌ make_offer outstanding_offers user_by_id
    sort_by history_at
shown_ok = refl

shown_one : length shown_to_nana ≡ 1
unfolding run handle ◌>>=◌ add_member provision add_user issue create_listing require_active
    require_amount require_nana require_user_account now tick time_of user_by_account user_by_name
    to_lower trim append commit push recorded earlier start_delivery close_delivery note_refund
    note_gift note_cash cash_changed sum_amounts balance_of balance_in effect current_postings
    sum_by listing_by_id display_name_of ◌+ℤ◌ neg ◌*ℕ◌ make_offer outstanding_offers user_by_id
    sort_by history_at
shown_one = refl

outstanding_offers-AreViews_example :
    (subject : User) × (user_by_id offered 2 ≡ some subject)
    × AreViews offered nana subject shown_to_nana
outstanding_offers-AreViews_example =
    outstanding_offers-AreViews offered nana 2 shown_to_nana shown_ok

abbrev empty_page : HistoryPage
empty_page = record { balance = pos 0; transactions = []; next_cursor = none }

abbrev ann_page : HistoryPage
ann_page = value_or (history_at opened (AccountId.member 2) none (start_cursor opened)) empty_page

all_listings-exact_example :
    Sorted
      (λ (a b : Listing). b.created_at ≤ a.created_at)
      (all_listings opened (some ListingStatus.active))
    × ((l : Listing)
        → In l (all_listings opened (some ListingStatus.active))
          ↔ (In l opened.listings × HasStatus (some ListingStatus.active) l))
all_listings-exact_example = all_listings-exact opened (some ListingStatus.active)
