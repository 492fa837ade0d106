-- ===== src/Ledger/Views.antt =====
-- What the ledger shows (`status`, `history`, `allQuotes`, `offersFor`,
-- `outstandingOffers` of nanacoin_ui/src/app/demo/ledger.ts). Postings are shown as
-- stored, without the names that `named` adds.
use nanacoin.Prelude.{
  ℕ, ◌-◌, min, max, Bool, true, false, ◌&&◌, ◌||◌, not, if◌then◌else◌, Option, none, some, or_else,
  List, [], ◌∷◌, length, map, keep, any, take, reversed, ℤ, neg, ltb_ℤ, ltb, leb, ◌==◌, Text,
}
use nanacoin.Prelude.Sorting.{sort_by}
use nanacoin.Exec.{Result, ok, err, Fault, Code}
use nanacoin.Model.{
  AccountId, same_account, User, is_nana, Transaction, TransactionId, Posting, Listing,
  is_open_listing, Offer, is_open_offer, Quote, is_ask,
}
use nanacoin.Ledger.State.{Ledger, balance_of, balanced, user_by_id}

-- The part of `Status` that the ledger computes.
pub record StatusView : Type 0 where
  pub decimals : ℕ
  pub money_epoch : ℕ
  pub sequence : ℕ
  pub provisioned : Bool
  pub household : Text
  pub users : ℕ
  pub transactions : ℕ
  pub active_listings : ℕ
  pub circulation : ℤ
  pub ledger_balanced : Bool

unfoldable pub status : Ledger → StatusView
status s = record {
  decimals = s.decimals;
  money_epoch = s.money_epoch;
  sequence = s.revision;
  provisioned = s.provisioned;
  household = s.household;
  users = length s.users;
  transactions = length s.transactions;
  active_listings = length (keep (λ (l : Listing). is_open_listing l.status) s.listings);
  circulation = neg (balance_of s AccountId.system_issuance);
  ledger_balanced = balanced s;
}

-- The number behind the last dash of an id.
abbrev pub ordinal : Transaction → ℕ
ordinal t = elim t.id [ TransactionId.txn n ↦ n | TransactionId.usd_txn n ↦ n ]

-- `${epoch}:${upper}:${before}`
pub record Cursor : Type 0 where
  pub epoch : ℕ
  pub upper : ℕ
  pub before : ℕ

abbrev pub start_cursor : Ledger → Cursor
start_cursor s = record { epoch = s.money_epoch; upper = s.next_txn - 1; before = s.next_txn }

abbrev pub touches : AccountId → Transaction → Bool
touches a t =
    any (λ (p : Posting). same_account p.account a || same_account p.account (AccountId.usd a))
      t.postings

-- Whether a page from the cursor on shows a transaction.
abbrev pub is_shown : AccountId → Cursor → Transaction → Bool
is_shown a c t = leb (ordinal t) c.upper && (ltb (ordinal t) c.before && touches a t)

pub record HistoryPage : Type 0 where
  pub balance : ℤ
  pub transactions : List Transaction
  pub next_cursor : Option Cursor

abbrev pub page_size : Option ℕ → ℕ
page_size limit = max 1 (min 100 (or_else limit 50))

-- The last of a page, where one is shown at all.
abbrev pub last_of : List Transaction → Option Transaction
last_of [] = none
last_of (t ∷ ts) = some (or_else (last_of ts) t)

abbrev pub next_of : Cursor → List Transaction → List Transaction → Option Cursor
next_of c rows page = elim (last_of page) [
  | none ↦ none
  | some t ↦
      if ltb (length page) (length rows) then some (record c { before = ordinal t }) else none
]

-- A cursor of another epoch, or of a ledger that is longer than this one, is stale.
unfoldable pub history_at : Ledger → AccountId → Option ℕ → Cursor → Result HistoryPage
history_at s a limit c =
    if not (c.epoch == s.money_epoch) || leb s.next_txn c.upper
    then err (Fault.demo 409 Code.stale_request)
    else (let rows = reversed (keep (is_shown a c) s.transactions) in
        let page = take (page_size limit) rows in
        ok (record {
          balance = balance_of s a;
          transactions = page;
          next_cursor = next_of c rows page;
        }))

-- `history(account, limit, cursor)`; a limit that is no number is absent.
unfoldable pub history : Ledger → AccountId → Option ℕ → Option Cursor → Result HistoryPage
unfolding history_at
history s a limit cursor = history_at s a limit (or_else cursor (start_cursor s))

-- Asks before bids, cheap asks and dear bids first.
abbrev pub quote_before : Quote → Quote → Bool
quote_before a b =
    if is_ask a.side
    then (if is_ask b.side then ltb_ℤ a.cents_per_coin b.cents_per_coin else true)
    else if is_ask b.side
    then false
    else ltb_ℤ b.cents_per_coin a.cents_per_coin

unfoldable pub all_quotes : Ledger → List Quote
all_quotes s = sort_by quote_before s.quotes

-- Newest first.
abbrev pub newer_offer : Offer → Offer → Bool
newer_offer a b = ltb b.created_at a.created_at

abbrev pub owns_listing : Ledger → AccountId → ℕ → Bool
owns_listing s a id = any (λ (l : Listing). l.id == id && same_account l.seller a) s.listings

abbrev pub is_open_id : Ledger → ℕ → Bool
is_open_id s id = any (λ (l : Listing). l.id == id && is_open_listing l.status) s.listings

unfoldable pub offers_for : Ledger → User → List Offer
offers_for s u = sort_by newer_offer (
    keep (λ (o : Offer). same_account o.offerer u.account || owns_listing s u.account o.listing)
      s.offers)

-- Who may read the note of an offer: Nana, the offerer, and the listing's owner.
abbrev pub may_read : Ledger → User → Offer → Bool
may_read s viewer o =
    is_nana viewer.role
    || (same_account o.offerer viewer.account || owns_listing s viewer.account o.listing)

abbrev pub shown_offer : Ledger → User → Offer → Offer
shown_offer s viewer o = if may_read s viewer o then o else record o { message = [] }

abbrev pub is_outstanding : Ledger → User → Offer → Bool
is_outstanding s subject o =
    same_account o.offerer subject.account && (is_open_offer o.status && is_open_id s o.listing)

abbrev pub outstanding_of : Ledger → User → User → List Offer
outstanding_of s viewer subject =
    sort_by newer_offer (map (shown_offer s viewer) (keep (is_outstanding s subject) s.offers))

abbrev pub outstanding_in : Ledger → User → Option User → Result (List Offer)
outstanding_in s viewer none = err (Fault.demo 404 Code.not_found)
outstanding_in s viewer (some subject) = ok (outstanding_of s viewer subject)

unfoldable pub outstanding_offers : Ledger → User → ℕ → Result (List Offer)
outstanding_offers s viewer id = outstanding_in s viewer (user_by_id s id)
