-- ===== src/Ledger/Pages.antt =====
-- Members and listings as shown, and the pages of the whole ledger (`view`, `allUsers`,
-- `allListings`, `ledger`, `ledgerPage` of nanacoin_ui/src/app/demo/ledger.ts). Transactions are
-- shown as stored, without the names that `named` adds.
use nanacoin.Prelude.{
  ℕ, ◌+◌, ◌-◌, Bool, true, false, ◌&&◌, ◌||◌, not, if◌then◌else◌, Option, none, some, or_else,
  is_some, List, length, map, keep, take, take_last, reversed, ℤ, neg, ltb, leb, ◌==◌, Text,
  is_empty,
}
use nanacoin.Prelude.Sorting.{sort_by}
use nanacoin.Exec.{Result, ok, err, Fault, Code}
use nanacoin.Model.{
  AccountId, User, Role, UserStatus, Transaction, is_message, Listing, ListingStatus,
}
use nanacoin.Ledger.State.{Ledger, balance_of}
use nanacoin.Ledger.Exchange.{usd_balance}
use nanacoin.Ledger.Views.{ordinal, page_size, last_of}

-- What anybody sees of a member: no password, and balances for members only.
pub record UserView : Type 0 where
  pub id : ℕ
  pub username : Text
  pub display_name : Text
  pub role : Role
  pub status : UserStatus
  pub account : AccountId
  pub created_at : ℕ
  pub bio : Option Text
  pub balance : Option ℤ
  pub usd_cents : Option ℤ

abbrev pub for_member : {A : Type 0} → Option User → A → Option A
for_member none a = none
for_member (some viewer) a = some a

unfoldable pub view : Ledger → User → Option User → UserView
view s u viewer = record {
  id = u.id;
  username = u.username;
  display_name = u.display_name;
  role = u.role;
  status = u.status;
  account = u.account;
  created_at = u.created_at;
  bio = if is_empty u.bio then none else some u.bio;
  balance = for_member viewer (balance_of s u.account);
  usd_cents = for_member viewer (usd_balance s u.account);
}

unfoldable pub all_users : Ledger → Option User → List UserView
unfolding view
all_users s viewer = map (λ u. view s u viewer) s.users

abbrev pub same_status : ListingStatus → ListingStatus → Bool
same_status ListingStatus.active ListingStatus.active = true
same_status ListingStatus.sold ListingStatus.sold = true
same_status ListingStatus.cancelled ListingStatus.cancelled = true
same_status _ _ = false

abbrev pub has_status : Option ListingStatus → Listing → Bool
has_status none l = true
has_status (some st) l = same_status l.status st

abbrev pub newer_listing : Listing → Listing → Bool
newer_listing a b = ltb b.created_at a.created_at

unfoldable pub all_listings : Ledger → Option ListingStatus → List Listing
all_listings s st = sort_by newer_listing (keep (has_status st) s.listings)

abbrev pub circulation : Ledger → ℤ
circulation s = neg (balance_of s AccountId.system_issuance)

-- `ledger(limit)`: the last transactions that are no messages, and what circulates.
unfoldable pub public_ledger : Ledger → ℕ → List Transaction × ℤ
public_ledger s limit = (
  reversed (take_last limit (keep (λ (t : Transaction). not (is_message t.kind)) s.transactions)),
  circulation s,
)

-- `${epoch}:${upper}:${before}:${page}`
pub record LedgerCursor : Type 0 where
  pub epoch : ℕ
  pub upper : ℕ
  pub before : ℕ
  pub page : ℕ

pub record LedgerPage : Type 0 where
  pub transactions : List Transaction
  pub circulation : ℤ
  pub snapshot_upper : ℕ
  pub state_sequence : ℕ
  pub next_cursor : Option LedgerCursor

abbrev pub first_cursor : Ledger → LedgerCursor
first_cursor s = record {
  epoch = s.money_epoch;
  upper = s.next_txn - 1;
  before = s.next_txn;
  page = 0;
}

abbrev pub is_listed : LedgerCursor → Transaction → Bool
is_listed c t = not (is_message t.kind) && (leb (ordinal t) c.upper && ltb (ordinal t) c.before)

abbrev pub is_stale : Ledger → LedgerCursor → Bool
is_stale s c = not (c.epoch == s.money_epoch) || (ltb c.before 1 || leb s.next_txn c.upper)

abbrev pub cursor_after : LedgerCursor → List Transaction → List Transaction → Option LedgerCursor
cursor_after c rows page = elim (last_of page) [
  | none ↦ none
  | some t ↦
      if ltb (length page) (length rows)
      then some (record c { before = ordinal t; page = c.page + 1 })
      else none
]

-- `ledgerPage(limit, cursor)` at a cursor; a limit that is no number is refused.
unfoldable pub ledger_page_at : Ledger → Option ℕ → LedgerCursor → Result LedgerPage
ledger_page_at s limit c =
    if is_stale s c || not (is_some limit)
    then err (Fault.demo 409 Code.stale_request)
    else (let rows = reversed (keep (is_listed c) s.transactions) in
        let page = take (page_size limit) rows in
        ok (record {
          transactions = page;
          circulation = circulation s;
          snapshot_upper = c.upper;
          state_sequence = s.revision;
          next_cursor = cursor_after c rows page;
        }))

unfoldable pub ledger_page : Ledger → Option ℕ → Option LedgerCursor → Result LedgerPage
unfolding ledger_page_at
ledger_page s limit cursor = ledger_page_at s limit (or_else cursor (first_cursor s))
