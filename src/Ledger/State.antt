-- ===== src/Ledger/State.antt =====
-- The fields of `class DemoLedger`, its clock, and what it reads off its transactions.
use nanacoin.Prelude.{
  ℕ, ◌+◌, ◌^◌, max, Bool, true, false, if◌then◌else◌, Option, none, some, or_else, List, map, find,
  get_or, keep, ℤ, pos, ◌*ℕ◌, ltb_ℤ, eqb_ℤ, sum_by, Text, same_text, to_lower, ◌==◌,
}
use nanacoin.Prelude.Maps.{Dict, lookup}
use nanacoin.Exec.{Exec, ok}
use nanacoin.Model.{
  AccountId, same_account, is_usd, User, Transaction, TransactionId, same_txn, Posting, Listing,
  Offer, Quote, Voucher, LendingState, Draw, CommerceState,
}

-- `wall_clock` stands for `Date.now()` in seconds. `usd_balances`, `nickles` (by the digest of the
-- token) and `refund_amounts` are the `Map`s of the source.
pub record Ledger : Type 0 where
  pub decimals : ℕ
  pub money_epoch : ℕ
  pub revision : ℕ
  pub live_clock : Bool
  pub clock : ℕ
  pub wall_clock : ℕ
  pub epoch_exponents : List ℕ
  pub users : List User
  pub listings : List Listing
  pub offers : List Offer
  pub quotes : List Quote
  pub transactions : List Transaction
  pub usd_balances : Dict AccountId ℤ
  pub next_txn : ℕ
  pub next_id : ℕ
  pub nickles : Dict Text Voucher
  pub next_nickle : ℕ
  pub refund_amounts : Dict TransactionId ℤ
  pub household : Text
  pub provisioned : Bool
  pub commerce : CommerceState
  pub lotto : List Draw
  pub lending : LendingState

-- `amount * 10 ** exponent`. The exponents of the model are never negative (`Ledger.Reform`), and
-- products of numbers that the reforms have bounded are exact.
abbrev pub scale_amount : ℕ → ℤ → ℤ
scale_amount e amount = amount *ℕ (10 ^ e)

-- `this.epochExponents[t.money_epoch ?? 0]`
abbrev pub exponent_of : List ℕ → Transaction → ℕ
exponent_of exponents t = get_or exponents (or_else t.money_epoch 0) 0

abbrev pub current_posting : ℕ → Posting → Posting
current_posting e p = if is_usd p.account then p else record p { amount = scale_amount e p.amount }

-- `currentPostings(t)`: a transaction's postings in today's units.
unfoldable pub current_postings : List ℕ → Transaction → List Posting
current_postings exponents t = map (current_posting (exponent_of exponents t)) t.postings

abbrev pub amount_at : AccountId → Posting → ℤ
amount_at a p = if same_account p.account a then p.amount else pos 0

-- What a transaction adds to an account, in today's units.
unfoldable pub effect : List ℕ → AccountId → Transaction → ℤ
unfolding current_postings
effect exponents a t = sum_by (amount_at a) (current_postings exponents t)

unfoldable pub balance_in : List ℕ → List Transaction → AccountId → ℤ
unfolding sum_by
balance_in exponents ts a = sum_by (effect exponents a) ts

-- `balanceOf(account)`
unfoldable pub balance_of : Ledger → AccountId → ℤ
balance_of s a = balance_in s.epoch_exponents s.transactions a

abbrev pub posting_amount : Posting → ℤ
posting_amount p = p.amount

unfoldable pub sum_amounts : List Posting → ℤ
unfolding sum_by
sum_amounts = sum_by posting_amount

-- `balanced()`
unfoldable pub balanced : Ledger → Bool
unfolding sum_by sum_amounts
balanced s = eqb_ℤ (sum_by (λ (t : Transaction). sum_amounts t.postings) s.transactions) (pos 0)

abbrev positive_part : Posting → ℤ
positive_part p = if ltb_ℤ p.amount (pos 0) then pos 0 else p.amount

-- `originalAmount(t)`: what changed hands, in the units of the day.
unfoldable pub original_amount : Transaction → ℤ
unfolding sum_by
original_amount t = sum_by positive_part t.postings

abbrev pub reverses_txn : TransactionId → Transaction → Bool
reverses_txn id t = elim t.reverses [ none ↦ false | some r ↦ same_txn r id ]

-- `refunded(t)`: what the reversals of a transaction have given back.
unfoldable pub refunded : Ledger → TransactionId → ℤ
unfolding sum_by
refunded s id =
    sum_by (λ (r : Transaction). or_else (lookup same_txn r.id s.refund_amounts) (pos 0))
      (keep (reverses_txn id) s.transactions)

abbrev pub has_id : TransactionId → Transaction → Bool
has_id id t = same_txn t.id id

unfoldable pub find_transaction : Ledger → TransactionId → Option Transaction
find_transaction s id = find (has_id id) s.transactions

-- `userById`, `userByName`, `userByAccount`
unfoldable pub user_by_id : Ledger → ℕ → Option User
user_by_id s id = find (λ (u : User). u.id == id) s.users

unfoldable pub user_by_name : Ledger → Text → Option User
user_by_name s username =
    find (λ (u : User). same_text (to_lower u.username) (to_lower username)) s.users

unfoldable pub user_by_account : Ledger → AccountId → Option User
user_by_account s account = find (λ (u : User). same_account u.account account) s.users

-- `this.userByAccount(account)?.display_name`
unfoldable pub display_name_of : Ledger → AccountId → Option Text
unfolding user_by_account
display_name_of s account = elim (user_by_account s account) [
  | none ↦ none
  | some u ↦ some u.display_name
]

-- `now()`: the wall clock once live, else the next tick of the ledger's own clock.
unfoldable pub time_of : Ledger → ℕ
time_of s = if s.live_clock then s.wall_clock else s.clock + 1

unfoldable pub tick : Ledger → Ledger
tick s = if s.live_clock then s else record s { clock = s.clock + 1 }

unfoldable pub now : Exec Ledger ℕ
unfolding time_of tick
now s = (ok (time_of s), tick s)

-- `advance(seconds)` and `advanceTo(unixSeconds)`
unfoldable pub advance : ℕ → Ledger → Ledger
advance seconds s = record s { clock = s.clock + seconds }

unfoldable pub advance_to : ℕ → Ledger → Ledger
advance_to seconds s = record s { clock = max s.clock seconds }

-- `startLive()`
unfoldable pub start_live : Ledger → Ledger
start_live s = record s { live_clock = true }
