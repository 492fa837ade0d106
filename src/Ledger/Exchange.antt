-- ===== src/Ledger/Exchange.antt =====
-- Dollars and exchange rates (`issueUSD`, `postQuote`, `takeQuote`, `cancelQuote`).
use nanacoin.Prelude.{
  ℕ, ◌+◌, ◌*◌, ◌/◌, ◌%◌, ◌^◌, Bool, true, false, ◌&&◌, ◌||◌, not, if◌then◌else◌, Option, none, some,
  or_else, List, [], ◌∷◌, ◌++◌, find, update, ℤ, pos, pos_part, neg, ◌+ℤ◌, ltb_ℤ, ltb, leb, ◌==◌,
  Text, codes,
}
use nanacoin.Prelude.Maps.{lookup, insert}
use nanacoin.Exec.{Exec, Fault, Code, pure, lift, gets, throw_if, modify, or_raise, ◌>>=◌, ◌>>◌}
use nanacoin.Model.{
  AccountId, same_account, User, Actor, is_nana, Transaction, TransactionId, TransactionKind,
  Posting, Memo, Reference, Quote, QuoteSide, QuoteStatus, is_open_quote, is_ask,
}
use nanacoin.Ledger.State.{Ledger, balance_of, display_name_of, now}
use nanacoin.Ledger.Delivery.{no_options}
use nanacoin.Ledger.Append.{append}
use nanacoin.Money.{max_money}
use nanacoin.Ledger.Guards.{require_active, require_nana, require_amount, require_user_account}
use nanacoin.Ledger.Transfers.{two_postings}

-- `this.usdBalances.get(a) ?? 0`
unfoldable pub usd_balance : Ledger → AccountId → ℤ
usd_balance s a = or_else (lookup same_account a s.usd_balances) (pos 0)

-- `this.usdBalances.set(a, (this.usdBalances.get(a) ?? 0) + cents)`
unfoldable pub add_usd : AccountId → ℤ → Ledger → Ledger
unfolding usd_balance
add_usd a cents s = record s {
  usd_balances = insert same_account a (usd_balance s a +ℤ cents) s.usd_balances;
}

-- A dollar transaction. It carries no money epoch, since dollars are never reformed.
abbrev pub usd_transaction :
    Ledger → TransactionKind → ℕ → Actor → Memo → Option Reference → List Posting → Transaction
usd_transaction s kind at actor description reference postings = record {
  id = TransactionId.usd_txn s.next_txn;
  kind = kind;
  created_at = at;
  actor = actor;
  description = description;
  reference = reference;
  reverses = none;
  economic_kind = none;
  thing = none;
  thing_name = none;
  quantity_milli = none;
  unit = none;
  postings = postings;
  money_epoch = none;
  decimals = none;
  gift_request = none;
  art = none;
  fulfillment = none;
}

abbrev pub dollar_postings : AccountId → Text → AccountId → Text → ℤ → List Posting
dollar_postings from from_name to to_name cents =
    record { account = from; name = from_name; amount = neg cents }
    ∷ record { account = to; name = to_name; amount = cents }
    ∷ []

-- `this.nextTxn++` and `this.transactions.push(transaction)`
unfoldable pub push_usd : Transaction → Ledger → Ledger
push_usd t s = record s { next_txn = s.next_txn + 1; transactions = s.transactions ++ t ∷ [] }

-- The guard before the use has found the owner, so the text for a missing name is never used.
abbrev pub shown_name : Ledger → AccountId → Text
shown_name s a = or_else (display_name_of s a) []

unfoldable pub issue_usd : User → AccountId → ℤ → Text → Exec Ledger Transaction
unfolding ◌>>=◌
issue_usd actor to cents reason = do
  require_active actor
  require_nana actor
  require_amount cents
  require_user_account to
  modify (add_usd to cents)
  at ← now
  s ← gets (λ s. s)
  let transaction =
      usd_transaction s TransactionKind.issue at (Actor.by_user actor.id) (Memo.words reason) none (
        dollar_postings AccountId.usd_issuance (codes "USD issuance") (AccountId.usd to)
          (shown_name s to) cents)
  modify (push_usd transaction)
  modify (λ s. record s { revision = s.revision + 1 })
  pure transaction

abbrev pub is_side : QuoteSide → Bool
is_side QuoteSide.other = false
is_side _ = true

-- `BigInt(centsPerCoin) * BigInt(coins)`, and the whole coin in minor units.
abbrev pub quote_total : ℤ → ℤ → ℕ
quote_total cents_per_coin coins = pos_part cents_per_coin * pos_part coins

abbrev pub coin_scale : Ledger → ℕ
coin_scale s = 10 ^ s.decimals

-- A rate is refused unless its dollar side is a whole, positive and payable number of cents.
abbrev pub is_bad_rate : Ledger → QuoteSide → ℤ → ℤ → Bool
is_bad_rate s side cents_per_coin coins =
    not (is_side side)
    || (not (quote_total cents_per_coin coins % coin_scale s == 0)
        || (leb (quote_total cents_per_coin coins / coin_scale s) 0
            || ltb max_money (quote_total cents_per_coin coins / coin_scale s)))

unfoldable pub post_quote : User → QuoteSide → ℤ → ℤ → Exec Ledger Quote
unfolding ◌>>=◌
post_quote actor side cents_per_coin coins = do
  require_active actor
  require_amount cents_per_coin
  require_amount coins
  throw_if (λ s. is_bad_rate s side cents_per_coin coins) (Fault.demo 400 Code.bad_request)
  created ← now
  s ← gets (λ s. s)
  let quote : Quote = record {
    id = s.next_id;
    maker = actor.account;
    maker_name = actor.display_name;
    side = side;
    cents_per_coin = cents_per_coin;
    coins = coins;
    cents = pos (quote_total cents_per_coin coins / coin_scale s);
    status = QuoteStatus.open_quote;
    created_at = created;
    updated_at = created;
    live = true;
    taker = none;
    taker_name = none;
    coin_tx = none;
    cash_tx = none;
  }
  modify (λ s. record s { next_id = s.next_id + 1; quotes = s.quotes ++ quote ∷ [] })
  pure quote

abbrev pub has_quote_id : ℕ → Quote → Bool
has_quote_id id q = q.id == id

abbrev pub coin_seller : Quote → User → AccountId
coin_seller q actor = if is_ask q.side then q.maker else actor.account

abbrev pub coin_buyer : Quote → User → AccountId
coin_buyer q actor = if is_ask q.side then actor.account else q.maker

-- The quote as `takeQuote` leaves it.
abbrev pub filled_quote : User → Transaction → Transaction → Quote → Quote
filled_quote actor coin cash q = record q {
  status = QuoteStatus.filled;
  live = false;
  taker = some actor.account;
  taker_name = some actor.display_name;
  updated_at = coin.created_at;
  coin_tx = some coin.id;
  cash_tx = some cash.id;
}

unfoldable pub take_quote : User → ℕ → Exec Ledger (Quote × Transaction × Transaction)
unfolding ◌>>=◌
take_quote actor id = do
  require_active actor
  found ← gets (λ s. find (has_quote_id id) s.quotes)
  quote ← lift (or_raise found (Fault.demo 404 Code.not_found))
  throw_if (λ _. not quote.live || not (is_open_quote quote.status))
      (Fault.demo 409 Code.quote_closed)
  throw_if (λ _. same_account quote.maker actor.account) (Fault.demo 400 Code.self_deal)
  let seller = coin_seller quote actor
  let buyer = coin_buyer quote actor
  throw_if (λ s. ltb_ℤ (balance_of s seller) quote.coins) (Fault.demo 400 Code.insufficient_funds)
  throw_if (λ s. ltb_ℤ (usd_balance s buyer) quote.cents) (Fault.demo 400 Code.insufficient_funds)
  modify (add_usd buyer (neg quote.cents))
  modify (add_usd seller quote.cents)
  coin ←
      append TransactionKind.transfer (Actor.by_user actor.id) Memo.exchange
        (two_postings seller buyer quote.coins)
        (record no_options { reference = some (Reference.quote quote.id) })
  s ← gets (λ s. s)
  let cash =
      usd_transaction s TransactionKind.transfer coin.created_at (Actor.by_user actor.id)
        Memo.exchange (some (Reference.quote quote.id))
        (dollar_postings (AccountId.usd buyer) (shown_name s buyer) (AccountId.usd seller)
          (shown_name s seller) quote.cents)
  modify (push_usd cash)
  modify
      (λ s. record s { quotes = update (has_quote_id id) (filled_quote actor coin cash) s.quotes })
  pure (filled_quote actor coin cash quote, coin, cash)

unfoldable pub cancel_quote : User → ℕ → Exec Ledger Quote
unfolding ◌>>=◌
cancel_quote actor id = do
  found ← gets (λ s. find (has_quote_id id) s.quotes)
  quote ← lift (or_raise found (Fault.demo 404 Code.not_found))
  throw_if (λ _. not (same_account quote.maker actor.account) && not (is_nana actor.role))
      (Fault.demo 403 Code.forbidden)
  throw_if (λ _. not (is_open_quote quote.status)) (Fault.demo 409 Code.quote_closed)
  at ← now
  let close =
      λ (q : Quote). record q { status = QuoteStatus.cancelled; live = false; updated_at = at }
  modify (λ s. record s { quotes = update (has_quote_id id) close s.quotes })
  pure (close quote)
