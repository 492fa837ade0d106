-- ===== src/MarketMaker/Steps.antt =====
-- The sections of `planMarket` on dollars and on loans.
use nanacoin.Prelude.{
  ℕ, ◌+◌, ◌-◌, ◌*◌, ◌/◌, max, min, Bool, true, false, ◌&&◌, ◌||◌, not, if◌then◌else◌, Option, none,
  some, List, [], ◌∷◌, ◌++◌, length, map, any, keep, ℤ, pos, pos_part, ◌-ℤ◌, ltb_ℤ, ltb, leb, ◌==◌,
  codes,
}
use nanacoin.Model.{
  AccountId, same_account, Quote, QuoteSide, is_open_quote, StoredLoan, LoanStatus,
}
use nanacoin.Ledger.Loans.{LoanOfferInput}
use nanacoin.MarketMaker.{
  quote_capacity, loan_capacity, quote_reserve, loan_reserve, PriceTier, LoanTier, Forex, Borrower,
  Lending, MarketInput, Step, PlanError, PlanWarning, Part, ◌then◌, nothing, do_steps, error_if,
  warn_if, share_of, rung_of, Rung, sum_of, bid_cents, ask_coins,
}

abbrev pub is_mine : MarketInput → Quote → Bool
is_mine input q = same_account q.maker input.nana && is_open_quote q.status

abbrev cancel_steps : List Quote → List Step
cancel_steps [] = []
cancel_steps (q ∷ qs) = Step.cancel_quote q.id ∷ cancel_steps qs

-- `bestBid >= bestAsk`: some bid is no lower than some ask, where there are both.
abbrev pub best_bid : List PriceTier → ℕ
best_bid [] = 0
best_bid (t ∷ ts) = max t.cents (best_bid ts)

abbrev pub best_ask : List PriceTier → Option ℕ
best_ask [] = none
best_ask (t ∷ ts) = elim (best_ask ts) [ none ↦ some t.cents | some c ↦ some (min t.cents c) ]

abbrev pub is_crossed : List PriceTier → Option ℕ → Bool
is_crossed [] ask = false
is_crossed (t ∷ ts) none = false
is_crossed (t ∷ ts) (some ask) = leb ask (best_bid (t ∷ ts))

unfoldable pub rising : List PriceTier → Part
rising [] = nothing
rising (t ∷ []) = nothing
rising (t ∷ u ∷ ts) = warn_if (ltb t.cents u.cents) PlanWarning.rising_bid then rising (u ∷ ts)

abbrev is_kept_quote : MarketInput → Forex → Quote → Bool
is_kept_quote input f q =
    is_open_quote q.status && not (f.replace && same_account q.maker input.nana)

-- The open offers on the board once the batch has run
abbrev pub quotes_after : MarketInput → Forex → ℕ
quotes_after input f =
    length (keep (is_kept_quote input f) input.quotes) + length f.bids + length f.asks

-- An error past the capacity, else a warning where fewer places than the reserve are left.
unfoldable pub capacity_part : ℕ → ℕ → ℕ → PlanError → PlanWarning → Part
unfolding error_if warn_if
capacity_part after capacity reserve e w =
    if ltb capacity after then error_if true e else warn_if (ltb (capacity - after) reserve) w

-- A step that makes up what is missing, or an error.
unfoldable pub shortage_part : ℤ → Bool → (ℕ → Step) → PlanError → Part
unfolding error_if
shortage_part short top_up step e =
    if ltb_ℤ (pos 0) short
    then if top_up then do_steps (step (pos_part short) ∷ []) else error_if true e
    else nothing

abbrev expiry : Forex → Option ℕ
expiry f = if f.expires_at == 0 then none else some f.expires_at

abbrev quote_steps : QuoteSide → Option ℕ → List Rung → List Step
quote_steps side expires [] = []
quote_steps side expires (r ∷ rs) =
    Step.quote side r.cents r.coins expires ∷ quote_steps side expires rs

abbrev pub is_low : PriceTier → Bool
is_low t = ltb t.cents 1

-- The section on dollars
unfoldable pub forex_part : MarketInput → Forex → Part
unfolding sum_of share_of
forex_part input f =
    do_steps (if f.replace then cancel_steps (keep (is_mine input) input.quotes) else [])
    then error_if (any is_low f.bids || any is_low f.asks) PlanError.low_price
    then error_if (is_crossed f.bids (best_ask f.asks)) PlanError.crossed_prices
    then rising f.bids
    then capacity_part (quotes_after input f) quote_capacity quote_reserve PlanError.quotes_full
        PlanWarning.few_quotes
    then shortage_part (pos (bid_cents input f) -ℤ input.usd_cents) f.top_up_usd Step.issue_usd
        PlanError.usd_missing
    then shortage_part (pos (ask_coins input f) -ℤ input.balance) f.top_up_coins Step.issue
        PlanError.coins_missing
    then do_steps (quote_steps QuoteSide.bid (expiry f) (map (rung_of input) f.bids))
    then do_steps (quote_steps QuoteSide.ask (expiry f) (map (rung_of input) f.asks))

abbrev is_open_loan_offer : LoanStatus → Bool
is_open_loan_offer LoanStatus.offered = true
is_open_loan_offer _ = false

abbrev is_over : LoanStatus → Bool
is_over LoanStatus.paid = true
is_over LoanStatus.declined = true
is_over LoanStatus.cancelled = true
is_over _ = false

abbrev lent_by : AccountId → StoredLoan → Bool
lent_by a l = elim l.lender [ none ↦ false | some lender ↦ same_account lender a ]

abbrev is_standing : MarketInput → StoredLoan → Bool
is_standing input l = lent_by input.nana l && is_open_loan_offer l.status

abbrev close_steps : List StoredLoan → List Step
close_steps [] = []
close_steps (l ∷ ls) = Step.close_loan l.id ∷ close_steps ls

unfoldable pub cheaper : List LoanTier → Part
cheaper [] = nothing
cheaper (t ∷ []) = nothing
cheaper (t ∷ u ∷ ts) =
    warn_if (ltb t.share_bps u.share_bps && ltb u.rate_bps t.rate_bps) PlanWarning.cheaper_loan
    then cheaper (u ∷ ts)

-- A quarter of a loan in whole coins, rounded up: `Math.ceil(amount / 4 / scale) * scale`.
abbrev pub quarter : ℕ → ℕ → ℕ
quarter amount scale = (amount + (4 * scale - 1)) / (4 * scale) * scale

abbrev loan_terms : MarketInput → Lending → Borrower → LoanTier → LoanOfferInput
loan_terms input l b t =
    let amount = share_of input.circulation t.share_bps input.scale in
    record {
      borrower = b.account;
      amount = pos amount;
      rate_bps = pos t.rate_bps;
      rate_days = 30;
      payment_days = l.payment_days;
      installment = pos (min amount (quarter amount input.scale));
      credit = false;
      memo = codes "Nana's standing loan · " ++ t.label;
    }

abbrev tier_steps : MarketInput → Lending → Borrower → List LoanTier → List Step
tier_steps input l b [] = []
tier_steps input l b (t ∷ ts) = Step.loan (loan_terms input l b t) ∷ tier_steps input l b ts

abbrev loan_steps : MarketInput → Lending → List Borrower → List Step
loan_steps input l [] = []
loan_steps input l (b ∷ bs) = tier_steps input l b l.tiers ++ loan_steps input l bs

-- `totals.loanCoins`
abbrev pub loan_coins : MarketInput → Lending → ℕ
loan_coins input l =
    length l.borrowers
    * sum_of (λ (t : LoanTier). share_of input.circulation t.share_bps input.scale) l.tiers

abbrev is_live_loan : MarketInput → Lending → StoredLoan → Bool
is_live_loan input l x = not (is_over x.status) && not (l.replace && is_standing input x)

abbrev pub loans_after : MarketInput → Lending → ℕ
loans_after input l =
    length (keep (is_live_loan input l) input.loans) + length l.borrowers * length l.tiers

abbrev is_nobody : List Borrower → Bool
is_nobody [] = true
is_nobody (b ∷ bs) = false

-- The section on loans
unfoldable pub lending_part : MarketInput → Lending → Part
unfolding sum_of share_of
lending_part input l =
    do_steps (if l.replace then close_steps (keep (is_standing input) input.loans) else [])
    then error_if (is_nobody l.borrowers) PlanError.no_borrower
    then cheaper l.tiers
    then do_steps (loan_steps input l l.borrowers)
    then capacity_part (loans_after input l) loan_capacity loan_reserve PlanError.loans_full
        PlanWarning.few_loans
    then warn_if (ltb_ℤ input.balance (pos (loan_coins input l))) PlanWarning.loans_over_balance
