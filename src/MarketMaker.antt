-- ===== src/MarketMaker.antt =====
-- Nana as market maker: a batch of offers as a checked list of calls
-- (nanacoin_ui/src/app/nana/market-maker-plan.ts). The labels of the steps and the wordings of the
-- messages are left out. The calendar is the platform's, and so a parameter.
pub mod Steps
pub mod Plan
pub mod Prices
pub mod Safe
mod Tests
use nanacoin.Prelude.{
  ℕ, zero, suc, ◌+◌, ◌-◌, ◌*◌, ◌/◌, max, min, Bool, true, false, ◌&&◌, ◌||◌, not, if◌then◌else◌,
  Option, none, some, List, [], ◌∷◌, ◌++◌, length, map, any, keep, take, ℤ, pos, pos_part, ◌-ℤ◌,
  ltb_ℤ, leb_ℤ, ltb, leb, ◌==◌, Text, codes, trim, is_empty,
}
use nanacoin.Model.{
  AccountId, same_account, Quote, QuoteSide, QuoteStatus, is_open_quote, StoredLoan, LoanStatus,
  Draw, LottoKind, LottoTerms,
}
use nanacoin.Ledger.Loans.{LoanOfferInput}

abbrev pub quote_capacity : ℕ
quote_capacity = 16

abbrev pub loan_capacity : ℕ
loan_capacity = 32

abbrev pub lotto_capacity : ℕ
lotto_capacity = 16

abbrev pub quote_reserve : ℕ
quote_reserve = 4

abbrev pub loan_reserve : ℕ
loan_reserve = 8

abbrev pub lotto_reserve : ℕ
lotto_reserve = 2

-- A rung of the dollar ladder: a share of the circulation in basis points, at whole cents.
pub record PriceTier : Type 0 where
  pub share_bps : ℕ
  pub cents : ℕ

pub record LoanTier : Type 0 where
  pub label : Text
  pub share_bps : ℕ
  pub rate_bps : ℕ

pub record LottoSeries : Type 0 where
  pub count : ℕ
  pub first_close : ℕ
  pub kind : LottoKind
  pub ticket_price : ℕ
  pub rate_bps : ℕ
  pub title : Text

pub record Forex : Type 0 where
  pub bids : List PriceTier
  pub asks : List PriceTier
  pub expires_at : ℕ
  pub replace : Bool
  pub top_up_usd : Bool
  pub top_up_coins : Bool

pub record Borrower : Type 0 where
  pub account : AccountId
  pub name : Text

pub record Lending : Type 0 where
  pub borrowers : List Borrower
  pub tiers : List LoanTier
  pub payment_days : ℕ
  pub replace : Bool

-- `nana`, `balance` and `usd_cents` are the fields of `nana` in the source.
pub record MarketInput : Type 0 where
  pub circulation : ℤ
  pub scale : ℕ
  pub nana : AccountId
  pub balance : ℤ
  pub usd_cents : ℤ
  pub now : ℕ
  pub quotes : List Quote
  pub loans : List StoredLoan
  pub lottos : List Draw
  pub forex : Option Forex
  pub lending : Option Lending
  pub lotto : Option LottoSeries

pub data Step : Type 0 where
  cancel_quote close_loan : ℕ → Step
  issue issue_usd : ℕ → Step
  quote : QuoteSide → ℕ → ℕ → Option ℕ → Step
  loan : LoanOfferInput → Step
  lotto : LottoTerms → Step

pub data PlanError : Type 0 where
  no_circulation low_price crossed_prices quotes_full usd_missing coins_missing : PlanError
  no_borrower loans_full bad_count bad_close free_ticket bad_rate lottos_full nothing_chosen :
      PlanError

pub data PlanWarning : Type 0 where
  rising_bid few_quotes cheaper_loan few_loans loans_over_balance few_lottos open_at_once :
      PlanWarning

-- What a section of the plan pushes to the three lists.
pub record Part : Type 0 where
  pub steps : List Step
  pub errors : List PlanError
  pub warnings : List PlanWarning

infixr 20 ◌then◌
unfoldable pub ◌then◌ : Part → Part → Part
p then q = record {
  steps = p.steps ++ q.steps;
  errors = p.errors ++ q.errors;
  warnings = p.warnings ++ q.warnings;
}

abbrev pub nothing : Part
nothing = record { steps = []; errors = []; warnings = [] }

abbrev pub do_steps : List Step → Part
do_steps steps = record nothing { steps = steps }

-- `if (test) errors.push(…)` and `if (test) warnings.push(…)`
unfoldable pub error_if : Bool → PlanError → Part
error_if test e = record nothing { errors = if test then e ∷ [] else [] }

unfoldable pub warn_if : Bool → PlanWarning → Part
warn_if test w = record nothing { warnings = if test then w ∷ [] else [] }

-- `shareOf(circulation, shareBps, scale)`
unfoldable pub share_of : ℤ → ℕ → ℕ → ℕ
share_of circulation share_bps scale =
    max 1 (pos_part circulation * share_bps / 10000 / scale) * scale

-- `quoteCents(coins, cents, scale)`
unfoldable pub quote_cents : ℕ → ℕ → ℕ → ℕ
quote_cents coins cents scale = coins * cents / scale

-- A rung with its coins
pub record Rung : Type 0 where
  pub cents : ℕ
  pub coins : ℕ

abbrev pub rung_of : MarketInput → PriceTier → Rung
rung_of input t = record {
  cents = t.cents;
  coins = share_of input.circulation t.share_bps input.scale;
}

unfoldable pub sum_of {ℓ} : {A : Type ℓ} → (A → ℕ) → List A → ℕ
sum_of f [] = 0
sum_of f (x ∷ xs) = f x + sum_of f xs

abbrev pub bid_cents : MarketInput → Forex → ℕ
bid_cents input f =
    sum_of (λ (r : Rung). quote_cents r.coins r.cents input.scale) (map (rung_of input) f.bids)

abbrev pub ask_coins : MarketInput → Forex → ℕ
ask_coins input f = sum_of (λ (r : Rung). r.coins) (map (rung_of input) f.asks)
