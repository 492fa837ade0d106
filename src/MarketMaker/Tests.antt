-- ===== src/MarketMaker/Tests.antt =====
-- Plans at concrete inputs.
use nanacoin.Prelude.{
  ◌+◌, ◌≡◌, refl, arith, true, false, none, some, [], ◌∷◌, pos, ◌-ℤ◌, codes, ◌≤ℤ◌, ◌≤◌,
}
use nanacoin.Model.{AccountId}
use nanacoin.MarketMaker.{
  Forex, Lending, MarketInput, PlanError, ◌then◌, error_if, warn_if, share_of, quote_cents, sum_of,
  loan_capacity,
}
use nanacoin.MarketMaker.Steps.{forex_part, rising, capacity_part, shortage_part, loans_after}
use nanacoin.MarketMaker.Plan.{Calendar, plan_market}
use nanacoin.MarketMaker.Safe.{IsWhole, IsSafe, share_of-IsWhole, plan_market-IsSafe}

abbrev calendar : Calendar
calendar = record { add_months = λ at n. at + n; month_name = λ at. codes "May 2026" }

-- Nana buys at 90 cents and sells at 110, each one percent of a million coins.
abbrev ladder : Forex
ladder = record {
  bids = record { share_bps = 100; cents = 90 } ∷ [];
  asks = record { share_bps = 100; cents = 110 } ∷ [];
  expires_at = 0;
  replace = true;
  top_up_usd = false;
  top_up_coins = false;
}

abbrev market : MarketInput
market = record {
  circulation = pos 1000000;
  scale = 100;
  nana = AccountId.member 1;
  balance = pos 20000;
  usd_cents = pos 20000;
  now = 1000;
  quotes = [];
  loans = [];
  lottos = [];
  forex = some ladder;
  lending = none;
  lotto = none;
}

market_errors : (plan_market calendar market).errors ≡ []
unfolding plan_market ◌then◌ error_if warn_if forex_part rising capacity_part shortage_part share_of
    quote_cents sum_of ◌-ℤ◌
market_errors = refl

crossed :
    (plan_market calendar record market {
      forex = some record ladder { asks = record { share_bps = 100; cents = 90 } ∷ [] };
    }).errors
    ≡ PlanError.crossed_prices ∷ []
unfolding plan_market ◌then◌ error_if warn_if forex_part rising capacity_part shortage_part share_of
    quote_cents sum_of ◌-ℤ◌
crossed = refl

share_of-IsWhole_example : IsWhole 100 90 (share_of (pos 1000000) 100 100)
share_of-IsWhole_example = share_of-IsWhole (pos 1000000) 100 90 100 (omega arith)

plan_market-IsSafe_example :
    (pos 1 ≤ℤ market.circulation)
    × ((f : Forex) → market.forex ≡ some f → IsSafe market f)
    × ((l : Lending) → market.lending ≡ some l → loans_after market l ≤ loan_capacity)
plan_market-IsSafe_example = plan_market-IsSafe calendar market market_errors
