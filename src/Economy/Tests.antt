-- ===== src/Economy/Tests.antt =====
-- The central bank's report on the opening of a household.
use nanacoin.Prelude.{◌-ℤ◌, codes, sum_by, ◌≡◌, refl, pos, [], ◌∷◌, neg, ◌+ℤ◌}
use nanacoin.Model.{AccountId}
use nanacoin.Economy.CentralBank.{
  central_bank_flows, flows_from, next_flow, sort_flow, coin_flow, supply_flow, first_amount,
}
use nanacoin.Economy.Books.{issues, central_bank_flows-issues}
use nanacoin.Prelude.Sorting.{Sorted}
use nanacoin.Economy.Series.{balance_series, money_supply_series}
use nanacoin.Economy.Anchored.{last_value, Earlier, series-close, balance_series-Sorted}
use nanacoin.Economy.Standing.{public_report, shown_delta, public_report-net}
use nanacoin.Ledger.ReformTests.{allowance}

issued : (central_bank_flows (allowance ∷ []) (AccountId.member 1) 0).issued_to_members ≡ pos 500
unfolding central_bank_flows flows_from next_flow sort_flow coin_flow supply_flow first_amount neg
    ◌+ℤ◌
issued = refl

central_bank_flows-issues_example :
    (central_bank_flows (allowance ∷ []) (AccountId.member 1) 0).net_issuance
    ≡ issues (central_bank_flows (allowance ∷ []) (AccountId.member 1) 0)
central_bank_flows-issues_example =
    central_bank_flows-issues (allowance ∷ []) (AccountId.member 1) 0

series-close_example :
    (last_value
        (pos 700)
        (balance_series (allowance ∷ []) (AccountId.member 2) (pos 700) (codes "Ann")).points
      ≡ pos 700)
    × (last_value (pos 700) (money_supply_series (allowance ∷ []) (pos 700) (codes "Ann")).points
        ≡ pos 700)
series-close_example = series-close (allowance ∷ []) (AccountId.member 2) (pos 700) (codes "Ann")

balance_series-Sorted_example :
    Sorted Earlier
      (balance_series
        (allowance ∷ allowance ∷ [])
        (AccountId.member 2)
        (pos 700)
        (codes "Ann")).points
balance_series-Sorted_example =
    balance_series-Sorted (allowance ∷ allowance ∷ []) (AccountId.member 2) (pos 700) (codes "Ann")

public_report-net_example :
    (public_report (AccountId.member 2) (allowance ∷ [])).received
      -ℤ (public_report (AccountId.member 2) (allowance ∷ [])).paid
    ≡ sum_by (shown_delta (AccountId.member 2)) (allowance ∷ [])
public_report-net_example = public_report-net (AccountId.member 2) (allowance ∷ [])
