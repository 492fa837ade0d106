-- ===== src/Economy/Series.antt =====
-- The money supply and a balance over time (nanacoin_ui/src/app/economy/series.ts), built backwards
-- from what the server reports now.
use nanacoin.Prelude.{
  ℕ, Bool, ◌&&◌, ◌||◌, if◌then◌else◌, List, [], ◌∷◌, any, keep, ℤ, pos, neg, ◌+ℤ◌, ◌-ℤ◌, eqb_ℤ,
  sum_by, ltb, ◌==◌, Text,
}
use nanacoin.Prelude.Sorting.{sort_by}
use nanacoin.Model.{AccountId, same_account, Transaction, TransactionId, Posting}
use nanacoin.Ledger.State.{amount_at}

pub record Point : Type 0 where
  pub at : ℕ
  pub value : ℤ

pub record Series : Type 0 where
  pub name : Text
  pub points : List Point

-- `sequence(txn)`: the number at the end of an id
abbrev pub sequence : TransactionId → ℕ
sequence (TransactionId.txn n) = n
sequence (TransactionId.usd_txn n) = n

-- `byCommitOrder(a, b) < 0`
abbrev pub by_commit_order : Transaction → Transaction → Bool
by_commit_order a b =
    ltb a.created_at b.created_at
    || (a.created_at == b.created_at && ltb (sequence a.id) (sequence b.id))

-- `accountDelta(txn, account)`
unfoldable pub account_delta : AccountId → Transaction → ℤ
unfolding sum_by
account_delta account t = sum_by (amount_at account) t.postings

-- `supplyDelta(txn)`
unfoldable pub supply_delta : Transaction → ℤ
unfolding account_delta
supply_delta t = neg (account_delta AccountId.system_issuance t)

abbrev pub opening : (Transaction → ℤ) → List Transaction → ℤ → ℤ
opening delta [] value = value
opening delta (t ∷ ts) value = opening delta ts (value -ℤ delta t)

abbrev pub first_point : List Transaction → ℤ → List Point → List Point
first_point [] value points = points
first_point (t ∷ ts) value points = record { at = t.created_at; value = value } ∷ points

-- The second loop of `balanceSeries`
unfoldable pub balance_points : AccountId → List Transaction → ℤ → List Point
unfolding account_delta
balance_points account [] running = []
balance_points account (t ∷ ts) running =
    let next = running +ℤ account_delta account t in
    record { at = t.created_at; value = next } ∷ balance_points account ts next

-- The second loop of `moneySupplySeries`, which leaves out what does not change the supply:
-- to add 0 changes nothing.
unfoldable pub supply_points : List Transaction → ℤ → List Point
unfolding supply_delta
supply_points [] running = []
supply_points (t ∷ ts) running =
    let next = running +ℤ supply_delta t in
    let rest = supply_points ts next in
    if eqb_ℤ (supply_delta t) (pos 0)
    then rest
    else record { at = t.created_at; value = next } ∷ rest

abbrev pub posts_to : AccountId → Transaction → Bool
posts_to account t = any (λ (p : Posting). same_account p.account account) t.postings

-- `balanceSeries(txns, account, closingBalance, name)`
unfoldable pub balance_series : List Transaction → AccountId → ℤ → Text → Series
unfolding account_delta balance_points sort_by
balance_series txns account closing name =
    let ordered = sort_by by_commit_order (keep (posts_to account) txns) in
    let start = opening (account_delta account) ordered closing in
    record {
      name = name;
      points = first_point ordered start (balance_points account ordered start);
    }

-- `moneySupplySeries(txns, closing)`, with its name as an argument
unfoldable pub money_supply_series : List Transaction → ℤ → Text → Series
unfolding supply_delta supply_points sort_by
money_supply_series txns closing name =
    let ordered = sort_by by_commit_order txns in
    let start = opening supply_delta ordered closing in
    record { name = name; points = first_point ordered start (supply_points ordered start) }
