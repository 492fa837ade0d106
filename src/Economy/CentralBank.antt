-- ===== src/Economy/CentralBank.antt =====
-- Where money came from and went, with Nana as the central bank
-- (nanacoin_ui/src/app/economy/central-bank.ts).
use nanacoin.Prelude.{
  ℕ, ◌+◌, max, min, Bool, true, false, ◌||◌, if◌then◌else◌, Option, none, some, or_else, List, [],
  ◌∷◌, find, any, ℤ, pos, pos_part, neg_part, neg, ◌+ℤ◌, ◌-ℤ◌, ltb_ℤ, eqb_ℤ, ltb,
}
use nanacoin.Model.{
  AccountId, same_account, Transaction, TransactionKind, is_message, is_reversal, Posting,
  Reference, EconomicKind,
}

-- `interface Flows`
pub record Flows : Type 0 where
  pub counted : ℕ
  pub from : Option ℕ
  pub to : Option ℕ
  pub issued_to_nana : ℤ
  pub issued_to_members : ℤ
  pub issued_for_lotto_interest : ℤ
  pub retired : ℤ
  pub corrections : ℤ
  pub net_issuance : ℤ
  pub usd_recorded : ℤ
  pub coins_bought_back : ℤ
  pub usd_paid_out : ℤ
  pub coins_sold : ℤ
  pub usd_taken_in : ℤ
  pub interest_received : ℤ
  pub interest_paid : ℤ
  pub lent : ℤ
  pub repaid : ℤ
  pub bought_from_members : ℤ
  pub sold_to_members : ℤ
  pub paid_out : ℤ
  pub received_other : ℤ

-- `empty()`
abbrev pub no_flows : Flows
no_flows = record {
  counted = 0;
  from = none;
  to = none;
  issued_to_nana = pos 0;
  issued_to_members = pos 0;
  issued_for_lotto_interest = pos 0;
  retired = pos 0;
  corrections = pos 0;
  net_issuance = pos 0;
  usd_recorded = pos 0;
  coins_bought_back = pos 0;
  usd_paid_out = pos 0;
  coins_sold = pos 0;
  usd_taken_in = pos 0;
  interest_received = pos 0;
  interest_paid = pos 0;
  lent = pos 0;
  repaid = pos 0;
  bought_from_members = pos 0;
  sold_to_members = pos 0;
  paid_out = pos 0;
  received_other = pos 0;
}

-- The pairs of fields, inbound and outbound, that `book` is called with.
pub data Pair : Type 0 where
  dollars exchange interest loans trade other_money : Pair

abbrev pub add_in : Pair → ℤ → Flows → Flows
add_in Pair.dollars n f = record f { usd_taken_in = f.usd_taken_in +ℤ n }
add_in Pair.exchange n f = record f { coins_bought_back = f.coins_bought_back +ℤ n }
add_in Pair.interest n f = record f { interest_received = f.interest_received +ℤ n }
add_in Pair.loans n f = record f { repaid = f.repaid +ℤ n }
add_in Pair.trade n f = record f { sold_to_members = f.sold_to_members +ℤ n }
add_in Pair.other_money n f = record f { received_other = f.received_other +ℤ n }

abbrev pub add_out : Pair → ℤ → Flows → Flows
add_out Pair.dollars n f = record f { usd_paid_out = f.usd_paid_out +ℤ n }
add_out Pair.exchange n f = record f { coins_sold = f.coins_sold +ℤ n }
add_out Pair.interest n f = record f { interest_paid = f.interest_paid +ℤ n }
add_out Pair.loans n f = record f { lent = f.lent +ℤ n }
add_out Pair.trade n f = record f { bought_from_members = f.bought_from_members +ℤ n }
add_out Pair.other_money n f = record f { paid_out = f.paid_out +ℤ n }

-- `Math.abs(d)`
abbrev pub absolute : ℤ → ℤ
absolute d = pos (pos_part d + neg_part d)

-- `book(d, inbound, outbound)`: a reversal is booked against what it undoes, with a minus sign.
unfoldable pub book_flow : Bool → ℤ → Pair → Flows → Flows
book_flow reversal d pair f =
    let original = if reversal then neg d else d in
    let size = if reversal then neg (absolute d) else absolute d in
    if ltb_ℤ (pos 0) original then add_in pair size f else add_out pair size f

abbrev pub posted_to : AccountId → Posting → Bool
posted_to a p = same_account p.account a

-- `at(account)`: the first posting to an account, or 0.
abbrev pub amount_of : Option Posting → ℤ
amount_of none = pos 0
amount_of (some p) = p.amount

unfoldable pub first_amount : Transaction → AccountId → ℤ
first_amount t a = amount_of (find (posted_to a) t.postings)

abbrev is_dollar_account : AccountId → Bool
is_dollar_account (AccountId.usd a) = true
is_dollar_account _ = false

abbrev pub has_posting : (AccountId → Bool) → Transaction → Bool
has_posting p t = any (λ (q : Posting). p q.account) t.postings

abbrev pub of_quote : Option Reference → Bool
of_quote (some (Reference.quote n)) = true
of_quote _ = false

abbrev pub of_lotto : Option Reference → Bool
of_lotto (some (Reference.lotto n)) = true
of_lotto _ = false

abbrev is_retire : TransactionKind → Bool
is_retire TransactionKind.retire = true
is_retire _ = false

-- `counted`, `from` and `to`
abbrev pub count_flow : Transaction → Flows → Flows
count_flow t f = record f {
  counted = f.counted + 1;
  from = some (min (or_else f.from t.created_at) t.created_at);
  to = some (max (or_else f.to t.created_at) t.created_at);
}

-- A change of the money supply, by where it went.
unfoldable pub supply_flow : AccountId → Transaction → ℤ → Flows → Flows
unfolding first_amount
supply_flow nana t added f =
    let g = record f { net_issuance = f.net_issuance +ℤ added } in
    if is_reversal t.kind
    then record g { corrections = g.corrections +ℤ added }
    else if is_retire t.kind
    then record g { retired = g.retired -ℤ added }
    else if of_lotto t.reference
    then record g { issued_for_lotto_interest = g.issued_for_lotto_interest +ℤ added }
    else if ltb_ℤ (pos 0) (first_amount t nana)
    then record g { issued_to_nana = g.issued_to_nana +ℤ added }
    else record g { issued_to_members = g.issued_to_members +ℤ added }

-- The `switch` on the economic kind
abbrev pub pair_of : Option EconomicKind → Pair
pair_of (some EconomicKind.interest) = Pair.interest
pair_of (some EconomicKind.loan_principal) = Pair.loans
pair_of (some EconomicKind.labor) = Pair.trade
pair_of (some EconomicKind.good) = Pair.trade
pair_of _ = Pair.other_money

-- Nana's own coins, where the supply does not change.
unfoldable pub own_flow : AccountId → Transaction → Flows → Flows
unfolding first_amount book_flow
own_flow nana t f =
    let d = first_amount t nana in
    let pair = if of_quote t.reference then Pair.exchange else pair_of t.economic_kind in
    if eqb_ℤ d (pos 0) then f else book_flow (is_reversal t.kind) d pair f

-- By whether the issuance account has a posting
unfoldable pub coin_flow : AccountId → Transaction → Option Posting → Flows → Flows
unfolding supply_flow own_flow
coin_flow nana t none f = own_flow nana t f
coin_flow nana t (some supply) f = supply_flow nana t (neg supply.amount) f

-- What the loop does with a transaction that it counts.
unfoldable pub sort_flow : AccountId → Transaction → Flows → Flows
unfolding first_amount book_flow coin_flow
sort_flow nana t f =
    if has_posting (same_account AccountId.usd_issuance) t
    then record f { usd_recorded = f.usd_recorded -ℤ first_amount t AccountId.usd_issuance }
    else if has_posting is_dollar_account t
    then if of_quote t.reference
      then book_flow (is_reversal t.kind) (first_amount t (AccountId.usd nana)) Pair.dollars f
      else f
    else coin_flow nana t (find (posted_to AccountId.system_issuance) t.postings) f

abbrev pub is_skipped : ℕ → Transaction → Bool
is_skipped since t = is_message t.kind || ltb t.created_at since

-- One round of the loop
unfoldable pub next_flow : AccountId → ℕ → Transaction → Flows → Flows
unfolding sort_flow
next_flow nana since t f = if is_skipped since t then f else sort_flow nana t (count_flow t f)

unfoldable pub flows_from : AccountId → ℕ → List Transaction → Flows → Flows
unfolding next_flow
flows_from nana since [] f = f
flows_from nana since (t ∷ ts) f = flows_from nana since ts (next_flow nana since t f)

-- `centralBankFlows(txns, nana, since)`
unfoldable pub central_bank_flows : List Transaction → AccountId → ℕ → Flows
unfolding flows_from
central_bank_flows txns nana since = flows_from nana since txns no_flows
