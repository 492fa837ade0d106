-- ===== src/Economy/Books.antt =====
-- The categories of the central bank's report add up.
use nanacoin.Prelude.{
  ℕ, ◌≡◌, Bool, true, false, if◌then◌else◌, Option, none, some, List, [], ◌∷◌, ℤ, neg, ◌+ℤ◌, ◌-ℤ◌,
  int_laws,
}
use nanacoin.Model.{AccountId, Transaction, Posting}
use nanacoin.Economy.CentralBank.{
  Flows, no_flows, Pair, add_in, add_out, book_flow, supply_flow, own_flow, coin_flow, sort_flow,
  next_flow, count_flow, flows_from, central_bank_flows, is_skipped,
}

-- The issues, less what is retired, and with the corrections.
abbrev pub issues : Flows → ℤ
issues f =
    f.issued_to_nana +ℤ f.issued_to_members +ℤ f.issued_for_lotto_interest -ℤ f.retired
    +ℤ f.corrections

-- What came in for Nana, less what went out.
abbrev pub own_income : Flows → ℤ
own_income f =
    f.coins_bought_back
    -ℤ f.coins_sold
    +ℤ (f.interest_received -ℤ f.interest_paid)
    +ℤ (f.repaid -ℤ f.lent)
    +ℤ (f.sold_to_members -ℤ f.bought_from_members)
    +ℤ (f.received_other -ℤ f.paid_out)

-- The new coins of a report are its issues, retirements and corrections.
record Adds (f : Flows) : Type 0 where
  adds : f.net_issuance ≡ issues f

Adds-if : (b : Bool) (f g : Flows) → Adds f → Adds g → Adds (if b then f else g)
Adds-if true f g h k = h
Adds-if false f g h k = k

module _ (x : ℤ) (f : Flows) (h : Adds f) where
  corrected-Adds :
      Adds record f { net_issuance = f.net_issuance +ℤ x; corrections = f.corrections +ℤ x }
  corrected-Adds = record { adds = rw h.adds (omega int_laws) }

  retired-Adds : Adds record f { net_issuance = f.net_issuance +ℤ x; retired = f.retired -ℤ x }
  retired-Adds = record { adds = rw h.adds (omega int_laws) }

  lotto-Adds : Adds record f {
    net_issuance = f.net_issuance +ℤ x;
    issued_for_lotto_interest = f.issued_for_lotto_interest +ℤ x;
  }
  lotto-Adds = record { adds = rw h.adds (omega int_laws) }

  nana-Adds :
      Adds record f { net_issuance = f.net_issuance +ℤ x; issued_to_nana = f.issued_to_nana +ℤ x }
  nana-Adds = record { adds = rw h.adds (omega int_laws) }

  members-Adds :
      Adds record f {
        net_issuance = f.net_issuance +ℤ x;
        issued_to_members = f.issued_to_members +ℤ x;
      }
  members-Adds = record { adds = rw h.adds (omega int_laws) }

  supply_flow-Adds : (nana : AccountId) (t : Transaction) → Adds (supply_flow nana t x f)
  unfolding supply_flow
  supply_flow-Adds nana t =
      search (Adds-if, corrected-Adds, retired-Adds, lotto-Adds, nana-Adds, members-Adds) depth 9

add_in-Adds : (p : Pair) (n : ℤ) (f : Flows) → Adds f → Adds (add_in p n f)
add_in-Adds Pair.dollars n f h = record { adds = h.adds }
add_in-Adds Pair.exchange n f h = record { adds = h.adds }
add_in-Adds Pair.interest n f h = record { adds = h.adds }
add_in-Adds Pair.loans n f h = record { adds = h.adds }
add_in-Adds Pair.trade n f h = record { adds = h.adds }
add_in-Adds Pair.other_money n f h = record { adds = h.adds }

add_out-Adds : (p : Pair) (n : ℤ) (f : Flows) → Adds f → Adds (add_out p n f)
add_out-Adds Pair.dollars n f h = record { adds = h.adds }
add_out-Adds Pair.exchange n f h = record { adds = h.adds }
add_out-Adds Pair.interest n f h = record { adds = h.adds }
add_out-Adds Pair.loans n f h = record { adds = h.adds }
add_out-Adds Pair.trade n f h = record { adds = h.adds }
add_out-Adds Pair.other_money n f h = record { adds = h.adds }

book_flow-Adds : (r : Bool) (d : ℤ) (p : Pair) (f : Flows) → Adds f → Adds (book_flow r d p f)
unfolding book_flow
book_flow-Adds r d p f h = search (Adds-if, add_in-Adds, add_out-Adds)

own_flow-Adds : (nana : AccountId) (t : Transaction) (f : Flows) → Adds f → Adds (own_flow nana t f)
unfolding own_flow
own_flow-Adds nana t f h = search (Adds-if, book_flow-Adds)

recorded-Adds : (x : ℤ) (f : Flows) → Adds f → Adds record f { usd_recorded = x }
recorded-Adds x f h = record { adds = h.adds }

coin_flow-Adds :
    (nana : AccountId) (t : Transaction) (o : Option Posting) (f : Flows)
    → Adds f
    → Adds (coin_flow nana t o f)
unfolding coin_flow
coin_flow-Adds nana t none f h = own_flow-Adds nana t f h
coin_flow-Adds nana t (some supply) f h = supply_flow-Adds (neg supply.amount) f h nana t

counted-Adds : (t : Transaction) (f : Flows) → Adds f → Adds (count_flow t f)
counted-Adds t f h = record { adds = h.adds }

sort_flow-Adds :
    (nana : AccountId) (t : Transaction) (f : Flows) → Adds f → Adds (sort_flow nana t f)
unfolding sort_flow
sort_flow-Adds nana t f h = search (Adds-if, book_flow-Adds, recorded-Adds, coin_flow-Adds) depth 9

flows_from-Adds :
    (nana : AccountId) (since : ℕ) (ts : List Transaction) (f : Flows)
    → Adds f
    → Adds (flows_from nana since ts f)
unfolding flows_from next_flow
flows_from-Adds nana since [] f h = h
flows_from-Adds nana since (t ∷ ts) f h = flows_from-Adds nana since ts _ (
    Adds-if (is_skipped since t) f _ h
      (sort_flow-Adds nana t (count_flow t f) (counted-Adds t f h)))

-- The net issuance of a report is what was issued to Nana, to members and for lotto interest, less
-- what was retired, and with the corrections.
pub central_bank_flows-issues :
    (txns : List Transaction) (nana : AccountId) (since : ℕ)
    → (central_bank_flows txns nana since).net_issuance
      ≡ issues (central_bank_flows txns nana since)
unfolding central_bank_flows
central_bank_flows-issues txns nana since =
    (flows_from-Adds nana since txns no_flows record { adds = omega int_laws }).adds
