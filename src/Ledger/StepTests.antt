-- ===== src/Ledger/StepTests.antt =====
-- The theorems on deliveries, quotes and offers at a concrete ledger.
use nanacoin.Prelude.{◌⊎◌, pos, [], ◌∷◌, ℕ, none, codes}
use nanacoin.Exec.Atomic.{IsRefused}
use nanacoin.Model.{
  TransactionId, FulfillmentAction, QuoteSide, Offer, OfferStatus, ListingSide, AccountId,
}
use nanacoin.Ledger.Deliveries.{set_fulfillment}
use nanacoin.Ledger.Exchange.{post_quote}
use nanacoin.Ledger.State.{Ledger}
use nanacoin.Ledger.Requests.{run}
use nanacoin.Ledger.Steps.{IsStep, set_fulfillment-steps}
use nanacoin.Ledger.Quotes.{IsExact, post_quote-IsExact}
use nanacoin.Ledger.Tests.{ann, trading, opened}

-- Ann confirms the delivery of the bread that she has bought.
set_fulfillment-steps_example :
    IsRefused
      (run trading opened)
      (set_fulfillment ann (TransactionId.txn 3) FulfillmentAction.complete [] (run trading opened))
    ⊎ IsStep ann FulfillmentAction.complete (TransactionId.txn 3) (run trading opened) (
        set_fulfillment ann
          (TransactionId.txn 3)
          FulfillmentAction.complete
          []
          (run trading opened))
set_fulfillment-steps_example =
    set_fulfillment-steps ann (TransactionId.txn 3) FulfillmentAction.complete []
      (run trading opened)

post_quote-IsExact_example :
    IsRefused opened (post_quote ann QuoteSide.ask (pos 25) (pos 20000) opened)
    ⊎ IsExact ann QuoteSide.ask
        (pos 25)
        (pos 20000)
        opened
        (post_quote ann QuoteSide.ask (pos 25) (pos 20000) opened)
post_quote-IsExact_example = post_quote-IsExact ann QuoteSide.ask (pos 25) (pos 20000) opened

-- Four offers on two listings, the first of them accepted.
abbrev an_offer : ℕ → ℕ → OfferStatus → Offer
an_offer id listing status = record {
  id = id;
  listing = listing;
  listing_title = codes "Bread";
  listing_owner = AccountId.member 3;
  listing_owner_name = none;
  listing_side = ListingSide.sell;
  offerer = AccountId.member 2;
  offerer_name = codes "Ann";
  amount = pos 25;
  message = [];
  status = status;
  created_at = 5;
  updated_at = 5;
  settled_tx = none;
}

abbrev bidding : Ledger
bidding = record opened {
  offers =
      an_offer 5 4 OfferStatus.accepted
      ∷ an_offer 6 4 OfferStatus.open_offer
      ∷ an_offer 7 4 OfferStatus.withdrawn
      ∷ an_offer 8 9 OfferStatus.open_offer
      ∷ [];
}
