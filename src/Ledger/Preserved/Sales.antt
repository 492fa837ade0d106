-- ===== src/Ledger/Preserved/Sales.antt =====
-- The methods of the marketplace, of offers, deliveries and members.
use nanacoin.Prelude.{ℕ, ◌+◌, ◌≡◌, false, if-elim, List, [], ◌∷◌, ℤ, Text, subst, sym, update}
use nanacoin.Exec.{modify}
use nanacoin.Exec.Keeps.{Keeps, Keeps-modify, keeps_rules}
use nanacoin.Model.{
  Transaction, TransactionKind, TransactionId, Actor, Memo, Posting, User, Role, UserStatus,
  Listing, Offer, FulfillmentAction, Fulfillment,
}
use nanacoin.Ledger.State.{Ledger, now, tick, has_id}
use nanacoin.Ledger.Delivery.{Options, on_fulfillment}
use nanacoin.Ledger.Append.{append}
use nanacoin.Ledger.Core.{Core, core, Holds, now-Keeps}
use nanacoin.Ledger.Book.{facts-update}
use nanacoin.Ledger.Guards.{require_nana, require_active, require_amount}
use nanacoin.Ledger.Market.{
  ListingInput, create_listing, listing_by_id, update_listing, cancel_listing, buy_listing,
}
use nanacoin.Ledger.Offers.{
  is_rival, make_offer, offer_by_id, update_offer, close_rivals, reject_rivals, touch_listing,
  sell_listing, accept_offer, decline_offer, withdraw_offer,
}
use nanacoin.Ledger.Members.{
  add_user, provision, member_by_id, update_user, set_user_status, set_user_bio, set_user_password,
}
use nanacoin.Ledger.Deliveries.{set_fulfillment}

module _ (Q : Core → Type 0)
    (pair : (k : TransactionKind) (a : Actor) (m : Memo) (p q : Posting) (opts : Options)
      → opts.allow_overdraft ≡ false
      → Keeps (Holds Q) (append k a m (p ∷ q ∷ []) opts)) where
  require_amount-Keeps : (n : ℤ) → Keeps (Holds Q) (require_amount n)
  unfolding require_amount
  require_amount-Keeps n = search keeps_rules

  clock-Keeps : Keeps (Holds Q) now
  clock-Keeps = now-Keeps Q

  require_nana-Keeps : (u : User) → Keeps (Holds Q) (require_nana u)
  unfolding require_nana
  require_nana-Keeps u = search keeps_rules

  require_active-Keeps : (u : User) → Keeps (Holds Q) (require_active u)
  unfolding require_active
  require_active-Keeps u = search keeps_rules

  listing_by_id-Keeps : (id : ℕ) → Keeps (Holds Q) (listing_by_id id)
  unfolding listing_by_id
  listing_by_id-Keeps id = search keeps_rules

  offer_by_id-Keeps : (id : ℕ) → Keeps (Holds Q) (offer_by_id id)
  unfolding offer_by_id
  offer_by_id-Keeps id = search keeps_rules

  member_by_id-Keeps : (id : ℕ) → Keeps (Holds Q) (member_by_id id)
  unfolding member_by_id
  member_by_id-Keeps id = search keeps_rules

  update_listing-Keeps :
      (id : ℕ) (f : Listing → Listing) → Keeps (Holds Q) (modify (update_listing id f))
  unfolding update_listing core
  update_listing-Keeps id f = Keeps-modify _ (λ s h. h)

  update_offer-Keeps : (id : ℕ) (f : Offer → Offer) → Keeps (Holds Q) (modify (update_offer id f))
  unfolding update_offer core
  update_offer-Keeps id f = Keeps-modify _ (λ s h. h)

  update_user-Keeps : (id : ℕ) (f : User → User) → Keeps (Holds Q) (modify (update_user id f))
  unfolding update_user core
  update_user-Keeps id f = Keeps-modify _ (λ s h. h)

  tick-Holds : (s : Ledger) → Holds Q s → Holds Q (tick s)
  unfolding tick core
  tick-Holds s h = if-elim (Holds Q) s.live_clock s (record s { clock = s.clock + 1 }) h h

  close_rivals-Holds :
      (l i : ℕ) (os : List Offer) (s : Ledger) → Holds Q s → Holds Q (close_rivals l i os s).1
  unfolding close_rivals
  close_rivals-Holds l i [] s h = h
  close_rivals-Holds l i (o ∷ os) s h =
      close_rivals-Holds l i os _ (if-elim (Holds Q) (is_rival l i o) (tick s) s (tick-Holds s h) h)

  reject_rivals-Keeps : (l i : ℕ) → Keeps (Holds Q) (reject_rivals l i)
  unfolding reject_rivals core
  reject_rivals-Keeps l i = record { kept = λ s h. close_rivals-Holds l i s.offers s h }

  ruleset quiet_rules = (
    keeps_rules, require_amount-Keeps, require_nana-Keeps, require_active-Keeps, clock-Keeps,
    listing_by_id-Keeps, offer_by_id-Keeps, member_by_id-Keeps, update_listing-Keeps,
    update_offer-Keeps, update_user-Keeps, reject_rivals-Keeps,
  )

  pub create_listing-Keeps :
      (u : User) (input : ListingInput) → Keeps (Holds Q) (create_listing u input)
  unfolding create_listing core
  create_listing-Keeps u input = search (quiet_rules, Keeps-modify) depth 20

  pub cancel_listing-Keeps : (u : User) (id : ℕ) → Keeps (Holds Q) (cancel_listing u id)
  unfolding cancel_listing
  cancel_listing-Keeps u id = search quiet_rules depth 20

  pub buy_listing-Keeps : (u : User) (id : ℕ) → Keeps (Holds Q) (buy_listing u id)
  unfolding buy_listing
  buy_listing-Keeps u id = search (quiet_rules, pair) depth 20

  pub make_offer-Keeps :
      (u : User) (id : ℕ) (n : ℤ) (m : Text) → Keeps (Holds Q) (make_offer u id n m)
  unfolding make_offer core
  make_offer-Keeps u id n m = search (quiet_rules, Keeps-modify) depth 24

  touch_listing-Keeps : (l : Listing) → Keeps (Holds Q) (touch_listing l)
  unfolding touch_listing
  touch_listing-Keeps l = search quiet_rules depth 20

  sell_listing-Keeps :
      (l : Listing) (o : Offer) (t : Transaction) → Keeps (Holds Q) (sell_listing l o t)
  unfolding sell_listing
  sell_listing-Keeps l o t = search quiet_rules depth 20

  pub accept_offer-Keeps : (u : User) (id : ℕ) → Keeps (Holds Q) (accept_offer u id)
  unfolding accept_offer
  accept_offer-Keeps u id =
      search (quiet_rules, pair, touch_listing-Keeps, sell_listing-Keeps) depth 20

  pub decline_offer-Keeps : (u : User) (id : ℕ) → Keeps (Holds Q) (decline_offer u id)
  unfolding decline_offer
  decline_offer-Keeps u id = search quiet_rules depth 20

  pub withdraw_offer-Keeps : (u : User) (id : ℕ) → Keeps (Holds Q) (withdraw_offer u id)
  unfolding withdraw_offer
  withdraw_offer-Keeps u id = search quiet_rules depth 20

  pub add_user-Keeps : (n d p : Text) (r : Role) → Keeps (Holds Q) (add_user n d p r)
  unfolding add_user core
  add_user-Keeps n d p r = search (quiet_rules, Keeps-modify) depth 20

  pub provision-Keeps : (n d p h : Text) → Keeps (Holds Q) (provision n d p h)
  unfolding provision core
  provision-Keeps n d p h = search (keeps_rules, add_user-Keeps, Keeps-modify) depth 20

  pub set_user_status-Keeps :
      (u : User) (id : ℕ) (s : UserStatus) → Keeps (Holds Q) (set_user_status u id s)
  unfolding set_user_status
  set_user_status-Keeps u id s = search quiet_rules depth 20

  pub set_user_bio-Keeps : (u : User) (id : ℕ) (b : Text) → Keeps (Holds Q) (set_user_bio u id b)
  unfolding set_user_bio
  set_user_bio-Keeps u id b = search quiet_rules depth 20

  pub set_user_password-Keeps :
      (u : User) (id : ℕ) (p : Text) → Keeps (Holds Q) (set_user_password u id p)
  unfolding set_user_password
  set_user_password-Keeps u id p = search quiet_rules depth 20

  deliveries-Keeps :
      (id : TransactionId) (g : Fulfillment → Fulfillment)
      → Keeps (Holds Q) (
          modify λ (s : Ledger). record s {
            transactions = update (has_id id) (on_fulfillment g) s.transactions;
          })
  unfolding core
  deliveries-Keeps id g = Keeps-modify _ (λ s h.
      subst (λ b. Q (record (core s) { book = b }))
        (sym (facts-update (has_id id) g s.transactions)) h)

  pub set_fulfillment-Keeps :
      (u : User) (id : TransactionId) (a : FulfillmentAction) (r : Text)
      → Keeps (Holds Q) (set_fulfillment u id a r)
  unfolding set_fulfillment core
  set_fulfillment-Keeps u id a r = search (quiet_rules, deliveries-Keeps, Keeps-modify) depth 20
