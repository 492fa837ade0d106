-- ===== src/Ledger/Preserved/Gifts.antt =====
-- The methods of commerce.
use nanacoin.Prelude.{ℕ, ◌≡◌, false, Bool, Option, none, some, ℤ, Text, List, [], ◌∷◌}
use nanacoin.Exec.{modify}
use nanacoin.Exec.Keeps.{Keeps, Keeps-modify, keeps_rules}
use nanacoin.Model.{TransactionKind, Actor, Memo, Posting, AccountId, User, GiftRequest, Artwork}
use nanacoin.Ledger.State.{now}
use nanacoin.Ledger.Delivery.{Options}
use nanacoin.Ledger.Append.{append}
use nanacoin.Ledger.Core.{Core, core, Holds, now-Keeps}
use nanacoin.Ledger.Guards.{require_active, require_amount, require_user_account}
use nanacoin.Ledger.Commerce.{
  CommerceAction, require_member, is_past, next_sequence, on_requests, on_artworks, pay,
  add_request, request_by_id, end_request, give,
}
use nanacoin.Ledger.Art.{
  mint, art_by_id, buy, own_art, offer_art, hand_over, wear, run_command, command,
}

module _ (Q : Core → Type 0)
    (pair : (k : TransactionKind) (a : Actor) (m : Memo) (p q : Posting) (opts : Options)
      → opts.allow_overdraft ≡ false
      → Keeps (Holds Q) (append k a m (p ∷ q ∷ []) opts)) where
  clock-Keeps : Keeps (Holds Q) now
  clock-Keeps = now-Keeps Q

  require_amount-Keeps : (n : ℤ) → Keeps (Holds Q) (require_amount n)
  unfolding require_amount
  require_amount-Keeps n = search keeps_rules

  require_active-Keeps : (u : User) → Keeps (Holds Q) (require_active u)
  unfolding require_active
  require_active-Keeps u = search keeps_rules

  require_user_account-Keeps : (a : AccountId) → Keeps (Holds Q) (require_user_account a)
  unfolding require_user_account
  require_user_account-Keeps a = search keeps_rules

  require_member-Keeps : (id : ℕ) → Keeps (Holds Q) (require_member id)
  unfolding require_member
  require_member-Keeps id = search keeps_rules

  is_past-Keeps : (d : Option ℕ) → Keeps (Holds Q) (is_past d)
  unfolding is_past
  is_past-Keeps none = search keeps_rules
  is_past-Keeps (some d) = search (keeps_rules, clock-Keeps)

  next_sequence-Keeps : Keeps (Holds Q) next_sequence
  unfolding next_sequence core
  next_sequence-Keeps = search (keeps_rules, Keeps-modify)

  on_requests-Keeps :
      (f : List GiftRequest → List GiftRequest) → Keeps (Holds Q) (modify (on_requests f))
  unfolding on_requests core
  on_requests-Keeps f = Keeps-modify _ (λ s h. h)

  on_artworks-Keeps : (f : List Artwork → List Artwork) → Keeps (Holds Q) (modify (on_artworks f))
  unfolding on_artworks core
  on_artworks-Keeps f = Keeps-modify _ (λ s h. h)

  request_by_id-Keeps : (id : ℕ) → Keeps (Holds Q) (request_by_id id)
  unfolding request_by_id
  request_by_id-Keeps id = search keeps_rules

  art_by_id-Keeps : (id : ℕ) → Keeps (Holds Q) (art_by_id id)
  unfolding art_by_id
  art_by_id-Keeps id = search keeps_rules

  own_art-Keeps : (u : User) (id : ℕ) → Keeps (Holds Q) (own_art u id)
  unfolding own_art
  own_art-Keeps u id = search (keeps_rules, art_by_id-Keeps)

  pay-Keeps :
      (u : User) (to : AccountId) (n : ℤ) (k : TransactionKind) (m : Memo) (o : Options)
      → Keeps (Holds Q) (pay u to n k m o)
  unfolding pay
  pay-Keeps u to n k m o =
      search
        (keeps_rules, require_amount-Keeps, require_active-Keeps, require_user_account-Keeps, pair)
        depth 20

  ruleset gift_rules = (
    keeps_rules, clock-Keeps, require_member-Keeps, is_past-Keeps, next_sequence-Keeps,
    on_requests-Keeps, on_artworks-Keeps, request_by_id-Keeps, art_by_id-Keeps, own_art-Keeps,
    pay-Keeps,
  )

  add_request-Keeps :
      (u : User) (t d : Text) (n : Option ℤ) (l : Option ℕ)
      → Keeps (Holds Q) (add_request u t d n l)
  unfolding add_request
  add_request-Keeps u t d n l = search gift_rules depth 24

  end_request-Keeps : (u : User) (id : ℕ) → Keeps (Holds Q) (end_request u id)
  unfolding end_request
  end_request-Keeps u id = search gift_rules depth 20

  give-Keeps : (u : User) (id : ℕ) (n : ℤ) (m : Text) → Keeps (Holds Q) (give u id n m)
  unfolding give
  give-Keeps u id n m = search gift_rules depth 24

  mint-Keeps : (u : User) (t l d p : Text) → Keeps (Holds Q) (mint u t l d p)
  unfolding mint
  mint-Keeps u t l d p = search gift_rules depth 20

  buy-Keeps : (u : User) (id o r : ℕ) (p : ℤ) → Keeps (Holds Q) (buy u id o r p)
  unfolding buy
  buy-Keeps u id o r p = search gift_rules depth 20

  offer_art-Keeps : (u : User) (id : ℕ) (p : Option ℤ) → Keeps (Holds Q) (offer_art u id p)
  unfolding offer_art
  offer_art-Keeps u id p = search gift_rules depth 20

  hand_over-Keeps : (u : User) (id to : ℕ) → Keeps (Holds Q) (hand_over u id to)
  unfolding hand_over
  hand_over-Keeps u id to = search gift_rules depth 20

  wear-Keeps : (u : User) (id : ℕ) (e : Bool) → Keeps (Holds Q) (wear u id e)
  unfolding wear
  wear-Keeps u id e = search gift_rules depth 20

  run_command-Keeps : (u : User) (a : CommerceAction) → Keeps (Holds Q) (run_command u a)
  unfolding run_command
  run_command-Keeps u (CommerceAction.create_request t d n l) = add_request-Keeps u t d n l
  run_command-Keeps u (CommerceAction.close_request id) = end_request-Keeps u id
  run_command-Keeps u (CommerceAction.contribute id n m) = give-Keeps u id n m
  run_command-Keeps u (CommerceAction.mint_art t l d p) = mint-Keeps u t l d p
  run_command-Keeps u (CommerceAction.list_art id p) = offer_art-Keeps u id p
  run_command-Keeps u (CommerceAction.buy_art id o r p) = buy-Keeps u id o r p
  run_command-Keeps u (CommerceAction.gift_art id to) = hand_over-Keeps u id to
  run_command-Keeps u (CommerceAction.equip_art id e) = wear-Keeps u id e

  pub command-Keeps : (u : User) (a : CommerceAction) → Keeps (Holds Q) (command u a)
  unfolding command
  command-Keeps u a = search (keeps_rules, require_member-Keeps, run_command-Keeps)
