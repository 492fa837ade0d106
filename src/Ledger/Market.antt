-- ===== src/Ledger/Market.antt =====
-- The marketplace (`createListing`, `listingById`, `cancelListing`, `purchase`).
use nanacoin.Prelude.{
  ℕ, ◌+◌, Bool, false, ◌&&◌, ◌||◌, not, Option, none, some, or_else, truthy, [], ◌∷◌, ◌++◌, find,
  update, ℤ, ◌==◌, Text, codes, is_empty, trim, to_lower,
}
use nanacoin.Exec.{Exec, Fault, Code, pure, lift, gets, throw_if, modify, or_raise, ◌>>=◌, ◌>>◌}
use nanacoin.Model.{
  AccountId, same_account, User, Actor, is_nana, Transaction, TransactionKind, Memo, Reference,
  EconomicKind, EconomicUnit, is_labor, Listing, ListingSide, ListingKind, ListingStatus,
  is_good_deed, is_open_listing, is_buy,
}
use nanacoin.Ledger.State.{Ledger, now}
use nanacoin.Ledger.Delivery.{Options, no_options}
use nanacoin.Ledger.Append.{append}
use nanacoin.Ledger.Guards.{require_active, require_amount}
use nanacoin.Ledger.Transfers.{two_postings, owned_by_nana}

-- The `input` of `createListing`.
pub record ListingInput : Type 0 where
  pub title : Text
  pub description : Text
  pub price : ℤ
  pub side : Option ListingSide
  pub kind : Option ListingKind
  pub currency : Option Text
  pub minor_units : Option ℕ
  pub economic_kind : Option EconomicKind
  pub thing : Option Text
  pub quantity_milli : Option ℕ
  pub unit : Option EconomicUnit
  pub standard : Option Bool

abbrev pub wants : Option ListingSide → Bool
wants none = false
wants (some side) = is_buy side

abbrev pub has_text : Option Text → Bool
has_text none = false
has_text (some t) = not (is_empty t)

-- Who may post a good deed: Nana alone, as a want-ad paid in coins.
abbrev pub is_bad_deed : User → ListingInput → Bool
is_bad_deed actor input =
    is_good_deed input.kind
    && (not (is_nana actor.role)
        || (not (wants input.side) || (has_text input.currency || truthy input.minor_units)))

-- `thing-demo-${title}`, where the listing has an economic kind and names no thing.
abbrev pub default_thing : ListingInput → Option Text
default_thing input = elim input.thing [
  | some t ↦ some t
  | none ↦ elim input.economic_kind [
    | none ↦ none
    | some k ↦ some (codes "thing-demo-" ++ to_lower (trim input.title))
  ]
]

unfoldable pub create_listing : User → ListingInput → Exec Ledger Listing
unfolding ◌>>=◌
create_listing actor input = do
  require_active actor
  require_amount input.price
  throw_if (λ _. is_empty (trim input.title)) (Fault.demo 400 Code.bad_request)
  throw_if (λ _. not (wants input.side) && (is_labor input.economic_kind && is_nana actor.role))
      (Fault.demo 403 Code.forbidden)
  throw_if (λ _. is_bad_deed actor input) (Fault.demo 403 Code.forbidden)
  id ← gets (λ s. s.next_id)
  modify (λ s. record s { next_id = s.next_id + 1 })
  created ← now
  updated ← now
  let listing : Listing = record {
    id = id;
    seller = actor.account;
    seller_name = actor.display_name;
    title = trim input.title;
    description = trim input.description;
    price = input.price;
    status = ListingStatus.active;
    created_at = created;
    updated_at = updated;
    side = or_else input.side ListingSide.sell;
    kind = input.kind;
    currency = input.currency;
    minor_units = input.minor_units;
    economic_kind = input.economic_kind;
    thing = default_thing input;
    quantity_milli = input.quantity_milli;
    unit = input.unit;
    standard = input.standard;
    buyer = none;
    buyer_name = none;
    sold_tx = none;
  }
  modify (λ s. record s { listings = s.listings ++ listing ∷ [] })
  pure listing

abbrev pub has_listing_id : ℕ → Listing → Bool
has_listing_id id l = l.id == id

unfoldable pub listing_by_id : ℕ → Exec Ledger Listing
unfolding ◌>>=◌
listing_by_id id = do
  found ← gets (λ s. find (has_listing_id id) s.listings)
  lift (or_raise found (Fault.demo 404 Code.not_found))

-- A write through the reference that `listingById` returned.
unfoldable pub update_listing : ℕ → (Listing → Listing) → Ledger → Ledger
update_listing id f s = record s { listings = update (has_listing_id id) f s.listings }

unfoldable pub cancel_listing : User → ℕ → Exec Ledger Listing
unfolding ◌>>=◌
cancel_listing actor id = do
  l ← listing_by_id id
  throw_if (λ _. not (same_account l.seller actor.account) && not (is_nana actor.role))
      (Fault.demo 403 Code.forbidden)
  throw_if (λ _. not (is_open_listing l.status)) (Fault.demo 409 Code.listing_closed)
  at ← now
  let close = λ (l : Listing). record l { status = ListingStatus.cancelled; updated_at = at }
  modify (update_listing id close)
  pure (close l)

-- What a sale copies from its listing.
abbrev pub sale_options : Listing → Options
sale_options l = record no_options {
  reference = some (Reference.listing l.id);
  economic_kind = l.economic_kind;
  thing = l.thing;
  thing_name = some l.title;
  quantity_milli = l.quantity_milli;
  unit = l.unit;
}

abbrev pub sell_to : AccountId → Option Text → Transaction → ℕ → Listing → Listing
sell_to buyer name t at l = record l {
  status = ListingStatus.sold;
  buyer = some buyer;
  buyer_name = name;
  sold_tx = some t.id;
  updated_at = at;
}

unfoldable pub buy_listing : User → ℕ → Exec Ledger (Listing × Transaction)
unfolding ◌>>=◌
buy_listing actor id = do
  require_active actor
  l ← listing_by_id id
  throw_if (λ _. not (is_open_listing l.status)) (Fault.demo 409 Code.listing_closed)
  throw_if (λ _. same_account l.seller actor.account) (Fault.demo 400 Code.self_deal)
  throw_if (λ _. is_good_deed l.kind) (Fault.demo 403 Code.forbidden)
  throw_if (λ s. is_labor l.economic_kind && owned_by_nana s l.seller)
      (Fault.demo 403 Code.forbidden)
  t ←
      append TransactionKind.purchase (Actor.by_user actor.id) (Memo.words l.title)
        (two_postings actor.account l.seller l.price) (sale_options l)
  at ← now
  modify (update_listing id (sell_to actor.account (some actor.display_name) t at))
  pure (sell_to actor.account (some actor.display_name) t at l, t)
