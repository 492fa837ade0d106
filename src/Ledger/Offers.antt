-- ===== src/Ledger/Offers.antt =====
-- Offers on listings (`makeOffer`, `offerById`, `acceptOffer`, `declineOffer`, `withdrawOffer`).
use nanacoin.Prelude.{
  ℕ, ◌+◌, Bool, ◌&&◌, not, if◌then◌else◌, none, some, List, [], ◌∷◌, ◌++◌, find, any, update, ℤ,
  ◌==◌, Text,
}
use nanacoin.Exec.{Exec, ok, Fault, Code, pure, lift, gets, throw_if, modify, or_raise, ◌>>=◌, ◌>>◌}
use nanacoin.Model.{
  AccountId, same_account, User, Actor, Transaction, TransactionKind, Memo, is_labor, Listing,
  is_good_deed, is_open_listing, is_buy, Offer, OfferStatus, is_open_offer,
}
use nanacoin.Ledger.State.{Ledger, display_name_of, now, time_of, tick}
use nanacoin.Ledger.Append.{append}
use nanacoin.Ledger.Guards.{require_active, require_amount}
use nanacoin.Ledger.Transfers.{two_postings, owned_by_nana}
use nanacoin.Ledger.Market.{listing_by_id, update_listing, sale_options, sell_to}

abbrev pub has_offer_id : ℕ → Offer → Bool
has_offer_id id o = o.id == id

-- Whether an offer is an account's open offer on a listing.
abbrev pub is_open_on : ℕ → AccountId → Offer → Bool
is_open_on listing offerer o =
    o.listing == listing && (same_account o.offerer offerer && is_open_offer o.status)

unfoldable pub make_offer : User → ℕ → ℤ → Text → Exec Ledger Offer
unfolding ◌>>=◌
make_offer actor listing_id amount message = do
  require_active actor
  require_amount amount
  l ← listing_by_id listing_id
  throw_if (λ _. not (is_open_listing l.status)) (Fault.demo 409 Code.listing_closed)
  throw_if (λ _. same_account l.seller actor.account) (Fault.demo 400 Code.self_deal)
  throw_if (λ s. any (is_open_on listing_id actor.account) s.offers) (Fault.demo 409 Code.conflict)
  id ← gets (λ s. s.next_id)
  owner_name ← gets (λ s. display_name_of s l.seller)
  modify (λ s. record s { next_id = s.next_id + 1 })
  created ← now
  updated ← now
  let offer : Offer = record {
    id = id;
    listing = l.id;
    listing_title = l.title;
    listing_owner = l.seller;
    listing_owner_name = owner_name;
    listing_side = l.side;
    offerer = actor.account;
    offerer_name = actor.display_name;
    amount = amount;
    message = message;
    status = OfferStatus.open_offer;
    created_at = created;
    updated_at = updated;
    settled_tx = none;
  }
  modify (λ s. record s { offers = s.offers ++ offer ∷ [] })
  pure offer

unfoldable pub offer_by_id : ℕ → Exec Ledger Offer
unfolding ◌>>=◌
offer_by_id id = do
  found ← gets (λ s. find (has_offer_id id) s.offers)
  lift (or_raise found (Fault.demo 404 Code.not_found))

-- A write through the reference that `offerById` returned.
unfoldable pub update_offer : ℕ → (Offer → Offer) → Ledger → Ledger
update_offer id f s = record s { offers = update (has_offer_id id) f s.offers }

-- Which account pays for an accepted offer, and which is paid.
abbrev pub payer_of : Listing → Offer → AccountId
payer_of l o =
    if is_good_deed l.kind
    then AccountId.system_issuance
    else if is_buy l.side
    then l.seller
    else o.offerer

abbrev pub payee_of : Listing → Offer → AccountId
payee_of l o = if is_buy l.side then o.offerer else l.seller

abbrev pub buyer_of : Listing → Offer → AccountId
buyer_of l o = if is_buy l.side then l.seller else o.offerer

-- Another open offer on a listing that is sold.
abbrev pub is_rival : ℕ → ℕ → Offer → Bool
is_rival listing id o = o.listing == listing && (is_open_offer o.status && not (o.id == id))

-- The loop over `this.offers`: each rival takes one reading of the clock.
unfoldable pub close_rivals : ℕ → ℕ → List Offer → Ledger → List Offer × Ledger
close_rivals listing id [] s = ([], s)
close_rivals listing id (o ∷ os) s =
    let rival = is_rival listing id o in
    let (rest, s') = close_rivals listing id os (if rival then tick s else s) in
    (
      (if rival then record o { status = OfferStatus.not_selected; updated_at = time_of s } else o)
          ∷ rest,
      s',
    )

unfoldable pub reject_rivals : ℕ → ℕ → Exec Ledger (Unit {0})
unfolding close_rivals time_of tick
reject_rivals listing id s =
    let (offers', s') = close_rivals listing id s.offers s in
    (ok tt, record s' { offers = offers' })

abbrev pub accept_with : Transaction → ℕ → Offer → Offer
accept_with t at o = record o {
  status = OfferStatus.accepted;
  settled_tx = some t.id;
  updated_at = at;
}

-- `listing.updated_at = this.now()`: a good deed stays open.
unfoldable pub touch_listing : Listing → Exec Ledger Listing
unfolding ◌>>=◌
touch_listing l = do
  at ← now
  modify (update_listing l.id (λ (x : Listing). record x { updated_at = at }))
  pure (record l { updated_at = at })

-- Any other listing is sold, and every other open offer on it is over.
unfoldable pub sell_listing : Listing → Offer → Transaction → Exec Ledger Listing
unfolding ◌>>=◌
sell_listing l o t = do
  name ← gets (λ s. display_name_of s (buyer_of l o))
  at ← now
  modify (update_listing l.id (sell_to (buyer_of l o) name t at))
  reject_rivals l.id o.id
  pure (sell_to (buyer_of l o) name t at l)

unfoldable pub accept_offer : User → ℕ → Exec Ledger (Offer × Transaction × Listing)
unfolding ◌>>=◌
accept_offer actor id = do
  offer ← offer_by_id id
  listing ← listing_by_id offer.listing
  throw_if (λ _. not (same_account listing.seller actor.account)) (Fault.demo 403 Code.forbidden)
  throw_if (λ _. not (is_open_offer offer.status)) (Fault.demo 409 Code.offer_closed)
  throw_if (λ s. is_labor listing.economic_kind && owned_by_nana s (payee_of listing offer))
      (Fault.demo 403 Code.forbidden)
  t ←
      append (if is_good_deed listing.kind then TransactionKind.issue else TransactionKind.purchase)
        (Actor.by_user actor.id) (Memo.words listing.title)
        (two_postings (payer_of listing offer) (payee_of listing offer) offer.amount)
        (sale_options listing)
  at ← now
  modify (update_offer id (accept_with t at))
  listing' ←
      if is_good_deed listing.kind then touch_listing listing else sell_listing listing offer t
  pure (accept_with t at offer, t, listing')

-- An open offer ends without a deal.
abbrev pub end_offer : OfferStatus → ℕ → Offer → Offer
end_offer status at o = record o { status = status; updated_at = at }

unfoldable pub decline_offer : User → ℕ → Exec Ledger Offer
unfolding ◌>>=◌
decline_offer actor id = do
  offer ← offer_by_id id
  listing ← listing_by_id offer.listing
  throw_if (λ _. not (same_account listing.seller actor.account)) (Fault.demo 403 Code.forbidden)
  throw_if (λ _. not (is_open_offer offer.status)) (Fault.demo 409 Code.offer_closed)
  at ← now
  modify (update_offer id (end_offer OfferStatus.declined at))
  pure (end_offer OfferStatus.declined at offer)

unfoldable pub withdraw_offer : User → ℕ → Exec Ledger Offer
unfolding ◌>>=◌
withdraw_offer actor id = do
  offer ← offer_by_id id
  throw_if (λ _. not (same_account offer.offerer actor.account)) (Fault.demo 403 Code.forbidden)
  throw_if (λ _. not (is_open_offer offer.status)) (Fault.demo 409 Code.offer_closed)
  at ← now
  modify (update_offer id (end_offer OfferStatus.withdrawn at))
  pure (end_offer OfferStatus.withdrawn at offer)
