-- ===== src/Ledger/Readers.antt =====
-- Which offers a viewer is shown, and who reads their notes, told without the tests of the code
-- (`outstandingOffers` of nanacoin_ui/src/app/demo/ledger.ts).
use nanacoin.Prelude.{
  ℕ, ◌≡◌, ◌↔◌, refl, true, false, Bool, ◌⊎◌, ◌&&◌, ◌||◌, ◌==◌, inl, inr, [], arith,
}
use nanacoin.Prelude.Members.{In, any-In}
use nanacoin.Model.{
  Listing, ListingStatus, User, Role, is_nana, Offer, OfferStatus, AccountId, same_account,
  same_account_iff, is_open_offer, is_open_listing,
}
use nanacoin.Ledger.State.{Ledger}
use nanacoin.Ledger.Views.{may_read, owns_listing, is_open_id}

-- Who may read the note of an offer: Nana, the member who made it, and the owner of its listing.
abbrev pub MayRead : Ledger → User → Offer → Type 0
MayRead s viewer o =
    (viewer.role ≡ Role.nana)
    ⊎ ((o.offerer ≡ viewer.account)
        ⊎ ((l : Listing) × In l s.listings × (l.id ≡ o.listing) × (l.seller ≡ viewer.account)))

-- `shown` is what the viewer sees of an offer of the subject that is stored and open, on a listing
-- that is open.
pub record IsView (s : Ledger) (viewer subject : User) (shown stored : Offer) : Type 0 where
  pub known : In stored s.offers
  pub made : stored.offerer ≡ subject.account
  pub status : stored.status ≡ OfferStatus.open_offer
  pub on :
      (l : Listing) × In l s.listings × (l.id ≡ stored.listing) × (l.status ≡ ListingStatus.active)
  pub note :
      (MayRead s viewer stored × (shown ≡ stored))
      ⊎ (¬ MayRead s viewer stored × (shown ≡ record stored { message = [] }))

pub open_offer_iff : (st : OfferStatus) → (is_open_offer st ≡ true) ↔ (st ≡ OfferStatus.open_offer)
open_offer_iff OfferStatus.open_offer = (λ _. refl, λ _. refl)
open_offer_iff OfferStatus.accepted = (λ h. cc, λ h. cc)
open_offer_iff OfferStatus.declined = (λ h. cc, λ h. cc)
open_offer_iff OfferStatus.not_selected = (λ h. cc, λ h. cc)
open_offer_iff OfferStatus.withdrawn = (λ h. cc, λ h. cc)

open_listing_iff : (st : ListingStatus) → (is_open_listing st ≡ true) ↔ (st ≡ ListingStatus.active)
open_listing_iff ListingStatus.active = (λ _. refl, λ _. refl)
open_listing_iff ListingStatus.sold = (λ h. cc, λ h. cc)
open_listing_iff ListingStatus.cancelled = (λ h. cc, λ h. cc)

nana_iff : (r : Role) → (is_nana r ≡ true) ↔ (r ≡ Role.nana)
nana_iff Role.nana = (λ _. refl, λ _. refl)
nana_iff Role.user = (λ h. cc, λ h. cc)

same_number : (a b : ℕ) → ((a == b) ≡ true) ↔ (a ≡ b)
same_number a b = ground arith

pub both_iff : (b c : Bool) → ((b && c) ≡ true) ↔ ((b ≡ true) × (c ≡ true))
both_iff b c = ground arith

either_iff : (b c : Bool) → ((b || c) ≡ true) ↔ ((b ≡ true) ⊎ (c ≡ true))
either_iff true c = (λ _. inl refl, λ _. refl)
either_iff false c = (λ h. inr h, λ h. elim h [ inl e ↦ cc | inr e ↦ e ])

module _ (s : Ledger) where
  owns_listing_iff :
      (a : AccountId) (id : ℕ)
      → (owns_listing s a id ≡ true)
        ↔ ((l : Listing) × In l s.listings × (l.id ≡ id) × (l.seller ≡ a))
  owns_listing_iff a id = (
    λ h.
        let (l, m, t) = (any-In _ s.listings).0 h in
        let (i, o) = (both_iff (l.id == id) _).0 t in
        (l, m, (same_number l.id id).0 i, (same_account_iff l.seller a).0 o),
    λ (l, m, i, o). (any-In _ s.listings).1 (
      l,
      m,
      (both_iff (l.id == id) _).1 ((same_number l.id id).1 i, (same_account_iff l.seller a).1 o),
    ),
  )

  pub is_open_id_iff :
      (id : ℕ)
      → (is_open_id s id ≡ true)
        ↔ ((l : Listing) × In l s.listings × (l.id ≡ id) × (l.status ≡ ListingStatus.active))
  is_open_id_iff id = (
    λ h.
        let (l, m, t) = (any-In _ s.listings).0 h in
        let (i, o) = (both_iff (l.id == id) _).0 t in
        (l, m, (same_number l.id id).0 i, (open_listing_iff l.status).0 o),
    λ (l, m, i, o). (any-In _ s.listings).1 (
      l,
      m,
      (both_iff (l.id == id) _).1 ((same_number l.id id).1 i, (open_listing_iff l.status).1 o),
    ),
  )

  pub may_read_iff : (viewer : User) (o : Offer) → (may_read s viewer o ≡ true) ↔ MayRead s viewer o
  may_read_iff viewer o = (
    λ h. elim ((either_iff (is_nana viewer.role) _).0 h) [
      | inl e ↦ inl ((nana_iff viewer.role).0 e)
      | inr f ↦ elim ((either_iff (same_account o.offerer viewer.account) _).0 f) [
        | inl e ↦ inr (inl ((same_account_iff o.offerer viewer.account).0 e))
        | inr e ↦ inr (inr ((owns_listing_iff viewer.account o.listing).0 e))
      ]
    ],
    λ h. (either_iff (is_nana viewer.role) _).1 (elim h [
      | inl e ↦ inl ((nana_iff viewer.role).1 e)
      | inr f ↦ inr (
          (either_iff (same_account o.offerer viewer.account) _).1 (elim f [
            | inl e ↦ inl ((same_account_iff o.offerer viewer.account).1 e)
            | inr e ↦ inr ((owns_listing_iff viewer.account o.listing).1 e)
          ]))
    ]),
  )
