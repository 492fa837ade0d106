-- ===== src/Ledger/Catalog.antt =====
-- The view of the listings (`allListings` of nanacoin_ui/src/app/demo/ledger.ts).
use nanacoin.Prelude.{◌≤◌, ◌≡◌, ◌↔◌, refl, true, keep, arith, Option, none, some}
use nanacoin.Prelude.Sorting.{Sorted, sort_by-Sorted}
use nanacoin.Prelude.Members.{In, In-keep, In-sort_by}
use nanacoin.Model.{Listing, ListingStatus}
use nanacoin.Ledger.State.{Ledger}
use nanacoin.Ledger.Pages.{has_status, same_status, newer_listing, all_listings}

abbrev pub HasStatus : Option ListingStatus → Listing → Type 0
HasStatus none l = Unit
HasStatus (some st) l = l.status ≡ st

same_status_iff : (a b : ListingStatus) → (same_status a b ≡ true) ↔ (a ≡ b)
same_status_iff ListingStatus.active ListingStatus.active = (λ _. refl, λ _. refl)
same_status_iff ListingStatus.sold ListingStatus.sold = (λ _. refl, λ _. refl)
same_status_iff ListingStatus.cancelled ListingStatus.cancelled = (λ _. refl, λ _. refl)
same_status_iff ListingStatus.active ListingStatus.sold = (λ h. cc, λ h. cc)
same_status_iff ListingStatus.active ListingStatus.cancelled = (λ h. cc, λ h. cc)
same_status_iff ListingStatus.sold ListingStatus.active = (λ h. cc, λ h. cc)
same_status_iff ListingStatus.sold ListingStatus.cancelled = (λ h. cc, λ h. cc)
same_status_iff ListingStatus.cancelled ListingStatus.active = (λ h. cc, λ h. cc)
same_status_iff ListingStatus.cancelled ListingStatus.sold = (λ h. cc, λ h. cc)

has_status_iff :
    (st : Option ListingStatus) (l : Listing) → (has_status st l ≡ true) ↔ HasStatus st l
has_status_iff none l = (λ _. tt, λ _. refl)
has_status_iff (some st) l = same_status_iff l.status st

-- The listings that are shown are exactly those that are stored, of the status that is asked for or
-- of any status if none is, and the newest comes first.
pub all_listings-exact :
    (s : Ledger) (st : Option ListingStatus)
    → Sorted (λ (a b : Listing). b.created_at ≤ a.created_at) (all_listings s st)
      × ((l : Listing) → In l (all_listings s st) ↔ (In l s.listings × HasStatus st l))
unfolding all_listings
all_listings-exact s st = (
  sort_by-Sorted newer_listing (λ (a b : Listing). b.created_at ≤ a.created_at)
      (λ a b h. ground arith) (λ a b h. ground arith) (keep (has_status st) s.listings),
  (λ l. (
    (λ h.
        let (m, t) =
          (In-keep (has_status st) l s.listings).0
            ((In-sort_by newer_listing l (keep (has_status st) s.listings)).0 h) in
        (m, (has_status_iff st l).0 t)),
    (λ (m, t).
        (In-sort_by newer_listing l (keep (has_status st) s.listings)).1
          ((In-keep (has_status st) l s.listings).1 (m, (has_status_iff st l).1 t))),
  )),
)
