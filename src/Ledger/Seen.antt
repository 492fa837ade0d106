-- ===== src/Ledger/Seen.antt =====
-- The view of a member's open offers (`outstandingOffers` of nanacoin_ui/src/app/demo/ledger.ts).
use nanacoin.Prelude.{
  ℕ, ◌≤◌, ◌≡◌, ◌↔◌, true, false, ◌⊎◌, inl, inr, List, [], map, keep, arith, sym, ap, ◌∙◌,
  Bool-cases, if◌then◌else◌, some, Option-cases, subst,
}
use nanacoin.Prelude.Sorting.{Sorted, sort_by-Sorted}
use nanacoin.Prelude.Members.{In, In-keep, In-sort_by, In-map}
use nanacoin.Exec.{Result, ok}
use nanacoin.Model.{User, Offer, same_account, same_account_iff, is_open_offer}
use nanacoin.Ledger.State.{Ledger, user_by_id}
use nanacoin.Ledger.Views.{
  newer_offer, may_read, shown_offer, is_outstanding, outstanding_of, outstanding_in,
  outstanding_offers,
}
use nanacoin.Ledger.Readers.{
  MayRead, IsView, open_offer_iff, both_iff, is_open_id_iff, may_read_iff,
}

abbrev pub NotOlder : Offer → Offer → Type 0
NotOlder a b = b.created_at ≤ a.created_at

true_not_false : ¬ (true ≡ false)
true_not_false h = cc

module _ (s : Ledger) where
  shown_offer-note :
      (viewer : User) (o : Offer)
      → (MayRead s viewer o × (shown_offer s viewer o ≡ o))
        ⊎ (¬ MayRead s viewer o × (shown_offer s viewer o ≡ record o { message = [] }))
  shown_offer-note viewer o = elim (Bool-cases (may_read s viewer o)) [
    | inl e ↦
        inl ((may_read_iff s viewer o).0 e, ap (λ b. if b then o else record o { message = [] }) e)
    | inr e ↦ inr (
      (λ m. true_not_false (sym ((may_read_iff s viewer o).1 m) ∙ e)),
      ap (λ b. if b then o else record o { message = [] }) e,
    )
  ]

  shown_by_note :
      (viewer : User) (shown o : Offer)
      → (MayRead s viewer o × (shown ≡ o))
        ⊎ (¬ MayRead s viewer o × (shown ≡ record o { message = [] }))
      → shown ≡ shown_offer s viewer o
  shown_by_note viewer shown o (inl (may, e)) =
      e
      ∙ sym (ap (λ b. if b then o else record o { message = [] }) ((may_read_iff s viewer o).1 may))
  shown_by_note viewer shown o (inr (closed, e)) = elim (Bool-cases (may_read s viewer o)) [
    | inl readable ↦ absurd (closed ((may_read_iff s viewer o).0 readable))
    | inr hidden ↦ e ∙ sym (ap (λ b. if b then o else record o { message = [] }) hidden)
  ]

  module _ (viewer subject : User) where
    is_outstanding-IsView :
        (shown stored : Offer)
        → In stored (keep (is_outstanding s subject) s.offers)
        → shown ≡ shown_offer s viewer stored
        → IsView s viewer subject shown stored
    is_outstanding-IsView shown stored h e =
        let (known, test) = (In-keep (is_outstanding s subject) stored s.offers).0 h in
        let (made, more) = (both_iff (same_account stored.offerer subject.account) _).0 test in
        let (open_now, on) = (both_iff (is_open_offer stored.status) _).0 more in
        record {
          known = known;
          made = (same_account_iff stored.offerer subject.account).0 made;
          status = (open_offer_iff stored.status).0 open_now;
          on = (is_open_id_iff s stored.listing).0 on;
          note =
              subst
                (λ o.
                  (MayRead s viewer stored × (o ≡ stored))
                  ⊎ (¬ MayRead s viewer stored × (o ≡ record stored { message = [] })))
                (sym e) (shown_offer-note viewer stored);
        }

    viewed :
        (shown stored : Offer)
        → IsView s viewer subject shown stored
        → In stored (keep (is_outstanding s subject) s.offers)
    viewed shown stored v = (In-keep (is_outstanding s subject) stored s.offers).1 (
      v.known,
      (both_iff (same_account stored.offerer subject.account) _).1 (
        (same_account_iff stored.offerer subject.account).1 v.made,
        (both_iff (is_open_offer stored.status) _).1
            ((open_offer_iff stored.status).1 v.status, (is_open_id_iff s stored.listing).1 v.on),
      ),
    )

    abbrev pub kept_offers : List Offer
    kept_offers = keep (is_outstanding s subject) s.offers

    abbrev pub AreViews : List Offer → Type 0
    AreViews os =
        Sorted NotOlder os
        × ((shown : Offer)
            → In shown os ↔ ((stored : Offer) × IsView s viewer subject shown stored))

    outstanding_of-AreViews : AreViews (outstanding_of s viewer subject)
    outstanding_of-AreViews =
        let shown_all = map (shown_offer s viewer) kept_offers in
        (
          sort_by-Sorted newer_offer NotOlder (λ a b h. ground arith) (λ a b h. ground arith)
              shown_all,
          (λ shown. (
            (λ h.
                let (stored, m, e) =
                  (In-map (shown_offer s viewer) shown kept_offers).0
                    ((In-sort_by newer_offer shown shown_all).0 h) in
                (stored, is_outstanding-IsView shown stored m e)),
            (λ (stored, v). (In-sort_by newer_offer shown shown_all).1 (
                (In-map (shown_offer s viewer) shown kept_offers).1
                  (stored, viewed shown stored v, shown_by_note viewer shown stored v.note))),
          )),
        )

  ok_eq : (a b : List Offer) → Path (Result (List Offer)) (ok a) (ok b) → a ≡ b
  ok_eq a b h = cc

  -- Where a member's open offers are shown, the member is known, the newest offer comes first, and
  -- what is shown are exactly the views of those offers of the member that are stored and open and
  -- stand on an open listing: each with its note, where the viewer is Nana, made the offer or owns
  -- its listing, and without the note otherwise.
  pub outstanding_offers-AreViews :
      (viewer : User) (id : ℕ) (os : List Offer)
      → outstanding_offers s viewer id ≡ ok os
      → (subject : User) × (user_by_id s id ≡ some subject) × AreViews viewer subject os
  unfolding outstanding_offers
  outstanding_offers-AreViews viewer id os h = elim (Option-cases (user_by_id s id)) [
    | inl missing ↦ absurd (cc (h, missing))
    | inr (subject, found) ↦ (
      subject,
      found,
      subst (AreViews viewer subject)
          (ok_eq (outstanding_of s viewer subject) os
            (sym (ap (outstanding_in s viewer) found) ∙ h))
          (outstanding_of-AreViews viewer subject),
    )
  ]
