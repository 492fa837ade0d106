-- ===== src/Ledger/Sold.antt =====
-- A sale closes its listing (`purchase` of nanacoin_ui/src/app/demo/ledger.ts).
use nanacoin.Prelude.{
  ℕ, ◌≡◌, refl, ◌∙◌, true, false, Bool, ◌⊎◌, some, find, not, find-holds, find-update, arith,
}
use nanacoin.Exec.{Exec, Result, ok, Fault, Code, ◌>>=◌, ◌>>◌, pure, modify}
use nanacoin.Exec.Atomic.{
  Atomic, IsRefused, IsDone, Atomic-check, Atomic-throw_if, Atomic-last, Atomic-found,
}
use nanacoin.Model.{
  User, Transaction, TransactionKind, Actor, Memo, Listing, ListingStatus, is_open_listing,
  AccountId, same_account,
}
use nanacoin.Ledger.State.{Ledger, balance_of, now, tick, time_of}
use nanacoin.Ledger.Append.{append}
use nanacoin.Ledger.Transfers.{two_postings}
use nanacoin.Ledger.Market.{
  has_listing_id, listing_by_id, update_listing, sale_options, sell_to, buy_listing,
}
use nanacoin.Ledger.Outcome.{append-outcome, require_active-Checks}
use nanacoin.Ledger.Book.{Appended}
use nanacoin.Ledger.Balances.{IsCurrent}
use nanacoin.Ledger.Moves.{IsMove, IsFunded, IsPaid, Appended-IsPaid}

tick-listings : (s : Ledger) → (tick s).listings ≡ s.listings
unfolding tick
tick-listings s = ground arith

pub tick-transactions : (s : Ledger) → (tick s).transactions ≡ s.transactions
unfolding tick
tick-transactions s = ground arith

tick-epoch_exponents : (s : Ledger) → (tick s).epoch_exponents ≡ s.epoch_exponents
unfolding tick
tick-epoch_exponents s = ground arith

-- The listing `l` was open and found by `id`, and is sold to `buyer` in `s'`.
pub record IsSold (buyer : AccountId) (id : ℕ) (s s' : Ledger) (l : Listing) : Type 0 where
  pub found : find (has_listing_id id) s.listings ≡ some l
  pub was_open : is_open_listing l.status ≡ true
  pub not_own : same_account l.seller buyer ≡ false
  pub sold : Listing
  pub after : find (has_listing_id id) s'.listings ≡ some sold
  pub status : sold.status ≡ ListingStatus.sold
  pub bought_by : sold.buyer ≡ some buyer

module _ (u : User) (id : ℕ) where
  -- What follows the payment.
  close : Listing → Transaction → Exec Ledger (Listing × Transaction)
  close l t = now >>= λ at.
      modify (update_listing id (sell_to u.account (some u.display_name) t at))
      >> pure (sell_to u.account (some u.display_name) t at l, t)

  close-balance_of :
      (l : Listing) (t : Transaction) (s : Ledger) (x : AccountId)
      → balance_of (close l t s).1 x ≡ balance_of s x
  unfolding close ◌>>=◌ now update_listing balance_of
  close-balance_of l t s x = rw (tick-transactions s) (rw (tick-epoch_exponents s) refl)

  close-IsSold :
      (l : Listing) (t : Transaction) (s s' : Ledger)
      → find (has_listing_id id) s.listings ≡ some l
      → is_open_listing l.status ≡ true
      → same_account l.seller u.account ≡ false
      → s'.listings ≡ s.listings
      → IsSold u.account id s (close l t s').1 l
  unfolding close ◌>>=◌ now update_listing
  close-IsSold l t s s' found was_open not_own same = record {
    found = found;
    was_open = was_open;
    not_own = not_own;
    sold = sell_to u.account (some u.display_name) t (time_of s') l;
    after = rw (tick-listings s') (
        rw same (
          find-update (has_listing_id id) (sell_to u.account (some u.display_name) t (time_of s'))
            s.listings l found (find-holds (has_listing_id id) s.listings l found)));
    status = refl;
    bought_by = refl;
  }

  -- A purchase that was made: the price has moved and the listing is sold.
  abbrev pub IsPurchase : Ledger → Result (Listing × Transaction) × Ledger → Type 0
  IsPurchase s r =
      (l : Listing) × (IsSold u.account id s r.1 l × IsPaid u.account l.seller l.price s r)

  Atomic-listing :
      {B : Type 0} {Post : Result B × Ledger → Type 0} (s : Ledger) (k : Listing → Exec Ledger B)
      → ((l : Listing) → find (has_listing_id id) s.listings ≡ some l → Atomic Post s (k l))
      → Atomic Post s (listing_by_id id >>= k)
  unfolding listing_by_id ◌>>=◌
  Atomic-listing s k h = record {
    ends =
        (Atomic-found s k (find (has_listing_id id) s.listings) (Fault.demo 404 Code.not_found)
          h).ends;
  }

  close-IsDone : (l : Listing) (t : Transaction) (s : Ledger) → IsDone (close l t s).0
  unfolding close ◌>>=◌ now
  close-IsDone l t s = (_, refl)

  close-IsPaid :
      (s s' : Ledger) (l : Listing) (t : Transaction)
      → IsFunded s u.account l.price
      → IsMove u.account l.seller l.price s s'
      → IsPaid u.account l.seller l.price s (close l t s')
  close-IsPaid s s' l t funded moved =
      (close-IsDone l t s', (funded, (λ x. close-balance_of l t s' x ∙ moved x)))

  paid :
      (s s' : Ledger) (l : Listing) (t : Transaction)
      → IsCurrent s
      → Appended TransactionKind.purchase
          (Actor.by_user u.id)
          (Memo.words l.title)
          (two_postings u.account l.seller l.price)
          (sale_options l)
          s
          s'
      → IsPaid u.account l.seller l.price s (close l t s')
  paid s s' l t current d =
      let (done, (funded, moved)) =
        Appended-IsPaid TransactionKind.purchase (Actor.by_user u.id) (Memo.words l.title) u.account
          l.seller l.price (sale_options l) s (ok t, s') current refl (t, refl) d in
      close-IsPaid s s' l t funded moved

  -- The payment for `l` and what follows.
  settle-Atomic :
      (s : Ledger) (l : Listing)
      → IsCurrent s
      → find (has_listing_id id) s.listings ≡ some l
      → is_open_listing l.status ≡ true
      → same_account l.seller u.account ≡ false
      → Atomic (IsPurchase s) s (
          append TransactionKind.purchase
            (Actor.by_user u.id)
            (Memo.words l.title)
            (two_postings u.account l.seller l.price)
            (sale_options l)
          >>= close l)
  settle-Atomic s l current found was_open not_own =
      Atomic-last (IsPurchase s) s (close l)
        (λ s'.
          Appended TransactionKind.purchase (Actor.by_user u.id) (Memo.words l.title)
            (two_postings u.account l.seller l.price) (sale_options l) s s')
        (append TransactionKind.purchase (Actor.by_user u.id) (Memo.words l.title)
          (two_postings u.account l.seller l.price) (sale_options l))
        (append-outcome _ _ _ _ _ s refl)
        (λ t s' d. (
          l,
          (
            close-IsSold l t s s' found was_open not_own d.extends.frame.listings,
            paid s s' l t current d,
          ),
        ))

  not-open : (b : Bool) → not b ≡ false → b ≡ true
  not-open b h = ground arith

  buy_listing-Atomic : (s : Ledger) → IsCurrent s → Atomic (IsPurchase s) s (buy_listing u id)
  unfolding buy_listing close
  buy_listing-Atomic s current =
      search
        (
          Atomic-check, Atomic-listing, Atomic-throw_if, require_active-Checks, settle-Atomic,
          not-open,
        )
        depth 20

  -- A purchase is refused and nothing changes, or it found an open listing of somebody else, the
  -- buyer had the price and exactly that moved to the seller, and the listing found under the id
  -- is now sold to the buyer. The units of today have to be those of the epoch.
  pub buy_listing-sells :
      (s : Ledger)
      → IsCurrent s
      → IsRefused s (buy_listing u id s) ⊎ IsPurchase s (buy_listing u id s)
  buy_listing-sells s current = (buy_listing-Atomic s current).ends
