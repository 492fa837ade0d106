-- ===== src/Ledger/Commerce.antt =====
-- Gift requests and digital art (`DemoCommerce.command` of nanacoin_ui/src/app/demo/commerce.ts),
-- on the ledger that hosts them: `user`, `now`, `sequence` and `pay` are those that
-- nanacoin_ui/src/app/demo/ledger.ts passes in.
use nanacoin.Prelude.{
  ℕ, ◌+◌, Bool, true, false, ◌&&◌, ◌||◌, not, if◌then◌else◌, Option, none, some, List, [], ◌∷◌,
  ◌++◌, length, find, update, ℤ, pos, ◌+ℤ◌, ltb_ℤ, leb_ℤ, ltb, leb, ◌==◌, Text, is_empty, trim,
  byte_length, has_control,
}
use nanacoin.Exec.{Exec, Fault, pure, lift, gets, throw_if, modify, or_raise, ◌>>=◌, ◌>>◌}
use nanacoin.Model.{
  AccountId, User, is_active, Actor, Transaction, TransactionKind, Memo, EconomicKind, EconomicUnit,
  GiftRequest, Artwork,
}
use nanacoin.Ledger.State.{Ledger, user_by_id, now}
use nanacoin.Ledger.Delivery.{Options, no_options}
use nanacoin.Ledger.Append.{append}
use nanacoin.Ledger.Guards.{
  max_money, max_safe_integer, is_safe_integer, require_active, require_amount,
  require_user_account,
}
use nanacoin.Ledger.Transfers.{two_postings}

-- `type CommerceAction`
pub data CommerceAction : Type 0 where
  create_request : Text → Text → Option ℤ → Option ℕ → CommerceAction
  close_request : ℕ → CommerceAction
  contribute : ℕ → ℤ → Text → CommerceAction
  mint_art : Text → Text → Text → Text → CommerceAction
  list_art : ℕ → Option ℤ → CommerceAction
  buy_art : ℕ → ℕ → ℕ → ℤ → CommerceAction
  gift_art : ℕ → ℕ → CommerceAction
  equip_art : ℕ → Bool → CommerceAction

-- `active(id)`
abbrev active_user : Option User → Option User
active_user none = none
active_user (some u) = if is_active u.status then some u else none

unfoldable pub require_member : ℕ → Exec Ledger User
unfolding ◌>>=◌
require_member id = do
  found ← gets (λ s. user_by_id s id)
  lift (or_raise (active_user found) Fault.plain)

-- `amount(n)` and `text(s, max, required)`
abbrev pub is_bad_amount : ℤ → Bool
is_bad_amount n = not (is_safe_integer n) || (leb_ℤ n (pos 0) || ltb_ℤ (pos max_money) n)

abbrev pub is_bad_price : Option ℤ → Bool
is_bad_price none = false
is_bad_price (some n) = is_bad_amount n

abbrev pub is_bad_text : Text → ℕ → Bool → Bool
is_bad_text s most required =
    (required && is_empty (trim s)) || (ltb most (byte_length s) || has_control s)

-- Whether a deadline has passed: the clock is read only where there is one.
unfoldable pub is_past : Option ℕ → Exec Ledger Bool
unfolding ◌>>=◌
is_past none = pure false
is_past (some d) = do at ← now; pure (leb d at)

-- `sequence()`: `++this.revision`
unfoldable pub next_sequence : Exec Ledger ℕ
unfolding ◌>>=◌
next_sequence = do modify (λ s. record s { revision = s.revision + 1 }); gets (λ s. s.revision)

unfoldable pub on_requests : (List GiftRequest → List GiftRequest) → Ledger → Ledger
on_requests f s = record s { commerce = record s.commerce { requests = f s.commerce.requests } }

unfoldable pub on_artworks : (List Artwork → List Artwork) → Ledger → Ledger
on_artworks f s = record s { commerce = record s.commerce { artworks = f s.commerce.artworks } }

abbrev pub has_request_id : ℕ → GiftRequest → Bool
has_request_id id r = r.id == id

abbrev pub has_art_id : ℕ → Artwork → Bool
has_art_id id a = a.id == id

-- `pay(actor, to, amount, memo, reference)`, for a gift or for an artwork.
unfoldable pub pay :
    User → AccountId → ℤ → TransactionKind → Memo → Options → Exec Ledger Transaction
unfolding ◌>>=◌
pay user to amount kind memo opts = do
  require_active user
  require_user_account to
  require_amount amount
  append kind (Actor.by_user user.id) memo (two_postings user.account to amount) (record opts {
    allow_overdraft = false;
    quantity_milli = some 1000;
    unit = some EconomicUnit.each;
  })

abbrev pub is_bad_deadline : Option ℕ → Bool
is_bad_deadline none = false
is_bad_deadline (some d) = ltb max_safe_integer d

unfoldable pub add_request : User → Text → Text → Option ℤ → Option ℕ → Exec Ledger ℕ
unfolding ◌>>=◌
add_request user title description target deadline = do
  throw_if (λ _. is_bad_text title 80 true || is_bad_text description 96 false) Fault.plain
  throw_if (λ _. is_bad_price target) Fault.plain
  throw_if (λ _. is_bad_deadline deadline) Fault.plain
  past ← is_past deadline
  throw_if (λ _. past) Fault.plain
  throw_if (λ s. leb 32 (length s.commerce.requests)) Fault.plain
  created ← now
  id ← next_sequence
  let r : GiftRequest = record {
    id = id;
    owner = user.id;
    title = title;
    description = description;
    target = target;
    deadline = deadline;
    received = pos 0;
    closed = false;
    created_at = created;
  }
  modify (on_requests (λ rs. rs ++ r ∷ []))
  pure id

unfoldable pub request_by_id : ℕ → Exec Ledger GiftRequest
unfolding ◌>>=◌
request_by_id id = do
  found ← gets (λ s. find (has_request_id id) s.commerce.requests)
  lift (or_raise found Fault.plain)

unfoldable pub end_request : User → ℕ → Exec Ledger ℕ
unfolding ◌>>=◌
end_request user id = do
  r ← request_by_id id
  throw_if (λ _. not (r.owner == user.id) || r.closed) Fault.plain
  sequence ← next_sequence
  modify
      (on_requests (update (has_request_id id) (λ (x : GiftRequest). record x { closed = true })))
  pure sequence

abbrev pub receive : ℤ → GiftRequest → GiftRequest
receive amount r = record r { received = r.received +ℤ amount }

unfoldable pub give : User → ℕ → ℤ → Text → Exec Ledger ℕ
unfolding ◌>>=◌
give user id amount memo = do
  r ← request_by_id id
  throw_if (λ _. is_bad_amount amount || is_bad_text memo 96 false) Fault.plain
  throw_if (λ _. r.closed) Fault.plain
  past ← is_past r.deadline
  throw_if (λ _. past || r.owner == user.id) Fault.plain
  to ← require_member r.owner
  throw_if (λ _. not (is_safe_integer (r.received +ℤ amount))) Fault.plain
  pay user to.account amount TransactionKind.transfer
      (Memo.words (if is_empty memo then r.title else memo))
      (record no_options { gift_request = some r.id; economic_kind = some EconomicKind.gift })
  sequence ← next_sequence
  modify (on_requests (update (has_request_id id) (receive amount)))
  pure sequence
