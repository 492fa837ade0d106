-- ===== src/Ledger/Art.antt =====
-- Digital art, and the commands of commerce in one (`DemoCommerce.command` of
-- nanacoin_ui/src/app/demo/commerce.ts).
use nanacoin.Prelude.{
  ℕ, Bool, true, false, ◌&&◌, ◌||◌, not, if◌then◌else◌, Option, none, some, List, [], ◌∷◌, ◌++◌,
  length, find, map, all, take, update, ℤ, eqb_ℤ, leb, ◌==◌, Text, codes, same_text,
}
use nanacoin.Exec.{Exec, Fault, pure, lift, gets, throw_if, modify, or_raise, ◌>>=◌, ◌>>◌}
use nanacoin.Model.{User, TransactionKind, Memo, EconomicKind, Artwork}
use nanacoin.Ledger.State.{Ledger, now}
use nanacoin.Ledger.Delivery.{no_options}
use nanacoin.Ledger.Commerce.{
  CommerceAction, require_member, is_bad_text, is_bad_price, next_sequence, on_artworks, has_art_id,
  pay, add_request, end_request, give,
}

abbrev is_hex_letter : ℕ → Bool
is_hex_letter c =
    (leb b'0' c && leb c b'9') || ((leb b'a' c && leb c b'f') || (leb b'A' c && leb c b'F'))

abbrev pub is_digest : Text → Bool
is_digest s = length s == 64 && all is_hex_letter s

abbrev pub is_https : Text → Bool
is_https s = same_text (take 8 s) (codes "https://")

unfoldable pub mint : User → Text → Text → Text → Text → Exec Ledger ℕ
unfolding ◌>>=◌
mint user title license sha256 locator = do
  throw_if
      (λ _.
        is_bad_text title 80 true || (is_bad_text license 96 true || is_bad_text locator 192 true))
      Fault.plain
  throw_if (λ _. not (is_digest sha256) || not (is_https locator)) Fault.plain
  throw_if (λ s. leb 64 (length s.commerce.artworks)) Fault.plain
  created ← now
  id ← next_sequence
  let art : Artwork = record {
    id = id;
    creator = user.id;
    owner = user.id;
    title = title;
    license = license;
    sha256 = sha256;
    locator = locator;
    price = none;
    revision = id;
    equipped = false;
    created_at = created;
  }
  modify (on_artworks (λ works. works ++ art ∷ []))
  pure id

unfoldable pub art_by_id : ℕ → Exec Ledger Artwork
unfolding ◌>>=◌
art_by_id id = do
  found ← gets (λ s. find (has_art_id id) s.commerce.artworks)
  lift (or_raise found Fault.plain)

-- The artwork in new hands.
abbrev pub given_to : ℕ → ℕ → Artwork → Artwork
given_to owner sequence a = record a {
  owner = owner;
  price = none;
  equipped = false;
  revision = sequence;
}

abbrev pub is_price : ℤ → Option ℤ → Bool
is_price n none = false
is_price n (some m) = eqb_ℤ n m

-- A purchase names the owner, the revision and the price that the buyer was shown.
unfoldable pub buy : User → ℕ → ℕ → ℕ → ℤ → Exec Ledger ℕ
unfolding ◌>>=◌
buy user id expected_owner expected_revision expected_price = do
  a ← art_by_id id
  throw_if
      (λ _.
        a.owner == user.id
        || (not (expected_owner == a.owner)
            || (not (expected_revision == a.revision) || not (is_price expected_price a.price))))
      Fault.plain
  seller ← require_member a.owner
  pay user seller.account expected_price TransactionKind.purchase (Memo.digital_art a.title)
      (record no_options { art = some a.id; economic_kind = some EconomicKind.good })
  sequence ← next_sequence
  modify (on_artworks (update (has_art_id id) (given_to user.id sequence)))
  pure sequence

-- The artwork, if it is the member's own.
unfoldable pub own_art : User → ℕ → Exec Ledger Artwork
unfolding ◌>>=◌ art_by_id
own_art user id = do a ← art_by_id id; throw_if (λ _. not (a.owner == user.id)) Fault.plain; pure a

unfoldable pub offer_art : User → ℕ → Option ℤ → Exec Ledger ℕ
unfolding ◌>>=◌
offer_art user id price = do
  own_art user id
  throw_if (λ _. is_bad_price price) Fault.plain
  sequence ← next_sequence
  modify (
      on_artworks
        (update (has_art_id id) (λ (a : Artwork). record a { price = price; revision = sequence })))
  pure sequence

unfoldable pub hand_over : User → ℕ → ℕ → Exec Ledger ℕ
unfolding ◌>>=◌
hand_over user id to = do
  own_art user id
  require_member to
  throw_if (λ _. to == user.id) Fault.plain
  sequence ← next_sequence
  modify (on_artworks (update (has_art_id id) (given_to to sequence)))
  pure sequence

-- A member shows one artwork at most.
abbrev pub unequip : ℕ → Artwork → Artwork
unequip owner a = if a.owner == owner then record a { equipped = false } else a

abbrev pub equip : ℕ → ℕ → Bool → ℕ → List Artwork → List Artwork
equip owner id equipped sequence works =
    update (has_art_id id) (λ (a : Artwork). record a { equipped = equipped; revision = sequence })
      (if equipped then map (unequip owner) works else works)

unfoldable pub wear : User → ℕ → Bool → Exec Ledger ℕ
unfolding ◌>>=◌
wear user id equipped = do
  own_art user id
  sequence ← next_sequence
  modify (on_artworks (equip user.id id equipped sequence))
  pure sequence

unfoldable pub run_command : User → CommerceAction → Exec Ledger ℕ
run_command u (CommerceAction.create_request t d n l) = add_request u t d n l
run_command u (CommerceAction.close_request id) = end_request u id
run_command u (CommerceAction.contribute id n m) = give u id n m
run_command u (CommerceAction.mint_art t l d p) = mint u t l d p
run_command u (CommerceAction.list_art id p) = offer_art u id p
run_command u (CommerceAction.buy_art id o r p) = buy u id o r p
run_command u (CommerceAction.gift_art id to) = hand_over u id to
run_command u (CommerceAction.equip_art id e) = wear u id e

-- `command(actor, action)`, with the sequence number that it returns.
unfoldable pub command : User → CommerceAction → Exec Ledger ℕ
unfolding ◌>>=◌
command actor action = do user ← require_member actor.id; run_command user action
