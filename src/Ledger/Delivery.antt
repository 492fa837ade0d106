-- ===== src/Ledger/Delivery.antt =====
-- Delivery records (`fulfillment`): `append` starts one for a sale and closes the one of a payment
-- that is given back in full (nanacoin_ui/src/app/demo/ledger.ts, `append`).
use nanacoin.Prelude.{
  ℕ, Bool, true, false, ◌&&◌, ◌||◌, not, if◌then◌else◌, Option, none, some, or_else, truthy, List,
  [], ◌∷◌, ◌++◌, find, update, take_last, ℤ, pos, ◌+ℤ◌, ltb_ℤ, eqb_ℤ, Text, ◌==◌,
}
use nanacoin.Model.{
  User, Actor, Party, PartyName, Transaction, TransactionId, TransactionKind, Posting, Memo,
  Reference, EconomicKind, EconomicUnit, is_labor, is_good, is_reversal, is_purchase, Fulfillment,
  FulfillmentStatus, FulfillmentKind, Update, UpdateId, Listing, ListingKind,
}
use nanacoin.Ledger.State.{
  Ledger, original_amount, refunded, find_transaction, has_id, display_name_of,
}

-- The `opts` of `append`.
pub record Options : Type 0 where
  pub allow_overdraft : Bool
  pub reference : Option Reference
  pub reverses : Option TransactionId
  pub economic_kind : Option EconomicKind
  pub thing : Option Text
  pub thing_name : Option Text
  pub quantity_milli : Option ℕ
  pub unit : Option EconomicUnit
  pub gift_request : Option ℕ
  pub art : Option ℕ
  pub refund_units : Option ℤ

abbrev pub no_options : Options
no_options = record {
  allow_overdraft = false;
  reference = none;
  reverses = none;
  economic_kind = none;
  thing = none;
  thing_name = none;
  quantity_milli = none;
  unit = none;
  gift_request = none;
  art = none;
  refund_units = none;
}

abbrev pub is_negative : Posting → Bool
is_negative p = ltb_ℤ p.amount (pos 0)

abbrev pub is_positive : Posting → Bool
is_positive p = ltb_ℤ (pos 0) p.amount

-- The transaction that `append` builds, before its delivery record.
abbrev pub new_transaction :
    Ledger → TransactionKind → Actor → Memo → List Posting → Options → ℕ → Transaction
new_transaction s kind actor description postings opts at = record {
  id = TransactionId.txn s.next_txn;
  kind = kind;
  created_at = at;
  actor = actor;
  description = description;
  reference = opts.reference;
  reverses = opts.reverses;
  economic_kind = opts.economic_kind;
  thing = opts.thing;
  thing_name = opts.thing_name;
  quantity_milli = opts.quantity_milli;
  unit = opts.unit;
  postings = postings;
  money_epoch = some s.money_epoch;
  decimals = some s.decimals;
  gift_request = opts.gift_request;
  art = opts.art;
  fulfillment = none;
}

-- `this.users.find(u => u.id === actor)`
abbrev pub acting_user : Ledger → Actor → Option User
acting_user s (Actor.by_user n) = find (λ (u : User). u.id == n) s.users
acting_user s Actor.system = none

abbrev pub party_of : Option User → Actor → Party
party_of none actor = Party.actor actor
party_of (some u) actor = Party.account u.account

abbrev pub party_name_of : Option User → Actor → PartyName
party_name_of none actor = PartyName.actor actor
party_name_of (some u) actor = PartyName.display u.display_name

-- One more entry of a delivery record.
abbrev pub delivery_update : Ledger → Transaction → FulfillmentStatus → Update
delivery_update s t status = record {
  id = UpdateId.of_transaction t.id;
  at = t.created_at;
  actor = party_of (acting_user s t.actor) t.actor;
  actor_name = party_name_of (acting_user s t.actor) t.actor;
  status = status;
  reason = [];
}

-- A delivery record with a new status and entry, the last four entries kept.
abbrev pub push_update : Update → Fulfillment → Fulfillment
push_update u f = record f { status = u.status; updates = take_last 4 (f.updates ++ u ∷ []) }

abbrev pub on_fulfillment : (Fulfillment → Fulfillment) → Transaction → Transaction
on_fulfillment g t = elim t.fulfillment [
  | none ↦ t
  | some f ↦ record t { fulfillment = some (g f) }
]

-- The transaction that is undone, if there is one.
abbrev pub original_of : Ledger → Options → Option Transaction
original_of s opts = elim opts.reverses [ none ↦ none | some id ↦ find_transaction s id ]

-- What `refundAmounts` records for a reversal: the units given, or the whole original.
abbrev pub refund_of : Options → Transaction → ℤ
refund_of opts original = or_else opts.refund_units (original_amount original)

-- Whether a reversal gives back the last of a payment that carries a delivery record.
abbrev pub closes_delivery : Ledger → Options → Option Transaction → Bool
closes_delivery s opts none = false
closes_delivery s opts (some original) = elim original.fulfillment [
  | none ↦ false
  | some f ↦ eqb_ℤ (refunded s original.id +ℤ refund_of opts original) (original_amount original)
]

-- Whether a transaction starts a delivery: a sale, or pay for work or goods.
abbrev pub starts_delivery : TransactionKind → Options → Bool
starts_delivery kind opts =
    not (truthy opts.art)
    && (not (is_reversal kind)
        && (is_purchase kind || (is_labor opts.economic_kind || is_good opts.economic_kind)))

abbrev pub referenced_listing : Ledger → Option Reference → Option Listing
referenced_listing s (some (Reference.listing n)) = find (λ (l : Listing). l.id == n) s.listings
referenced_listing s _ = none

abbrev pub is_currency : Option ListingKind → Bool
is_currency (some ListingKind.currency) = true
is_currency _ = false

abbrev pub is_service : Option ListingKind → Bool
is_service (some ListingKind.service) = true
is_service _ = false

abbrev pub listing_kind : Option Listing → Option ListingKind
listing_kind none = none
listing_kind (some l) = l.kind

abbrev pub delivery_kind : Option ListingKind → Option EconomicKind → FulfillmentKind
delivery_kind listed economic =
    if is_currency listed
    then FulfillmentKind.cash
    else if is_labor economic || is_service listed
    then FulfillmentKind.work
    else FulfillmentKind.goods

abbrev pub new_fulfillment : Ledger → Transaction → Posting → Posting → Fulfillment
new_fulfillment s t provider recipient = record {
  transaction = t.id;
  provider = provider.account;
  recipient = recipient.account;
  provider_name = or_else (display_name_of s provider.account) provider.name;
  recipient_name = or_else (display_name_of s recipient.account) recipient.name;
  description = t.description;
  kind = delivery_kind (listing_kind (referenced_listing s t.reference)) t.economic_kind;
  status = FulfillmentStatus.todo;
  updates = delivery_update s t FulfillmentStatus.todo ∷ [];
}

-- The new transaction with its delivery record, if both a provider and a recipient are named.
abbrev pub with_delivery : Ledger → Transaction → Option Posting → Option Posting → Transaction
with_delivery s t (some provider) (some recipient) = record t {
  fulfillment = some (new_fulfillment s t provider recipient);
}
with_delivery s t _ _ = t

unfoldable pub start_delivery : Ledger → Options → Transaction → Transaction
start_delivery s opts t =
    if starts_delivery t.kind opts
    then with_delivery s t (find is_positive t.postings) (find is_negative t.postings)
    else t

unfoldable pub close_delivery :
    Ledger → Transaction → TransactionId → List Transaction → List Transaction
close_delivery s t id =
    update (has_id id)
      (on_fulfillment (push_update (delivery_update s t FulfillmentStatus.reversed)))

-- The new transaction as it is pushed: with a delivery record, unless it closes one.
unfoldable pub recorded : Ledger → Options → Option Transaction → Transaction → Transaction
unfolding start_delivery
recorded s opts original t = if closes_delivery s opts original then t else start_delivery s opts t

-- The earlier transactions, the original's delivery closed where the reversal gives back the rest.
unfoldable pub earlier : Ledger → Options → Option Transaction → Transaction → List Transaction
unfolding close_delivery
earlier s opts none t = s.transactions
earlier s opts (some original) t =
    if closes_delivery s opts (some original)
    then close_delivery s t original.id s.transactions
    else s.transactions
