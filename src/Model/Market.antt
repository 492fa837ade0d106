-- ===== src/Model/Market.antt =====
-- The marketplace (`Listing`, `Offer`) and the exchange (`Quote`), and bearer vouchers.
use nanacoin.Prelude.{ℕ, Bool, true, false, Option, ℤ, Text}
use nanacoin.Model.Accounts.{AccountId}
use nanacoin.Model.Transactions.{EconomicKind, EconomicUnit, TransactionId}

pub data ListingSide : Type 0 where
  sell buy : ListingSide

-- `kind?: string`: the four words that the code knows, and any other text.
pub data ListingKind : Type 0 where
  item service currency good_deed : ListingKind
  text : Text → ListingKind

pub data ListingStatus : Type 0 where
  active sold cancelled : ListingStatus

pub record Listing : Type 0 where
  pub id : ℕ
  pub seller : AccountId
  pub seller_name : Text
  pub title : Text
  pub description : Text
  pub price : ℤ
  pub status : ListingStatus
  pub created_at : ℕ
  pub updated_at : ℕ
  pub side : ListingSide
  pub kind : Option ListingKind
  pub currency : Option Text
  pub minor_units : Option ℕ
  pub economic_kind : Option EconomicKind
  pub thing : Option Text
  pub quantity_milli : Option ℕ
  pub unit : Option EconomicUnit
  pub standard : Option Bool
  pub buyer : Option AccountId
  pub buyer_name : Option Text
  pub sold_tx : Option TransactionId

pub data OfferStatus : Type 0 where
  open_offer accepted declined not_selected withdrawn : OfferStatus

pub record Offer : Type 0 where
  pub id : ℕ
  pub listing : ℕ
  pub listing_title : Text
  pub listing_owner : AccountId
  pub listing_owner_name : Option Text
  pub listing_side : ListingSide
  pub offerer : AccountId
  pub offerer_name : Text
  pub amount : ℤ
  pub message : Text
  pub status : OfferStatus
  pub created_at : ℕ
  pub updated_at : ℕ
  pub settled_tx : Option TransactionId

pub data QuoteSide : Type 0 where
  bid ask other : QuoteSide

pub data QuoteStatus : Type 0 where
  open_quote filled cancelled : QuoteStatus

pub record Quote : Type 0 where
  pub id : ℕ
  pub maker : AccountId
  pub maker_name : Text
  pub side : QuoteSide
  pub cents_per_coin : ℤ
  pub coins : ℤ
  pub cents : ℤ
  pub status : QuoteStatus
  pub created_at : ℕ
  pub updated_at : ℕ
  pub live : Bool
  pub taker : Option AccountId
  pub taker_name : Option Text
  pub coin_tx : Option TransactionId
  pub cash_tx : Option TransactionId

-- A value of the `nickles` map: `serial` is the number of `NN-n`, `issuer` a member's number.
pub record Voucher : Type 0 where
  pub amount : ℤ
  pub serial : ℕ
  pub issuer : ℕ

abbrev pub is_good_deed : Option ListingKind → Bool
is_good_deed (Option.some ListingKind.good_deed) = true
is_good_deed _ = false

abbrev pub is_open_listing : ListingStatus → Bool
is_open_listing ListingStatus.active = true
is_open_listing _ = false

abbrev pub is_open_offer : OfferStatus → Bool
is_open_offer OfferStatus.open_offer = true
is_open_offer _ = false

abbrev pub is_open_quote : QuoteStatus → Bool
is_open_quote QuoteStatus.open_quote = true
is_open_quote _ = false

abbrev pub is_ask : QuoteSide → Bool
is_ask QuoteSide.ask = true
is_ask _ = false

abbrev pub is_buy : ListingSide → Bool
is_buy ListingSide.buy = true
is_buy ListingSide.sell = false
