-- ===== src/Model/Transactions.antt =====
-- Transactions, their postings and the delivery record that a sale carries.
use nanacoin.Prelude.{ℕ, Bool, true, false, ◌≡◌, ◌↔◌, arith, ◌==◌, Option, List, ℤ, Text}
use nanacoin.Model.Accounts.{AccountId}
use nanacoin.Model.People.{Actor}

-- `txn-n` and `usd-txn-n`
pub data TransactionId : Type 0 where
  txn : ℕ → TransactionId
  usd_txn : ℕ → TransactionId

abbrev pub same_txn : TransactionId → TransactionId → Bool
same_txn (TransactionId.txn m) (TransactionId.txn n) = m == n
same_txn (TransactionId.usd_txn m) (TransactionId.usd_txn n) = m == n
same_txn _ _ = false

pub same_txn_iff : (a b : TransactionId) → (same_txn a b ≡ true) ↔ (a ≡ b)
same_txn_iff (TransactionId.txn m) b = ground arith
same_txn_iff a b = ground arith

pub data TransactionKind : Type 0 where
  message issue retire transfer purchase reversal : TransactionKind

pub data EconomicKind : Type 0 where
  labor good gift other loan_principal interest : EconomicKind

pub data EconomicUnit : Type 0 where
  each batch task minute hour gram kilogram milliliter liter load other : EconomicUnit

abbrev pub is_reversal : TransactionKind → Bool
is_reversal TransactionKind.reversal = true
is_reversal _ = false

abbrev pub is_message : TransactionKind → Bool
is_message TransactionKind.message = true
is_message _ = false

abbrev pub is_purchase : TransactionKind → Bool
is_purchase TransactionKind.purchase = true
is_purchase _ = false

abbrev pub is_labor : Option EconomicKind → Bool
is_labor (Option.some EconomicKind.labor) = true
is_labor _ = false

abbrev pub is_good : Option EconomicKind → Bool
is_good (Option.some EconomicKind.good) = true
is_good _ = false

-- The forms of `reference`: `nickle:NN-n`, `loan-n`, `lotto-n`, `quote-n`, `listing-n`.
pub data Reference : Type 0 where
  nickle loan lotto quote listing : ℕ → Reference

-- The fixed wordings of `description`, and a text that a caller sent.
pub data Memo : Type 0 where
  words : Text → Memo
  create_nickle redeem_nickle : ℕ → Memo
  exchange loan_interest loan_principal : Memo
  lotto_tickets lotto_principal lotto_interest : Memo
  digital_art : Text → Memo

pub record Posting : Type 0 where
  pub account : AccountId
  pub name : Text
  pub amount : ℤ

pub data FulfillmentStatus : Type 0 where
  todo done disputed reversed : FulfillmentStatus

pub data FulfillmentAction : Type 0 where
  complete dispute withdraw_dispute other : FulfillmentAction

pub data FulfillmentKind : Type 0 where
  work goods cash : FulfillmentKind

pub data UpdateId : Type 0 where
  of_transaction : TransactionId → UpdateId
  fulfillment : ℕ → UpdateId

-- `user?.account ?? actor`
pub data Party : Type 0 where
  account : AccountId → Party
  actor : Actor → Party

-- `user?.display_name ?? actor`
pub data PartyName : Type 0 where
  display : Text → PartyName
  actor : Actor → PartyName

pub record Update : Type 0 where
  pub id : UpdateId
  pub at : ℕ
  pub actor : Party
  pub actor_name : PartyName
  pub status : FulfillmentStatus
  pub reason : Text

pub record Fulfillment : Type 0 where
  pub transaction : TransactionId
  pub provider : AccountId
  pub recipient : AccountId
  pub provider_name : Text
  pub recipient_name : Text
  pub description : Memo
  pub kind : FulfillmentKind
  pub status : FulfillmentStatus
  pub updates : List Update

pub record Transaction : Type 0 where
  pub id : TransactionId
  pub kind : TransactionKind
  pub created_at : ℕ
  pub actor : Actor
  pub description : Memo
  pub reference : Option Reference
  pub reverses : Option TransactionId
  pub economic_kind : Option EconomicKind
  pub thing : Option Text
  pub thing_name : Option Text
  pub quantity_milli : Option ℕ
  pub unit : Option EconomicUnit
  pub postings : List Posting
  pub money_epoch : Option ℕ
  pub decimals : Option ℕ
  pub gift_request : Option ℕ
  pub art : Option ℕ
  pub fulfillment : Option Fulfillment
