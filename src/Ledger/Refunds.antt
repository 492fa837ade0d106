-- ===== src/Ledger/Refunds.antt =====
-- Undoing payments (`reverse`, `refund`).
use nanacoin.Prelude.{
  Bool, true, false, ◌&&◌, ◌||◌, not, Option, none, some, truthy, [], ◌∷◌, map, find, any, ℤ, pos,
  neg, ◌-ℤ◌, ltb_ℤ, Text,
}
use nanacoin.Exec.{Exec, Fault, Code, lift, gets, throw_if, or_raise, ◌>>=◌, ◌>>◌}
use nanacoin.Model.{
  AccountId, same_account, is_usd, User, Actor, is_nana, Transaction, TransactionId,
  TransactionKind, is_message, is_reversal, Posting, Memo, Reference,
}
use nanacoin.Ledger.State.{
  Ledger, find_transaction, refunded, original_amount, current_postings, reverses_txn, scale_amount,
  exponent_of,
}
use nanacoin.Ledger.Delivery.{Options, no_options, is_positive, is_negative}
use nanacoin.Ledger.Append.{append}
use nanacoin.Ledger.Guards.{require_active, require_amount, require_user_account}

-- `t.art || t.postings.some(p => this.isUSD(p.account))`
abbrev pub is_settlement : Transaction → Bool
is_settlement t = truthy t.art || any (λ (p : Posting). is_usd p.account) t.postings

-- References of vouchers, loans and lottos.
abbrev pub is_linked : Option Reference → Bool
is_linked (some (Reference.nickle n)) = true
is_linked (some (Reference.loan n)) = true
is_linked (some (Reference.lotto n)) = true
is_linked _ = false

abbrev pub is_quote_reference : Option Reference → Bool
is_quote_reference (some (Reference.quote n)) = true
is_quote_reference _ = false

abbrev pub account_of : Option Posting → Option AccountId
account_of none = none
account_of (some p) = some p.account

-- Whether an optional account is the given one.
abbrev pub is_account : AccountId → Option AccountId → Bool
is_account a none = false
is_account a (some b) = same_account b a

-- A member may only give back money that the member received from another member.
abbrev pub may_not_refund : User → Transaction → Bool
may_not_refund actor t =
    not (is_account actor.account (account_of (find is_positive t.postings)))
    || (is_account AccountId.system_issuance (account_of (find is_negative t.postings))
        || is_quote_reference t.reference)

abbrev pub mirrored : Posting → Posting
mirrored p = record p { amount = neg p.amount }

-- The kinds and options that a reversal copies from its original.
abbrev pub reversal_options : Transaction → TransactionId → Options
reversal_options t id = record no_options {
  reverses = some id;
  economic_kind = t.economic_kind;
  thing = t.thing;
  thing_name = t.thing_name;
  quantity_milli = t.quantity_milli;
  unit = t.unit;
  gift_request = t.gift_request;
}

-- The first two tests of `reverse`, which a missing transaction passes.
abbrev pub is_settled_elsewhere : Ledger → Option Transaction → Bool
is_settled_elsewhere s none = false
is_settled_elsewhere s (some t) = is_settlement t || ltb_ℤ (pos 0) (refunded s t.id)

abbrev pub is_bound : Option Transaction → Bool
is_bound none = false
is_bound (some t) = is_message t.kind || is_linked t.reference

unfoldable pub reverse_payment : User → TransactionId → Text → Exec Ledger Transaction
unfolding ◌>>=◌
reverse_payment actor id reason = do
  require_active actor
  found ← gets (λ s. find_transaction s id)
  throw_if (λ s. is_settled_elsewhere s found) (Fault.demo 409 Code.conflict)
  throw_if (λ _. is_bound found) (Fault.demo 409 Code.voucher_transaction)
  original ← lift (or_raise found (Fault.demo 404 Code.not_found))
  throw_if (λ _. not (is_nana actor.role) && may_not_refund actor original)
      (Fault.demo 403 Code.forbidden)
  throw_if (λ s. any (reverses_txn id) s.transactions) (Fault.demo 409 Code.already_reversed)
  throw_if (λ _. is_reversal original.kind) (Fault.demo 400 Code.bad_request)
  exponents ← gets (λ s. s.epoch_exponents)
  append TransactionKind.reversal (Actor.by_user actor.id) (Memo.words reason)
      (map mirrored (current_postings exponents original))
      (record (reversal_options original id) {
        allow_overdraft = is_nana actor.role;
        reference = original.reference;
      })

-- `['TRANSFER', 'PURCHASE'].includes(t.kind)`
abbrev pub is_payment : TransactionKind → Bool
is_payment TransactionKind.transfer = true
is_payment TransactionKind.purchase = true
is_payment _ = false

abbrev pub is_not_refundable : Transaction → Bool
is_not_refundable t =
    not (is_payment t.kind)
    || (is_settlement t || (is_linked t.reference || is_quote_reference t.reference))

unfoldable pub refund : User → TransactionId → ℤ → Text → Exec Ledger Transaction
unfolding ◌>>=◌
refund actor id amount reason = do
  require_active actor
  require_amount amount
  found ← gets (λ s. find_transaction s id)
  t ← lift (or_raise found (Fault.demo 404 Code.not_found))
  throw_if (λ _. is_not_refundable t) (Fault.demo 409 Code.conflict)
  recipient ← lift (or_raise (find is_positive t.postings) Fault.type_error)
  payer ← lift (or_raise (find is_negative t.postings) Fault.type_error)
  throw_if (λ _. not (is_nana actor.role) && not (same_account actor.account recipient.account))
      (Fault.demo 403 Code.forbidden)
  require_user_account payer.account
  require_user_account recipient.account
  throw_if (λ s. ltb_ℤ (original_amount t -ℤ refunded s t.id) amount) (Fault.demo 409 Code.conflict)
  cash ← gets (λ s. scale_amount (exponent_of s.epoch_exponents t) amount)
  require_amount cash
  append TransactionKind.reversal (Actor.by_user actor.id) (Memo.words reason)
      (record recipient { amount = neg cash } ∷ record payer { amount = cash } ∷ [])
      (record (reversal_options t id) { refund_units = some amount })
