-- ===== src/Ledger/Append.antt =====
-- `append`: the one door through which coins move. It checks that the postings sum to zero and
-- that no ordinary account is overdrawn, then records the transaction, its delivery record, the
-- refund it makes, and tells lending and commerce (nanacoin_ui/src/app/demo/ledger.ts, `append`).
use nanacoin.Prelude.{
  ℕ, ◌+◌, Bool, true, false, ◌&&◌, not, if◌then◌else◌, Option, none, some, truthy, List, [], ◌∷◌,
  ◌++◌, any, keep, update, map, ℤ, pos, ◌+ℤ◌, ◌-ℤ◌, ltb_ℤ, eqb_ℤ, ◌==◌,
}
use nanacoin.Prelude.Maps.{insert}
use nanacoin.Exec.{Exec, Result, ok, err, Fault, Code, pure, gets, throw_if, modify, ◌>>=◌, ◌>>◌}
use nanacoin.Model.{
  AccountId, same_account, Actor, Transaction, TransactionKind, same_txn, Posting, Memo, Reference,
  LendingState, CommerceState, GiftRequest,
}
use nanacoin.Ledger.State.{Ledger, balance_of, sum_amounts, original_amount, time_of, tick}
use nanacoin.Ledger.Delivery.{
  Options, is_negative, new_transaction, original_of, refund_of, recorded, earlier,
}

abbrev pub is_issuance : AccountId → Bool
is_issuance = same_account AccountId.system_issuance

-- Whether a posting takes an ordinary account below zero.
abbrev pub overdraws : Ledger → Posting → Bool
overdraws s p =
    not (is_issuance p.account)
    && (is_negative p && ltb_ℤ (balance_of s p.account +ℤ p.amount) (pos 0))

-- `blocked.add(a)` and `blocked.delete(a)`
block_account : AccountId → List AccountId → List AccountId
block_account a blocked = if any (same_account a) blocked then blocked else blocked ++ a ∷ []

free_account : AccountId → List AccountId → List AccountId
free_account a = keep (λ b. not (same_account a b))

change_blocked : List AccountId → Bool → List AccountId → List AccountId
unfolding block_account free_account
change_blocked [] is_loan blocked = blocked
change_blocked (a ∷ rest) is_loan blocked =
    change_blocked rest is_loan
      (if is_loan then block_account a blocked else free_account a blocked)

-- `DemoLending.cashChanged`: loan money blocks an account, any other money frees it.
unfoldable pub cash_changed : List AccountId → Bool → LendingState → LendingState
unfolding change_blocked
cash_changed accounts is_loan l = record l { blocked = change_blocked accounts is_loan l.blocked }

-- `DemoCommerce.refunded`, which fails on a request that is not there.
unfoldable pub gift_refunded : ℕ → ℤ → CommerceState → Result CommerceState
gift_refunded id amount c =
    if any (λ (r : GiftRequest). r.id == id) c.requests
    then ok (record c {
      requests =
          update (λ (r : GiftRequest). r.id == id)
            (λ (r : GiftRequest). record r { received = r.received -ℤ amount }) c.requests;
    })
    else err Fault.type_error

abbrev pub is_loan_reference : Option Reference → Bool
is_loan_reference (some (Reference.loan n)) = true
is_loan_reference _ = false

-- What `refundAmounts` records for a reversal: nothing can be recorded without an original.
abbrev pub refund_units_of : Options → Option Transaction → Option ℤ
refund_units_of opts none = opts.refund_units
refund_units_of opts (some o) = some (refund_of opts o)

-- `if (opts.reverses) this.refundAmounts.set(…)`
unfoldable pub note_refund : Options → Option Transaction → Transaction → Exec Ledger (Unit {0})
note_refund opts original t s = elim opts.reverses [
  | none ↦ (ok tt, s)
  | some id ↦ elim (refund_units_of opts original) [
    | none ↦ (err Fault.type_error, s)
    | some units ↦
        (ok tt, record s { refund_amounts = insert same_txn t.id units s.refund_amounts })
  ]
]

abbrev set_commerce : Ledger → Result CommerceState → Result (Unit {0}) × Ledger
set_commerce s (ok c) = (ok tt, record s { commerce = c })
set_commerce s (err e) = (err e, s)

abbrev pub gift_of : Option Transaction → Option ℕ
gift_of none = none
gift_of (some o) = o.gift_request

-- `postings.reduce((sum, p) => sum + Math.max(0, p.amount), 0)` is `original_amount` of the new
-- transaction.
unfoldable pub note_gift : Option Transaction → Transaction → Exec Ledger (Unit {0})
unfolding gift_refunded
note_gift original t s = elim (gift_of original) [
  | none ↦ (ok tt, s)
  | some id ↦
      if truthy (some id)
      then set_commerce s (gift_refunded id (original_amount t) s.commerce)
      else (ok tt, s)
]

-- `this.nextTxn++`, `this.now()`, the delivery records and `this.transactions.push(txn)`.
unfoldable pub push :
    TransactionKind → Actor → Memo → List Posting → Options → Exec Ledger Transaction
unfolding time_of tick recorded earlier
push kind actor description postings opts s =
    let t = new_transaction s kind actor description postings opts (time_of s) in
    let original = original_of s opts in
    (
      ok (recorded s opts original t),
      record (tick s) {
        next_txn = s.next_txn + 1;
        transactions = earlier s opts original t ++ recorded s opts original t ∷ [];
      },
    )

-- `this.revision++` and `this.lending.cashChanged(…)`
unfoldable pub note_cash : List Posting → Options → Ledger → Ledger
unfolding cash_changed
note_cash postings opts s = record s {
  revision = s.revision + 1;
  lending =
      cash_changed (map (λ (p : Posting). p.account) postings) (is_loan_reference opts.reference)
        s.lending;
}

-- The postings are recorded: everything behind the two checks of `append`.
unfoldable pub commit :
    TransactionKind → Actor → Memo → List Posting → Options → Exec Ledger Transaction
unfolding ◌>>=◌
commit kind actor description postings opts = do
  original ← gets (λ s. original_of s opts)
  t ← push kind actor description postings opts
  note_refund opts original t
  note_gift original t
  modify (note_cash postings opts)
  pure t

unfoldable pub append :
    TransactionKind → Actor → Memo → List Posting → Options → Exec Ledger Transaction
unfolding ◌>>=◌
append kind actor description postings opts = do
  throw_if (λ s. not (eqb_ℤ (sum_amounts postings) (pos 0))) (Fault.demo 500 Code.unbalanced)
  throw_if (λ s. not opts.allow_overdraft && any (overdraws s) postings)
      (Fault.demo 400 Code.insufficient_funds)
  commit kind actor description postings opts
