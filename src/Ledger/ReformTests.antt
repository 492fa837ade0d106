-- ===== src/Ledger/ReformTests.antt =====
-- A reform of a book of one transaction: two decimals more.
use nanacoin.Prelude.{
  ◌≡◌, refl, arith, false, none, some, [], ◌∷◌, pos, codes, sum_by, ◌+ℤ◌, ◌-ℤ◌, neg, ◌*ℕ◌, ◌⊎◌,
}
use nanacoin.Exec.{◌>>=◌}
use nanacoin.Exec.Atomic.{IsRefused}
use nanacoin.Model.{AccountId, Transaction, TransactionId, TransactionKind, Actor, Memo}
use nanacoin.Ledger.State.{Ledger, balance_of, balance_in, effect, current_postings}
use nanacoin.Ledger.Transfers.{two_postings}
use nanacoin.Ledger.Requests.{initial}
use nanacoin.Ledger.Conversion.{convert, convert_or, convert_each, shift_units}
use nanacoin.Ledger.Reform.{ReformInput, exponent_in, reform, conversions, write_reform}
use nanacoin.Ledger.Reform.Balances.{IsDated}
use nanacoin.Ledger.Reform.Exact.{IsConverted, reform-IsConverted}
use nanacoin.Ledger.Tests.{nana}

abbrev pub allowance : Transaction
allowance = record {
  id = TransactionId.txn 1;
  kind = TransactionKind.issue;
  created_at = 1000;
  actor = Actor.by_user 1;
  description = Memo.words (codes "allowance");
  reference = none;
  reverses = none;
  economic_kind = none;
  thing = none;
  thing_name = none;
  quantity_milli = none;
  unit = none;
  postings = two_postings AccountId.system_issuance (AccountId.member 2) (pos 500);
  money_epoch = some 0;
  decimals = some 4;
  gift_request = none;
  art = none;
  fulfillment = none;
}

abbrev household : Ledger
household = record (initial 40000000) { transactions = allowance ∷ [] }

abbrev finer : ReformInput
finer = record {
  decimals = 6;
  power = pos 0;
  expected_epoch = 0;
  expected_sequence = 0;
  preview = false;
}

reformed_balance : balance_of (reform nana finer household).1 (AccountId.member 2) ≡ pos 50000
unfolding reform ◌>>=◌ conversions write_reform convert shift_units convert_or convert_each
    balance_of balance_in effect current_postings sum_by ◌+ℤ◌ ◌-ℤ◌ neg ◌*ℕ◌
reformed_balance = refl

finer_exponent : exponent_in finer household ≡ pos 2
unfolding ◌-ℤ◌
finer_exponent = refl

allowance-IsDated : IsDated (0 ∷ []) allowance
allowance-IsDated = omega arith

reform-IsConverted_example :
    IsRefused household (reform nana finer household)
    ⊎ IsConverted finer 2 household (reform nana finer household).1
reform-IsConverted_example =
    reform-IsConverted nana finer 2 household finer_exponent (allowance-IsDated, tt)
