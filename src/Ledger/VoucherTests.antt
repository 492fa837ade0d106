-- ===== src/Ledger/VoucherTests.antt =====
-- A voucher that backs 500 units, redeemed by Ann.
use nanacoin.Prelude.{refl, [], ◌∷◌, ◌++◌, pos, codes, ◌⊎◌, Text}
use nanacoin.Exec.Atomic.{IsRefused}
use nanacoin.Model.{AccountId}
use nanacoin.Ledger.State.{Ledger}
use nanacoin.Ledger.Balances.{IsCurrent}
use nanacoin.Ledger.Transfers.{two_postings}
use nanacoin.Ledger.Requests.{initial}
use nanacoin.Ledger.Nickles.{redeem_nickle, digest_nickle, token_prefix}
use nanacoin.Ledger.Vouchers.{IsRedeemed, redeem_nickle-IsRedeemed}
use nanacoin.Ledger.ReformTests.{allowance}
use nanacoin.Ledger.Tests.{ann}

abbrev token : Text
token = token_prefix ++ codes "00112233445566778899aabbccddeeff00112233445566778899aabbccddeeff"

abbrev backed : Ledger
backed = record (initial 40000000) {
  transactions =
      record allowance {
        postings = two_postings AccountId.system_issuance AccountId.nickle_reserve (pos 500);
      }
      ∷ [];
  nickles = (digest_nickle token, record { amount = pos 500; serial = 1; issuer = 1 }) ∷ [];
}

backed-IsCurrent : IsCurrent backed
backed-IsCurrent = record { exponent = refl }

redeem_nickle-IsRedeemed_example :
    IsRefused backed (redeem_nickle ann token backed)
    ⊎ IsRedeemed ann token backed (redeem_nickle ann token backed)
redeem_nickle-IsRedeemed_example =
    redeem_nickle-IsRedeemed ann token backed backed-IsCurrent (tt, tt)
