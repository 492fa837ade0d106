-- ===== src/Ledger/Reform.antt =====
-- Reforms of the currency (`reform` of nanacoin_ui/src/app/demo/ledger.ts, and of lending.ts,
-- lotto.ts and commerce.ts beside it): every amount is converted first, and written only if every
-- conversion is exact and within its limit. A reform that lowers the power of ten is modelled up to
-- its preview: from then on balances are floating-point quotients of the program.
pub mod Balances
pub mod Exact
use nanacoin.Prelude.{
  ℕ, ◌+◌, ◌*◌, ◌/◌, ◌%◌, ◌^◌, Bool, true, false, ◌&&◌, ◌||◌, not, if◌then◌else◌, Option, none, some,
  List, [], ◌∷◌, ◌++◌, map, ℤ, pos, negsuc, pos_part, neg_part, ◌+ℤ◌, ◌-ℤ◌, neg, eqb_ℤ, ltb_ℤ, ltb,
  leb, ◌==◌, Text,
}
use nanacoin.Prelude.Maps.{Dict}
use nanacoin.Exec.{
  Exec, Result, ok, err, Fault, Code, pure, lift, gets, throw_if, modify, for_each, ◌>>=◌, ◌>>◌,
}
use nanacoin.Model.{
  AccountId, is_usd, User, is_nana, is_active, Transaction, Posting, Listing, Offer, Quote, Voucher,
  StoredLoan, LendingState, Draw, CommerceState, GiftRequest, Artwork,
}
use nanacoin.Ledger.State.{Ledger, balance_of, scale_amount, current_postings}
use nanacoin.Ledger.Guards.{max_safe_integer}
use nanacoin.Ledger.Loans.{denominator}
use nanacoin.Money.{max_money}
use nanacoin.Ledger.Conversion.{
  magnitude, is_inexact, convert_or, convert, map_ok, then_ok, convert_each, check_posting,
  check_transaction, listing_in, offer_in, quote_in, voucher_in, loan_in, draw_in, commerce_in,
}

-- `interface ReformInput`
pub record ReformInput : Type 0 where
  pub decimals : ℕ
  pub power : ℤ
  pub expected_epoch : ℕ
  pub expected_sequence : ℕ
  pub preview : Bool

-- `interface ReformResult`
pub record ReformResult : Type 0 where
  pub decimals : ℕ
  pub money_epoch : ℕ
  pub sequence : ℕ
  pub circulation : ℤ
  pub preview : Bool

-- The amounts that a reform writes.
pub record Amounts : Type 0 where
  pub listings : List Listing
  pub offers : List Offer
  pub quotes : List Quote
  pub nickles : Dict Text Voucher
  pub loans : List StoredLoan
  pub lotto : List Draw
  pub commerce : CommerceState
  pub circulation : ℤ

abbrev balance_check : ℤ → Ledger → User → Result ℤ
balance_check exponent s u = convert exponent max_safe_integer (balance_of s u.account)

-- Every conversion, in the order of the source; nothing is written.
unfoldable pub conversions : ℤ → ℤ → Ledger → Result Amounts
unfolding convert_each
conversions exponent power s =
    then_ok (convert_each (check_transaction s.epoch_exponents exponent) s.transactions) (λ _.
      then_ok (convert_each (listing_in exponent) s.listings) (λ listings.
        then_ok (convert_each (offer_in exponent) s.offers) (λ offers.
          then_ok (convert_each (quote_in exponent power) s.quotes) (λ quotes.
            then_ok (convert_each (voucher_in exponent) s.nickles) (λ nickles.
              then_ok (convert_each (balance_check exponent s) s.users) (λ _.
                then_ok
                  (convert exponent max_safe_integer (neg (balance_of s AccountId.system_issuance)))
                  (λ circulation.
                    then_ok (convert_each (loan_in exponent) s.lending.loans) (λ loans.
                      then_ok (convert_each (draw_in exponent) s.lotto) (λ lotto.
                        map_ok
                          (λ commerce. record {
                            listings = listings;
                            offers = offers;
                            quotes = quotes;
                            nickles = nickles;
                            loans = loans;
                            lotto = lotto;
                            commerce = commerce;
                            circulation = circulation;
                          })
                          (commerce_in exponent s.commerce))))))))))

-- `if (!input.preview) { … }`: all the writes of a reform.
unfoldable pub write_reform : ℕ → ℕ → Amounts → Ledger → Ledger
write_reform exponent decimals amounts s = record s {
  listings = amounts.listings;
  offers = amounts.offers;
  quotes = amounts.quotes;
  nickles = amounts.nickles;
  lending = record s.lending { loans = amounts.loans };
  lotto = amounts.lotto;
  commerce = amounts.commerce;
  epoch_exponents = map (λ e. e + exponent) s.epoch_exponents ++ 0 ∷ [];
  decimals = decimals;
  money_epoch = s.money_epoch + 1;
  revision = s.revision + 1;
}

abbrev pub is_bad_reform : ReformInput → Ledger → Bool
is_bad_reform input s =
    ltb 8 input.decimals
    || (ltb 12 (magnitude input.power)
        || (input.decimals == s.decimals && eqb_ℤ input.power (pos 0)))

abbrev pub is_stale_reform : ReformInput → Ledger → Bool
is_stale_reform input s =
    not (input.expected_epoch == s.money_epoch) || not (input.expected_sequence == s.revision)

-- The power of ten by which amounts change.
abbrev pub exponent_in : ReformInput → Ledger → ℤ
exponent_in input s = pos input.decimals -ℤ pos s.decimals -ℤ input.power

abbrev result_of : ReformInput → ℤ → Ledger → ReformResult
result_of input circulation s = record {
  decimals = input.decimals;
  money_epoch = s.money_epoch;
  sequence = s.revision;
  circulation = circulation;
  preview = input.preview;
}

-- `reform(actor, input)`
unfoldable pub reform : User → ReformInput → Exec Ledger ReformResult
unfolding ◌>>=◌ conversions write_reform
reform actor input = do
  throw_if (λ _. not (is_nana actor.role) || not (is_active actor.status))
      (Fault.demo 403 Code.forbidden)
  throw_if (is_stale_reform input) (Fault.demo 409 Code.conflict)
  throw_if (is_bad_reform input) Fault.plain
  exponent ← gets (exponent_in input)
  converted ← gets (conversions exponent input.power)
  amounts ← lift converted
  throw_if (λ _. not input.preview && ltb_ℤ exponent (pos 0)) Fault.outside
  modify
      (λ s. if input.preview then s else write_reform (pos_part exponent) input.decimals amounts s)
  gets (result_of input amounts.circulation)
