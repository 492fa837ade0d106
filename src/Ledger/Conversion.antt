-- ===== src/Ledger/Conversion.antt =====
-- How a reform converts amounts (`convert` of `reform` in nanacoin_ui/src/app/demo/ledger.ts, and
-- the conversions of lending.ts, lotto.ts and commerce.ts beside it).
use nanacoin.Prelude.{
  ℕ, ◌+◌, ◌*◌, ◌/◌, ◌%◌, ◌^◌, Bool, ◌||◌, not, if◌then◌else◌, Option, none, some, List, [], ◌∷◌, ℤ,
  pos, negsuc, suc, ◌*ℕ◌, neg, pos_part, neg_part, ltb, ◌==◌, Text,
}
use nanacoin.Exec.{Result, ok, err, Fault, Code}
use nanacoin.Model.{
  is_usd, Transaction, Posting, Listing, Offer, Quote, Voucher, StoredLoan, Draw, CommerceState,
  GiftRequest, Artwork,
}
use nanacoin.Ledger.State.{current_postings}
use nanacoin.Ledger.Guards.{max_safe_integer}
use nanacoin.Ledger.Loans.{denominator}
use nanacoin.Money.{max_money}

abbrev pub magnitude : ℤ → ℕ
magnitude n = pos_part n + neg_part n

-- `exp < 0 && n % factor`
abbrev pub is_inexact : ℤ → ℤ → Bool
is_inexact exponent n = not (magnitude n % 10 ^ neg_part exponent == 0)

-- `n * 10 ** exponent` on `bigint`s: where the exponent is negative, the division is exact.
unfoldable pub shift_units : ℤ → ℤ → ℤ
shift_units (pos e) n = n *ℕ (10 ^ e)
shift_units (negsuc e) (pos n) = pos (n / 10 ^ suc e)
shift_units (negsuc e) (negsuc n) = neg (pos (suc n / 10 ^ suc e))

-- `convert(value, exp, limit)`, with the error for a lost fraction
unfoldable pub convert_or : Fault → ℤ → ℕ → ℤ → Result ℤ
unfolding shift_units
convert_or inexact exponent limit n =
    if is_inexact exponent n
    then err inexact
    else if ltb limit (magnitude (shift_units exponent n))
    then err Fault.plain
    else ok (shift_units exponent n)

unfoldable pub convert : ℤ → ℕ → ℤ → Result ℤ
unfolding convert_or
convert = convert_or (Fault.demo 409 Code.inexact_reform)

module _ {A B : Type 0} where
  abbrev pub map_ok : (A → B) → Result A → Result B
  map_ok f (err e) = err e
  map_ok f (ok a) = ok (f a)

  abbrev pub then_ok : Result A → (A → Result B) → Result B
  then_ok (err e) next = err e
  then_ok (ok a) next = next a

module _ {A B : Type 0} (f : A → Result B) where
  -- `f` of each element, up to the first error
  unfoldable pub convert_each : List A → Result (List B)
  convert_each [] = ok []
  convert_each (a ∷ rest) =
      let later = convert_each rest in then_ok (f a) (λ b. map_ok (b ∷◌) later)

abbrev pub optional : (ℤ → Result ℤ) → Option ℤ → Result (Option ℤ)
optional f none = ok none
optional f (some n) = map_ok some (f n)

-- A posting of coins is checked, and not written: its epoch's exponent changes instead.
abbrev pub check_posting : ℤ → Posting → Result (Unit {0})
check_posting exponent p =
    if is_usd p.account then ok tt else map_ok (λ _. tt) (convert exponent max_money p.amount)

abbrev pub check_transaction : List ℕ → ℤ → Transaction → Result (List (Unit {0}))
check_transaction exponents exponent t =
    convert_each (check_posting exponent) (current_postings exponents t)

abbrev pub listing_in : ℤ → Listing → Result Listing
listing_in exponent l = map_ok (λ v. record l { price = v }) (convert exponent max_money l.price)

abbrev pub offer_in : ℤ → Offer → Result Offer
offer_in exponent o = map_ok (λ v. record o { amount = v }) (convert exponent max_money o.amount)

abbrev pub quote_in : ℤ → ℤ → Quote → Result Quote
quote_in exponent power q = then_ok (convert exponent max_money q.coins) (λ coins.
    map_ok (λ rate. record q { coins = coins; cents_per_coin = rate })
      (convert power max_money q.cents_per_coin))

abbrev pub voucher_in : ℤ → Text × Voucher → Result (Text × Voucher)
voucher_in exponent (digest, v) =
    map_ok (λ n. (digest, record v { amount = n })) (convert exponent max_money v.amount)

-- `convert` and `amount` of `DemoLending.reform`
abbrev pub loan_amount : ℤ → ℤ → Result ℤ
loan_amount = λ exponent. convert_or Fault.plain exponent max_safe_integer

abbrev pub loan_units : ℤ → ℕ → Result ℕ
loan_units exponent n = map_ok pos_part (loan_amount exponent (pos n))

-- The interest with its fraction, in parts of a unit.
abbrev pub loan_parts : StoredLoan → ℕ
loan_parts l = l.interest * denominator l + l.remainder

abbrev pub with_interest : ℕ → StoredLoan → StoredLoan
with_interest parts l = record l {
  interest = parts / denominator l;
  remainder = parts % denominator l;
}

abbrev pub within_loan_limits : StoredLoan → Result StoredLoan
within_loan_limits l =
    if ltb max_money l.amount
      || (ltb max_money l.installment || ltb max_safe_integer (l.principal + l.interest))
    then err Fault.plain
    else ok l

abbrev pub parts_in : ℤ → ℕ → Result ℕ
unfolding shift_units
parts_in exponent n =
    if is_inexact exponent (pos n)
    then err Fault.plain
    else ok (pos_part (shift_units exponent (pos n)))

-- One loan of `DemoLending.reform`. A denominator of zero cannot divide.
unfoldable pub loan_in : ℤ → StoredLoan → Result StoredLoan
loan_in exponent l = then_ok (parts_in exponent (loan_parts l)) (λ parts.
    then_ok (loan_units exponent l.amount) (λ amount.
      then_ok (loan_units exponent l.installment) (λ installment.
        then_ok (loan_units exponent l.principal) (λ principal.
          then_ok (loan_units exponent l.principal_due) (λ principal_due.
            then_ok (loan_units exponent l.interest_due) (λ interest_due.
              then_ok (loan_amount exponent l.attempted_balance) (λ attempted.
                if denominator l == 0
                then err Fault.plain
                else within_loan_limits (
                    with_interest parts record l {
                      amount = amount;
                      installment = installment;
                      principal = principal;
                      principal_due = principal_due;
                      interest_due = interest_due;
                      attempted_balance = attempted;
                    }))))))))

abbrev pub draw_units : ℤ → ℕ → Result ℕ
draw_units exponent n = map_ok pos_part (convert exponent max_money (pos n))

-- One draw of `DemoLotto.reform`
abbrev pub draw_in : ℤ → Draw → Result Draw
draw_in exponent d = then_ok (draw_units exponent d.terms.ticket_price) (λ price.
    then_ok (draw_units exponent d.pool) (λ pool.
      map_ok
        (λ interest. record d {
          terms = record d.terms { ticket_price = price };
          pool = pool;
          interest = interest;
        })
        (draw_units exponent d.interest)))

-- `DemoCommerce.reform`
abbrev pub request_in : ℤ → GiftRequest → Result GiftRequest
request_in exponent r = then_ok (optional (convert exponent max_money) r.target) (λ target.
    map_ok (λ received. record r { target = target; received = received })
      (convert exponent max_money r.received))

abbrev pub artwork_in : ℤ → Artwork → Result Artwork
artwork_in exponent a =
    map_ok (λ price. record a { price = price }) (optional (convert exponent max_money) a.price)

abbrev pub commerce_in : ℤ → CommerceState → Result CommerceState
commerce_in exponent c = then_ok (convert_each (request_in exponent) c.requests) (λ requests.
    map_ok (λ artworks. record { requests = requests; artworks = artworks })
      (convert_each (artwork_in exponent) c.artworks))
