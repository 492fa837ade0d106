-- ===== src/Money/Tests.antt =====
-- The amounts of money.ts at concrete texts.
use nanacoin.Prelude.{◌≡◌, arith, refl, false, some, [], ◌∷◌, codes, trim, pos, negsuc}
use nanacoin.Money.Digits.{number_text}
use nanacoin.Money.RoundTrip.{IsPlain, parse_money-money_text}
use nanacoin.Money.Service.{Input, new_money, parse, follow, parse-after_change}
use nanacoin.Money.{Locale, Reading, Refusal, parse_money, money_text}

-- Digits, point and sign of English, without groups.
abbrev english : Locale
english = record {
  format = λ grouping n. number_text n;
  decimal = some (b'.' ∷ []);
  minus_sign = some (b'-' ∷ []);
}

reads : parse_money english 4 (codes " 3.50 ") ≡ Reading.amount 35000
unfolding parse_money number_text trim
reads = refl

signs : parse_money english 4 (codes "-3.50 ") ≡ Reading.refused Refusal.not_plain
unfolding parse_money number_text trim
signs = refl

fine : parse_money english 1 (codes "3.52") ≡ Reading.refused Refusal.too_fine
unfolding parse_money number_text trim
fine = refl

prints : money_text english (negsuc 35049) 4 false ≡ codes "-3.505"
unfolding money_text number_text
prints = refl

english-IsPlain : IsPlain english
english-IsPlain = record { plain_number = λ n. refl; plain_point = refl }

parse_money-money_text_example :
    parse_money english 4 (money_text english (pos 35050) 4 false) ≡ Reading.amount 35050
parse_money-money_text_example =
    parse_money-money_text english english-IsPlain 4 35050 (omega arith) (omega arith)

parse-after_change_example :
    parse english (codes "12") (follow [] ((2, 1) ∷ (4, 0) ∷ []) new_money) ≡ Input.changed_size
parse-after_change_example =
    parse-after_change english (codes "12") [] 2 1 ((4, 0) ∷ []) new_money refl
      (λ e. absurd (omega arith)) (omega arith)
