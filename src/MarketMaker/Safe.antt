-- ===== src/MarketMaker/Safe.antt =====
-- What a plan without errors promises.
use nanacoin.Prelude.{
  ℕ, zero, suc, ◌*◌, ◌/◌, ◌≤◌, ◌<◌, ◌≡◌, refl, sym, ap, subst, ◌∙◌, max, Bool, true, false, ◌||◌,
  if◌then◌else◌, Option, none, some, List, [], ◌∷◌, ◌++◌, any, arith, ℤ, pos, ◌-ℤ◌, leb_ℤ, int_laws,
  ◌≤ℤ◌,
}
use nanacoin.MarketMaker.{
  quote_capacity, loan_capacity, Forex, Lending, MarketInput, Step, PlanError, PlanWarning, Part,
  ◌then◌, error_if, share_of, quote_cents, bid_cents, ask_coins,
}
use nanacoin.MarketMaker.Steps.{
  forex_part, lending_part, is_low, capacity_part, shortage_part, quotes_after, loans_after,
}
use nanacoin.MarketMaker.Plan.{Calendar, plan_market, when_given}
use native.Mathlib.Nat.{mul-div_cancel}
use nanacoin.MarketMaker.Prices.{Uncrossed, is_crossed-Uncrossed}

-- At least one whole coin, with a dollar side that is exact.
pub record IsWhole (scale cents coins : ℕ) : Type 0 where
  pub positive : scale ≤ coins
  pub exact : quote_cents coins cents scale * scale ≡ coins * cents

regroup : (k cents scale : ℕ) → k * scale * cents ≡ k * cents * scale
regroup k cents scale = omega arith

exact_quote :
    (k cents scale : ℕ) → 0 < scale → k * scale * cents / scale * scale ≡ k * scale * cents
exact_quote k cents scale h =
    ap (λ n. n / scale * scale) (regroup k cents scale)
    ∙ (ap (λ n. n * scale) (mul-div_cancel (k * cents) h) ∙ sym (regroup k cents scale))

grows : (k scale : ℕ) → 1 ≤ k → scale ≤ k * scale
grows zero scale h = absurd (omega arith)
grows (suc k) scale h = omega arith

at_least : (n scale : ℕ) → scale ≤ max 1 n * scale
at_least n scale = grows (max 1 n) scale (omega arith)

-- A share of the circulation is at least one whole coin, and the dollar side of a quote on it, at
-- any price in cents, is exact.
pub share_of-IsWhole :
    (circulation : ℤ) (share_bps cents scale : ℕ)
    → 0 < scale
    → IsWhole scale cents (share_of circulation share_bps scale)
unfolding share_of quote_cents
share_of-IsWhole circulation share_bps cents scale h = record {
  positive = at_least _ scale;
  exact = exact_quote _ cents scale h;
}

append-empty : {A : Type 0} (xs ys : List A) → xs ++ ys ≡ [] → (xs ≡ []) × (ys ≡ [])
append-empty [] ys h = (refl, h)
append-empty (x ∷ xs) ys h = cc

some_errors : (e : PlanError) (es : List PlanError) → ¬ (e ∷ es ≡ [])
some_errors e es h = cc

-- A part without errors
record Clean (p : Part) : Type 0 where
  clean : p.errors ≡ []

then-Clean : (p q : Part) → Clean (p then q) → Clean p × Clean q
unfolding ◌then◌
then-Clean p q h =
    let (first, rest) = append-empty p.errors q.errors h.clean in
    (record { clean = first }, record { clean = rest })

error_if-Clean : (b : Bool) (e : PlanError) → Clean (error_if b e) → b ≡ false
unfolding error_if
error_if-Clean true e h = absurd (some_errors e [] h.clean)
error_if-Clean false e h = refl

capacity-Clean :
    (after capacity reserve : ℕ) (e : PlanError) (w : PlanWarning)
    → Clean (capacity_part after capacity reserve e w)
    → after ≤ capacity
unfolding capacity_part error_if
capacity-Clean after capacity reserve e w h = ground (arith, h.clean, some_errors e [])

shortage-Clean :
    (short : ℤ) (top_up : Bool) (step : ℕ → Step) (e : PlanError)
    → Clean (shortage_part short top_up step e)
    → top_up ≡ false
    → short ≤ℤ pos 0
unfolding shortage_part error_if
shortage-Clean short top_up step e h k = ground (arith, h.clean, some_errors e [])

-- What the section on dollars promises.
pub record IsSafe (input : MarketInput) (f : Forex) : Type 0 where
  pub priced : (any is_low f.bids || any is_low f.asks) ≡ false
  pub uncrossed : Uncrossed f.bids f.asks
  pub fits : quotes_after input f ≤ quote_capacity
  pub dollars : f.top_up_usd ≡ false → pos (bid_cents input f) ≤ℤ input.usd_cents
  pub coins : f.top_up_coins ≡ false → pos (ask_coins input f) ≤ℤ input.balance

covered : (a b : ℤ) → a -ℤ b ≤ℤ pos 0 → a ≤ℤ b
covered a b h = omega int_laws

forex_part-IsSafe : (input : MarketInput) (f : Forex) → Clean (forex_part input f) → IsSafe input f
unfolding forex_part
forex_part-IsSafe input f h =
    let (_, h1) = then-Clean _ _ h in
    let (low, h2) = then-Clean _ _ h1 in
    let (crossed, h3) = then-Clean _ _ h2 in
    let (_, h4) = then-Clean _ _ h3 in
    let (full, h5) = then-Clean _ _ h4 in
    let (usd, h6) = then-Clean _ _ h5 in
    let (coins, _) = then-Clean _ _ h6 in
    record {
      priced = error_if-Clean _ _ low;
      uncrossed = is_crossed-Uncrossed f.bids f.asks (error_if-Clean _ _ crossed);
      fits = capacity-Clean _ _ _ _ _ full;
      dollars = λ e. covered _ _ (shortage-Clean _ _ _ _ usd e);
      coins = λ e. covered _ _ (shortage-Clean _ _ _ _ coins e);
    }

lending_part-fits :
    (input : MarketInput) (l : Lending)
    → Clean (lending_part input l)
    → loans_after input l ≤ loan_capacity
unfolding lending_part
lending_part-fits input l h =
    let (_, h1) = then-Clean _ _ h in
    let (_, h2) = then-Clean _ _ h1 in
    let (_, h3) = then-Clean _ _ h2 in
    let (_, h4) = then-Clean _ _ h3 in
    let (full, _) = then-Clean _ _ h4 in capacity-Clean _ _ _ _ _ full

some_injective : {A : Type 0} {a b : A} → some a ≡ some b → a ≡ b
some_injective h = cc

given-Clean :
    {A : Type 0} (o : Option A) (part : A → Part) (a : A)
    → o ≡ some a
    → Clean (when_given o part)
    → Clean (part a)
given-Clean none part a e h = cc
given-Clean (some b) part a e h = subst (λ c. Clean (part c)) (some_injective e) h

positive : (n : ℤ) → leb_ℤ n (pos 0) ≡ false → pos 1 ≤ℤ n
positive n h = ground arith

-- Where a plan has no errors, the circulation is positive; the exchange offers have prices of at
-- least a cent, every bid is below every ask, they fit on the board, and where no dollars or coins
-- are issued for it, what Nana has covers all bids or all asks; and the loan offers fit.
pub plan_market-IsSafe :
    (calendar : Calendar) (input : MarketInput)
    → (plan_market calendar input).errors ≡ []
    → (pos 1 ≤ℤ input.circulation)
      × ((f : Forex) → input.forex ≡ some f → IsSafe input f)
      × ((l : Lending) → input.lending ≡ some l → loans_after input l ≤ loan_capacity)
unfolding plan_market
plan_market-IsSafe calendar input h =
    let (some_coins, h1) = then-Clean _ _ record { clean = h } in
    let (forex, h2) = then-Clean _ _ h1 in
    let (lending, _) = then-Clean _ _ h2 in
    (
      positive input.circulation (error_if-Clean _ _ some_coins),
      λ f e. forex_part-IsSafe input f (given-Clean input.forex (forex_part input) f e forex),
      λ l e. lending_part-fits input l (given-Clean input.lending (lending_part input) l e lending),
    )
