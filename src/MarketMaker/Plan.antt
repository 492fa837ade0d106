-- ===== src/MarketMaker/Plan.antt =====
-- The section of `planMarket` on lottos, and the plan.
use nanacoin.Prelude.{
  ℕ, zero, suc, ◌+◌, ◌-◌, Bool, true, false, ◌&&◌, ◌||◌, not, if◌then◌else◌, Option, none, some,
  List, [], ◌∷◌, ◌++◌, length, keep, take_units, pos, leb_ℤ, ltb, leb, ◌==◌, Text, codes, trim,
  is_empty,
}
use nanacoin.Model.{Draw, LottoKind, LottoTerms, LottoStatus}
use nanacoin.MarketMaker.{
  lotto_capacity, lotto_reserve, LottoSeries, MarketInput, Step, PlanError, PlanWarning, Part,
  ◌then◌, nothing, do_steps, error_if, warn_if,
}
use nanacoin.MarketMaker.Steps.{capacity_part, forex_part, lending_part}

-- The platform's calendar: the same day some months later, and the name of a month.
pub record Calendar : Type 0 where
  pub add_months : ℕ → ℕ → ℕ
  pub month_name : ℕ → Text

abbrev is_simple_kind : LottoKind → Bool
is_simple_kind LottoKind.simple = true
is_simple_kind _ = false

abbrev draw_title : Calendar → LottoSeries → ℕ → Text
draw_title calendar s closes_at =
    let named = trim s.title in
    take_units 80 (
      (if is_empty named then codes "Monthly lotto" else named)
      ++ codes " · "
      ++ calendar.month_name closes_at)

abbrev draw_terms : Calendar → LottoSeries → ℕ → LottoTerms
draw_terms calendar s i =
    let closes_at = calendar.add_months s.first_close i in
    record {
      kind = s.kind;
      title = draw_title calendar s closes_at;
      ticket_price = s.ticket_price;
      closes_at = closes_at;
      rate_bps = if is_simple_kind s.kind then 0 else s.rate_bps;
    }

-- The draws with `left` still to come
abbrev draw_steps : Calendar → LottoSeries → ℕ → List Step
draw_steps calendar s zero = []
draw_steps calendar s (suc left) =
    Step.lotto (draw_terms calendar s (s.count - suc left)) ∷ draw_steps calendar s left

abbrev is_unfinished : LottoStatus → Bool
is_unfinished LottoStatus.settled = false
is_unfinished _ = true

abbrev pub lottos_after : MarketInput → LottoSeries → ℕ
lottos_after input s = length (keep (λ (d : Draw). is_unfinished d.status) input.lottos) + s.count

unfoldable pub series_part : Calendar → MarketInput → LottoSeries → Part
unfolding trim take_units
series_part calendar input s =
    error_if (s.ticket_price == 0) PlanError.free_ticket
    then error_if (not (is_simple_kind s.kind) && ltb 10000 s.rate_bps) PlanError.bad_rate
    then capacity_part (lottos_after input s) lotto_capacity lotto_reserve PlanError.lottos_full
        PlanWarning.few_lottos
    then warn_if true PlanWarning.open_at_once
    then do_steps (draw_steps calendar s s.count)

abbrev is_bad_draw_count : LottoSeries → Bool
is_bad_draw_count s = ltb s.count 1 || ltb 12 s.count

-- The section on lottos
unfoldable pub lotto_part : Calendar → MarketInput → LottoSeries → Part
lotto_part calendar input s =
    if is_bad_draw_count s
    then error_if true PlanError.bad_count
    else if leb s.first_close input.now
    then error_if true PlanError.bad_close
    else series_part calendar input s

abbrev pub when_given {ℓ} : {A : Type ℓ} → Option A → (A → Part) → Part
when_given none f = nothing
when_given (some a) f = f a

abbrev is_absent {ℓ} : {A : Type ℓ} → Option A → Bool
is_absent none = true
is_absent (some a) = false

-- `planMarket(input)`, without the totals
unfoldable pub plan_market : Calendar → MarketInput → Part
plan_market calendar input =
    error_if (leb_ℤ input.circulation (pos 0)) PlanError.no_circulation
    then when_given input.forex (forex_part input)
    then when_given input.lending (lending_part input)
    then when_given input.lotto (lotto_part calendar input)
    then error_if (is_absent input.forex && (is_absent input.lending && is_absent input.lotto))
        PlanError.nothing_chosen
