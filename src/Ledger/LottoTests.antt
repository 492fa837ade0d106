-- ===== src/Ledger/LottoTests.antt =====
-- A savings lotto at concrete tickets and random numbers.
use nanacoin.Prelude.{
  ℕ, ◌/◌, ◌%◌, ◌<◌, ◌≡◌, refl, arith, some, none, List, [], ◌∷◌, pos, codes, ◌==◌,
}
use nanacoin.Model.{AccountId, LottoKind, LottoStatus, Draw}
use nanacoin.Ledger.State.{Ledger, sum_amounts}
use nanacoin.Ledger.Requests.{initial}
use nanacoin.Ledger.Lottos.Payouts.{
  word_count, fair_bound, sample, payout_postings, interest_postings, winner_of,
}
use nanacoin.Ledger.Lottos.Fair.{
  count_below, sold_tickets, held, wins, fair_bound-equal, sample-ends, wins-held,
}
use nanacoin.Ledger.Lottos.Pools.{Sound, LottoAction, act_all, act_all-Sound}
use nanacoin.Ledger.Lottos.Scaled.{IsSound}
use nanacoin.Ledger.Lottos.Balance.{payout_postings-balance}
use nanacoin.Ledger.Tests.{nana, ann}

-- Ann holds two tickets of ten coins, Ben three.
abbrev drawing : Draw
drawing = record {
  id = 1;
  terms = record {
    kind = LottoKind.savings;
    title = codes "Savings";
    ticket_price = 10;
    closes_at = 2000;
    rate_bps = 500;
  };
  house = AccountId.member 1;
  pool = 50;
  interest = 2;
  tickets = 5;
  winner = none;
  winner_name = none;
  due_at = 3000;
  status = LottoStatus.open_lotto;
  entries = (AccountId.member 2, 2) ∷ (AccountId.member 3, 3) ∷ [];
}

drawing-IsSound : IsSound drawing
unfolding sold_tickets
drawing-IsSound = record { counted = refl; priced = refl; earned = omega arith }

abbrev household : Ledger
household = record (initial 40000000) { lotto = drawing ∷ [] }

second_wins : winner_of 2 drawing.entries ≡ some (AccountId.member 3)
unfolding winner_of
second_wins = refl

rejected : sample (fair_bound 5) (4294967295 ∷ 7 ∷ []) ≡ some 7
unfolding sample
rejected = refl

fair_bound-equal_example : count_below (λ random. random % 5 == 2) (fair_bound 5) ≡ word_count / 5
fair_bound-equal_example = fair_bound-equal 5 2 (omega arith)

sample-ends_example :
    (random : ℕ) × (sample (fair_bound 5) (4294967295 ∷ 7 ∷ []) ≡ some random)
    × (random < fair_bound 5)
sample-ends_example = sample-ends 5 (4294967295 ∷ 7 ∷ []) (omega arith) (omega arith) refl

wins-held_example :
    count_below (wins (AccountId.member 3) drawing.entries) (sold_tickets drawing.entries)
    ≡ held (AccountId.member 3) drawing.entries
wins-held_example = wins-held (AccountId.member 3) drawing.entries

payout_postings-balance_example :
    (sum_amounts (payout_postings household drawing (AccountId.member 3)) ≡ pos 0)
    × (sum_amounts (interest_postings household drawing (AccountId.member 3)) ≡ pos 0)
payout_postings-balance_example =
    payout_postings-balance household drawing (AccountId.member 3) drawing-IsSound

-- Nana opens another lotto, Ann asks for tickets, the first is drawn by hand, and a reform gives
-- every amount another digit.
abbrev acting : List LottoAction
acting =
    LottoAction.create_draw nana drawing.terms 1000
    ∷ LottoAction.buy ann 2 (pos 3) 1200
    ∷ LottoAction.resolve nana 1500 (λ id. 4294967295 ∷ 7 ∷ [])
    ∷ LottoAction.reform (pos 1)
    ∷ []

act_all-Sound_example : Sound (act_all acting household)
act_all-Sound_example = act_all-Sound acting household (drawing-IsSound, tt)
