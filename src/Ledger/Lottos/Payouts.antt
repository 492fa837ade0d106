-- ===== src/Ledger/Lottos/Payouts.antt =====
-- The settlement of lottos (`settle`, `resolveNow` and `tick` of
-- nanacoin_ui/src/app/demo/lotto.ts). The numbers that `crypto.getRandomValues` returns, one list
-- for each draw, are arguments.
use nanacoin.Prelude.{
  ℕ, ◌+◌, ◌-◌, ◌*◌, ◌/◌, ◌%◌, min, Bool, true, false, ◌&&◌, ◌||◌, not, if◌then◌else◌, Option, none,
  some, or_else, List, [], ◌∷◌, keep, map, length, ℤ, pos, pos_part, neg, ◌+ℤ◌, eqb_ℤ, ltb, leb,
  ◌==◌,
}
use nanacoin.Prelude.Maps.{Dict, lookup, insert}
use nanacoin.Exec.{Exec, Fault, pure, raise, gets, throw_if, modify, for_each, ◌>>=◌, ◌>>◌}
use nanacoin.Model.{
  AccountId, same_account, User, is_nana, Memo, Posting, LottoKind, LottoStatus, Draw,
}
use nanacoin.Ledger.State.{Ledger, balance_of}
use nanacoin.Ledger.LoanTicks.{tick_loans}
use nanacoin.Ledger.Lottos.{holder_name, post_lotto, update_draw, is_settled, require_active_member}

abbrev pub word_count : ℕ
word_count = 4294967296

-- `Math.floor(4294967296 / tickets) * tickets`
abbrev pub fair_bound : ℕ → ℕ
fair_bound tickets = word_count / tickets * tickets

-- `do { random = … } while (random >= bound)`; `none` where the numbers end before the loop does.
unfoldable pub sample : ℕ → List ℕ → Option ℕ
sample bound [] = none
sample bound (random ∷ more) = if leb bound random then sample bound more else some random

-- Who holds a ticket, the tickets numbered in the order of the entries.
unfoldable pub winner_of : ℕ → Dict AccountId ℕ → Option AccountId
winner_of ticket [] = none
winner_of ticket ((account, count) ∷ entries) =
    let later = winner_of (ticket - count) entries in
    if ltb ticket count then some account else later

-- `''`, which `winner` is where no entry has the ticket.
abbrev pub nobody : AccountId
nobody = AccountId.foreign 0

abbrev pub is_savings : LottoKind → Bool
is_savings LottoKind.savings = true
is_savings _ = false

-- `add(account, amount)` on the map of totals
abbrev pub add_total : AccountId → ℤ → Dict AccountId ℤ → Dict AccountId ℤ
add_total a amount totals =
    insert same_account a (or_else (lookup same_account a totals) (pos 0) +ℤ amount) totals

abbrev pub give_back : ℕ → List (AccountId × ℕ) → Dict AccountId ℤ → Dict AccountId ℤ
give_back price [] totals = totals
give_back price ((account, count) ∷ entries) totals =
    give_back price entries (add_total account (pos (count * price)) totals)

-- What the principal's payout adds to each account.
abbrev pub payout_totals : Draw → AccountId → Dict AccountId ℤ
payout_totals d winner =
    let start = add_total (AccountId.lotto_pool d.id) (neg (pos d.pool)) [] in
    if is_savings d.terms.kind
    then give_back d.terms.ticket_price d.entries start
    else add_total winner (pos d.pool) start

abbrev pub total_posting : Ledger → AccountId × ℤ → Posting
total_posting s (a, amount) = record { account = a; name = holder_name s a; amount = amount }

abbrev pub moves_money : Posting → Bool
moves_money p = not (eqb_ℤ p.amount (pos 0))

abbrev pub payout_postings : Ledger → Draw → AccountId → List Posting
payout_postings s d winner = keep moves_money (map (total_posting s) (payout_totals d winner))

-- The part of the interest that the house can pay.
abbrev pub funded : Ledger → Draw → ℕ
funded s d = min (pos_part (balance_of s d.house)) d.interest

abbrev pub interest_postings : Ledger → Draw → AccountId → List Posting
interest_postings s d winner =
    let paid = funded s d in
    keep moves_money (
      total_posting s (d.house, neg (pos paid))
      ∷ total_posting s (AccountId.system_issuance, neg (pos (d.interest - paid)))
      ∷ total_posting s (winner, pos d.interest)
      ∷ [])

abbrev pub set_status : LottoStatus → Draw → Draw
set_status status d = record d { status = status }

-- A draw that is settled by hand closes now.
abbrev pub close_at : ℕ → Draw → Draw
close_at now d = record d {
  terms = record d.terms { closes_at = min d.terms.closes_at now };
  due_at = now;
}

abbrev pub won_by : AccountId → Ledger → Draw → Draw
won_by winner s d = record d {
  winner = some winner;
  winner_name = some (holder_name s winner);
  status = LottoStatus.settled;
}

-- Principal, interest, and the winner's name.
unfoldable pub pay_prizes : Draw → AccountId → Exec Ledger (Unit {0})
unfolding ◌>>=◌
pay_prizes d winner = do
  principal ← gets (λ s. payout_postings s d winner)
  post_lotto d.id Memo.lotto_principal principal
  interest ← gets (λ s. interest_postings s d winner)
  if d.interest == 0 then pure tt else post_lotto d.id Memo.lotto_interest interest
  modify (λ s. update_draw d.id (won_by winner s) s)

-- A draw that has tickets, once the loop of random numbers has ended.
unfoldable pub draw_winner : Draw → Option ℕ → Exec Ledger (Unit {0})
draw_winner d none = raise Fault.unfinished
draw_winner d (some random) =
    pay_prizes d (or_else (winner_of (random % d.tickets) d.entries) nobody)

unfoldable pub finish_draw : Draw → List ℕ → Exec Ledger (Unit {0})
unfolding draw_winner
finish_draw d randoms =
    if d.tickets == 0
    then modify (update_draw d.id (set_status LottoStatus.settled))
    else draw_winner d (sample (fair_bound d.tickets) randoms)

-- A draw that waits, and is not settled before it is due.
unfoldable pub settle_waiting : ℕ → Bool → List ℕ → Draw → Exec Ledger (Unit {0})
unfolding ◌>>=◌ finish_draw
settle_waiting now force randoms d =
    if not force && ltb now d.due_at
    then pure tt
    else modify (update_draw d.id (λ e. if force then close_at now e else e))
      >> finish_draw d randoms

-- One round of `settle(now, force)`
unfoldable pub settle_draw : ℕ → Bool → List ℕ → Draw → Exec Ledger (Unit {0})
unfolding ◌>>=◌ settle_waiting
settle_draw now force randoms d =
    if is_settled d.status || (not force && ltb now d.terms.closes_at)
    then pure tt
    else modify (update_draw d.id (set_status LottoStatus.waiting))
      >> settle_waiting now force randoms d

-- `settle(now, force)`. A round changes no other draw, so that each is as the loop's start shows it.
unfoldable pub settle_draws : ℕ → Bool → (ℕ → List ℕ) → Exec Ledger (Unit {0})
unfolding ◌>>=◌ for_each
settle_draws now force randoms = do
  draws ← gets (λ s. s.lotto)
  for_each (λ d. settle_draw now force (randoms d.id) d) draws

-- `resolveNow(actor, now)`: how many draws were pending
unfoldable pub resolve_now : User → ℕ → (ℕ → List ℕ) → Exec Ledger ℕ
unfolding ◌>>=◌ require_active_member settle_draws
resolve_now actor now randoms = do
  require_active_member actor
  throw_if (λ _. not (is_nana actor.role)) Fault.plain
  pending ← gets (λ s. length (keep (λ (d : Draw). not (is_settled d.status)) s.lotto))
  settle_draws now true randoms
  pure pending

-- `tickLoans()` of the ledger, at a time. `+=` reads the revision before the loans are checked.
unfoldable pub tick_ledger : ℕ → (ℕ → List ℕ) → Exec Ledger (Unit {0})
unfolding ◌>>=◌ tick_loans settle_draws
tick_ledger now randoms = do
  modify (λ s. let (n, s') = tick_loans now s in record s' { revision = s.revision + n })
  settle_draws now false randoms
