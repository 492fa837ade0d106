-- ===== src/Ledger/Lottos/Pools.antt =====
-- What is true of every draw at every time, and why a payout balances.
use nanacoin.Prelude.{
  ℕ, ◌+◌, ◌*◌, ◌/◌, ◌≤◌, ◌≡◌, refl, sym, ap, ◌∙◌, subst, arith, Bool, true, false, if◌then◌else◌,
  Option, inl, inr, some, none, or_else, List, [], ◌∷◌, length, All, All-append, All-update, ℤ,
}
use nanacoin.Prelude.Maps.{Dict, lookup, insert}
use nanacoin.Exec.{Exec, modify, gets, pure, ◌>>=◌, ◌>>◌}
use nanacoin.Exec.Keeps.{Keeps, Keeps-modify, Keeps-bind, Keeps-pure, Keeps-for_each, keeps_rules}
use nanacoin.Model.{
  AccountId, same_account, User, TransactionKind, Actor, Memo, Posting, LottoTerms, LottoStatus,
  Draw,
}
use nanacoin.Ledger.State.{Ledger}
use nanacoin.Ledger.Delivery.{Options}
use nanacoin.Ledger.Append.{append}
use nanacoin.Ledger.Book.{append-cases}
use nanacoin.Ledger.Lottos.{
  post_lotto, new_draw, add_draw, create, update_draw, has_draw_id, sold_to, buy_tickets_of,
  buy_tickets, require_active_member,
}
use nanacoin.Ledger.Lottos.Fair.{sold_tickets}
use nanacoin.Ledger.Lottos.Scaled.{IsSound, reform_draws, reform_draws-Sound}
use nanacoin.Ledger.Lottos.Payouts.{
  set_status, close_at, won_by, pay_prizes, draw_winner, finish_draw, settle_waiting, settle_draw,
  settle_draws, resolve_now,
}

abbrev pub Sound : Ledger → Type 0
Sound s = All IsSound s.lotto

-- An entry that is made or raised.
sold_tickets-insert :
    (a : AccountId) (count : ℕ) (entries : Dict AccountId ℕ)
    → sold_tickets
        (insert same_account a (or_else (lookup same_account a entries) 0 + count) entries)
      ≡ sold_tickets entries + count
unfolding sold_tickets
sold_tickets-insert a count [] = omega arith
sold_tickets-insert a count ((b, n) ∷ entries) = ground (arith, sold_tickets-insert a count entries)

rounded_down : (n : ℕ) → n / 10000 * 10000 ≤ n
rounded_down n = omega arith

new_draw-IsSound :
    (id : ℕ) (house : AccountId) (terms : LottoTerms) → IsSound (new_draw id house terms)
unfolding sold_tickets
new_draw-IsSound id house terms = record {
  counted = refl;
  priced = omega arith;
  earned = omega arith;
}

sold_to-IsSound : (a : AccountId) (count : ℕ) (d : Draw) → IsSound d → IsSound (sold_to a count d)
sold_to-IsSound a count d h = record {
  counted = sold_tickets-insert a count d.entries ∙ ap (◌+ count) h.counted;
  priced = omega (arith, h.priced);
  earned = rounded_down _;
}

-- What a settlement writes to a draw.
set_status-IsSound : (status : LottoStatus) (d : Draw) → IsSound d → IsSound (set_status status d)
set_status-IsSound status d h = record { counted = h.counted; priced = h.priced; earned = h.earned }

close_at-IsSound : (now : ℕ) (d : Draw) → IsSound d → IsSound (close_at now d)
close_at-IsSound now d h = record { counted = h.counted; priced = h.priced; earned = h.earned }

won_by-IsSound : (w : AccountId) (s : Ledger) (d : Draw) → IsSound d → IsSound (won_by w s d)
won_by-IsSound w s d h = record { counted = h.counted; priced = h.priced; earned = h.earned }

forced-IsSound :
    (force : Bool) (now : ℕ) (d : Draw) → IsSound d → IsSound (if force then close_at now d else d)
forced-IsSound true now d h = close_at-IsSound now d h
forced-IsSound false now d h = h

append-Sound :
    (k : TransactionKind) (a : Actor) (m : Memo) (ps : List Posting) (opts : Options)
    → Keeps Sound (append k a m ps opts)
append-Sound k a m ps opts = record {
  kept = λ s h. elim (append-cases k a m ps opts s) [
    | inl same ↦ subst Sound (sym same) h
    | inr added ↦ subst (All IsSound) (sym added.extends.frame.lotto) h
  ];
}

post_lotto-Sound : (id : ℕ) (m : Memo) (ps : List Posting) → Keeps Sound (post_lotto id m ps)
unfolding post_lotto
post_lotto-Sound id m ps = search (keeps_rules, append-Sound)

update_draw-Sound :
    (id : ℕ) (f : Draw → Draw)
    → ((d : Draw) → IsSound d → IsSound (f d))
    → Keeps Sound (modify (update_draw id f))
unfolding update_draw
update_draw-Sound id f step =
    Keeps-modify _ (λ s h. All-update IsSound (has_draw_id id) f s.lotto step h)

add_draw-Sound : (d : Draw) → IsSound d → Keeps Sound (modify (add_draw d))
add_draw-Sound d sound = Keeps-modify _ (λ s h. All-append IsSound s.lotto (d ∷ []) h (sound, tt))

require_active_member-Sound : (u : User) → Keeps Sound (require_active_member u)
unfolding require_active_member
require_active_member-Sound u = search keeps_rules

ruleset sound_rules = (
  keeps_rules, post_lotto-Sound, update_draw-Sound, add_draw-Sound, require_active_member-Sound,
  set_status-IsSound, close_at-IsSound, won_by-IsSound, forced-IsSound, sold_to-IsSound,
  new_draw-IsSound,
)

after_read :
    {A B : Type 0} (read : Ledger → A) (rest : A → Exec Ledger B)
    → ((s : Ledger) → Keeps Sound (rest (read s)))
    → Keeps Sound (gets read >>= rest)
unfolding ◌>>=◌
after_read read rest step = record { kept = λ s h. (step s).kept s h }

add_new_draw-Sound :
    (actor : User) (terms : LottoTerms)
    → Keeps Sound (
        gets (λ s. new_draw (length s.lotto + 1) actor.account terms) >>= λ d.
        modify (add_draw d) >> pure d)
add_new_draw-Sound actor terms =
    after_read _ _
      (λ s. Keeps-bind _ _ (add_draw-Sound _ (new_draw-IsSound _ _ _)) (λ _. Keeps-pure _))

create-Sound : (u : User) (terms : LottoTerms) (now : ℕ) → Keeps Sound (create u terms now)
unfolding create
create-Sound u terms now = search (keeps_rules, add_new_draw-Sound) depth 20

buy_tickets-Sound : (u : User) (id : ℕ) (n : ℤ) (now : ℕ) → Keeps Sound (buy_tickets u id n now)
unfolding buy_tickets buy_tickets_of
buy_tickets-Sound u id n now = search sound_rules depth 20

name_winner-Sound :
    (id : ℕ) (w : AccountId) → Keeps Sound (modify (λ s. update_draw id (won_by w s) s))
unfolding update_draw
name_winner-Sound id w =
    Keeps-modify _ (λ s h. All-update IsSound (has_draw_id id) _ s.lotto (won_by-IsSound w s) h)

pay_prizes-Sound : (d : Draw) (w : AccountId) → Keeps Sound (pay_prizes d w)
unfolding pay_prizes
pay_prizes-Sound d w = search (sound_rules, name_winner-Sound) depth 20

draw_winner-Sound : (d : Draw) (o : Option ℕ) → Keeps Sound (draw_winner d o)
unfolding draw_winner
draw_winner-Sound d none = search sound_rules
draw_winner-Sound d (some r) = search (sound_rules, pay_prizes-Sound)

settle_draw-Sound :
    (now : ℕ) (force : Bool) (rs : List ℕ) (d : Draw) → Keeps Sound (settle_draw now force rs d)
unfolding settle_draw settle_waiting finish_draw
settle_draw-Sound now force rs d = search (sound_rules, draw_winner-Sound) depth 20

settle_draws-Sound :
    (now : ℕ) (force : Bool) (rs : ℕ → List ℕ) → Keeps Sound (settle_draws now force rs)
unfolding settle_draws
settle_draws-Sound now force rs = search (keeps_rules, Keeps-for_each, settle_draw-Sound)

resolve_now-Sound : (u : User) (now : ℕ) (rs : ℕ → List ℕ) → Keeps Sound (resolve_now u now rs)
unfolding resolve_now
resolve_now-Sound u now rs = search (sound_rules, settle_draws-Sound)

pub data LottoAction : Type 0 where
  create_draw : User → LottoTerms → ℕ → LottoAction
  buy : User → ℕ → ℤ → ℕ → LottoAction
  resolve : User → ℕ → (ℕ → List ℕ) → LottoAction
  check : ℕ → (ℕ → List ℕ) → LottoAction
  reform : ℤ → LottoAction

-- A call of the lotto, at a time, with the random numbers that it meets. A reform is by a power of
-- ten.
unfoldable pub act : LottoAction → Exec Ledger (Unit {0})
unfolding ◌>>=◌
act (LottoAction.create_draw u terms now) = create u terms now >> pure tt
act (LottoAction.buy u id n now) = buy_tickets u id n now
act (LottoAction.resolve u now rs) = resolve_now u now rs >> pure tt
act (LottoAction.check now rs) = settle_draws now false rs
act (LottoAction.reform exponent) = reform_draws exponent

unfoldable pub act_all : List LottoAction → Ledger → Ledger
act_all [] s = s
act_all (a ∷ rest) s = act_all rest (act a s).1

act-Sound : (a : LottoAction) → Keeps Sound (act a)
unfolding act
act-Sound (LottoAction.create_draw u terms now) = search (keeps_rules, create-Sound)
act-Sound (LottoAction.buy u id n now) = buy_tickets-Sound u id n now
act-Sound (LottoAction.resolve u now rs) = search (keeps_rules, resolve_now-Sound)
act-Sound (LottoAction.check now rs) = settle_draws-Sound now false rs
act-Sound (LottoAction.reform e) = record { kept = reform_draws-Sound e }

-- Whatever calls of the lotto are made, reforms by any power of ten included, and whether or not
-- they throw, in every draw the tickets sold are those of its entries, the pool is their price, and
-- the interest is at most the pool's at the rate, if that was so before.
pub act_all-Sound : (actions : List LottoAction) (s : Ledger) → Sound s → Sound (act_all actions s)
unfolding act_all
act_all-Sound [] s h = h
act_all-Sound (a ∷ rest) s h = act_all-Sound rest _ ((act-Sound a).kept s h)
