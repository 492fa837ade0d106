-- ===== src/Ledger/Lottos/Balance.antt =====
-- The postings of a payout sum to zero, so that `append` never finds them unbalanced.
use nanacoin.Prelude.{
  ℕ, ◌-◌, ◌*◌, ◌≡◌, refl, sym, ap, ◌∙◌, zero-+ℤ, arith, or_else, [], ◌∷◌, map, keep, ◌≤◌, ℤ, pos,
  neg, ◌+ℤ◌, sum_by, int_laws, Bool-cases, inl, inr, eqb_ℤ, eqb_ℤ_iff, pos_part, neg_part,
}
use nanacoin.Prelude.Maps.{Dict, lookup, insert}
use nanacoin.Model.{AccountId, same_account, Draw}
use nanacoin.Ledger.State.{Ledger, sum_amounts}
use nanacoin.Ledger.Lottos.Fair.{sold_tickets}
use nanacoin.Ledger.Lottos.Scaled.{IsSound}
use nanacoin.Ledger.Lottos.Payouts.{
  add_total, give_back, payout_totals, total_posting, moves_money, payout_postings,
  interest_postings, is_savings, funded,
}

abbrev entry_amount : AccountId × ℤ → ℤ
entry_amount (a, x) = x

abbrev total : Dict AccountId ℤ → ℤ
unfolding sum_by
total = sum_by entry_amount

same_write : (b l t v : ℤ) → t +ℤ l ≡ b +ℤ v → (y : ℤ) → y +ℤ t +ℤ l ≡ y +ℤ b +ℤ v
same_write b l t v h y = omega (int_laws, ap pos_part h, ap neg_part h)

total-insert :
    (a : AccountId) (v : ℤ) (totals : Dict AccountId ℤ)
    → total (insert same_account a v totals) +ℤ or_else (lookup same_account a totals) (pos 0)
      ≡ total totals +ℤ v
unfolding sum_by
total-insert a v [] = omega int_laws
total-insert a v ((b, y) ∷ totals) = elim (Bool-cases (same_account b a)) [
  | inl e ↦ rw e (omega int_laws)
  | inr e ↦ rw e (same_write (total totals) _ _ v (total-insert a v totals) y)
]

cancel : (l t b x : ℤ) → t +ℤ l ≡ b +ℤ (l +ℤ x) → t ≡ b +ℤ x
cancel l t b x h = omega (int_laws, ap pos_part h, ap neg_part h)

total-add_total :
    (a : AccountId) (x : ℤ) (totals : Dict AccountId ℤ)
    → total (add_total a x totals) ≡ total totals +ℤ x
total-add_total a x totals =
    let old = or_else (lookup same_account a totals) (pos 0) in
    cancel old _ (total totals) x (total-insert a (old +ℤ x) totals)

total-give_back :
    (price : ℕ) (entries : Dict AccountId ℕ) (totals : Dict AccountId ℤ)
    → total (give_back price entries totals) ≡ total totals +ℤ pos (sold_tickets entries * price)
unfolding sold_tickets
total-give_back price [] totals = omega int_laws
total-give_back price ((a, n) ∷ entries) totals =
    rw
      (
        total-give_back price entries (add_total a (pos (n * price)) totals),
        total-add_total a (pos (n * price)) totals,
      )
      (omega int_laws)

total-payout : (d : Draw) (w : AccountId) → IsSound d → total (payout_totals d w) ≡ pos 0
unfolding sum_by
total-payout d w h = elim (Bool-cases (is_savings d.terms.kind)) [
  | inl e ↦
      rw
        (
          e,
          total-give_back d.terms.ticket_price d.entries
              ((AccountId.lotto_pool d.id, pos 0 +ℤ neg (pos d.pool)) ∷ []),
          h.counted,
          sym h.priced,
        )
        (omega int_laws)
  | inr e ↦
      rw
        (
          e,
          total-add_total w (pos d.pool)
              ((AccountId.lotto_pool d.id, pos 0 +ℤ neg (pos d.pool)) ∷ []),
        )
        (omega int_laws)
]

sum-moved :
    (s : Ledger) (totals : Dict AccountId ℤ)
    → sum_amounts (keep moves_money (map (total_posting s) totals)) ≡ total totals
unfolding sum_amounts sum_by
sum-moved s [] = refl
sum-moved s ((a, x) ∷ totals) = elim (Bool-cases (eqb_ℤ x (pos 0))) [
  | inl e ↦ rw (e, (eqb_ℤ_iff x (pos 0)).0 e) (sum-moved s totals ∙ sym (zero-+ℤ _))
  | inr e ↦ rw e (ap (x +ℤ◌) (sum-moved s totals))
]

interest_total :
    (paid interest : ℕ)
    → paid ≤ interest
    → neg (pos paid) +ℤ (neg (pos (interest - paid)) +ℤ (pos interest +ℤ pos 0)) ≡ pos 0
interest_total paid interest h = omega int_laws

three_total :
    (a b c : AccountId) (x y z : ℤ)
    → total ((a, x) ∷ (b, y) ∷ (c, z) ∷ []) ≡ x +ℤ (y +ℤ (z +ℤ pos 0))
unfolding sum_by
three_total a b c x y z = refl

-- For a draw whose pool is the price of its tickets, the postings of the principal sum to zero,
-- whoever wins, and so do those of the interest, whatever the house can pay of it.
pub payout_postings-balance :
    (s : Ledger) (d : Draw) (winner : AccountId)
    → IsSound d
    → (sum_amounts (payout_postings s d winner) ≡ pos 0)
      × (sum_amounts (interest_postings s d winner) ≡ pos 0)
payout_postings-balance s d w h = (
  sum-moved s (payout_totals d w) ∙ total-payout d w h,
  sum-moved s (
        (d.house, neg (pos (funded s d)))
        ∷ (AccountId.system_issuance, neg (pos (d.interest - funded s d)))
        ∷ (w, pos d.interest)
        ∷ [])
      ∙ three_total d.house AccountId.system_issuance w _ _ _
      ∙ interest_total (funded s d) d.interest (omega arith),
)
