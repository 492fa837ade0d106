-- ===== src/Economy/Anchored.antt =====
-- A series ends at the value that the server reports now, and its points are in order of time.
use nanacoin.Prelude.{
  ◌≤◌, ◌≡◌, refl, sym, ap, ◌∙◌, arith, true, false, Bool-cases, inl, inr, List, [], ◌∷◌, keep, ℤ,
  pos, ◌+ℤ◌, ◌-ℤ◌, eqb_ℤ, eqb_ℤ_iff, +ℤ_zero, int_laws, Text,
}
use nanacoin.Prelude.Sorting.{sort_by, HeadMeets, Sorted, sort_by-Sorted}
use nanacoin.Model.{AccountId, Transaction}
use nanacoin.Economy.Series.{
  Point, by_commit_order, account_delta, supply_delta, opening, first_point, balance_points,
  supply_points, posts_to, balance_series, money_supply_series,
}

-- The value of the last point, or a given one.
abbrev pub last_value : ℤ → List Point → ℤ
last_value d [] = d
last_value d (p ∷ ps) = last_value p.value ps

-- A value with the changes that follow
abbrev closing_of : (Transaction → ℤ) → List Transaction → ℤ → ℤ
closing_of delta [] value = value
closing_of delta (t ∷ ts) value = closing_of delta ts (value +ℤ delta t)

opening_shift :
    (delta : Transaction → ℤ) (ts : List Transaction) (value x : ℤ)
    → opening delta ts (value -ℤ x) +ℤ x ≡ opening delta ts value
opening_shift delta [] value x = omega int_laws
opening_shift delta (t ∷ ts) value x =
    ap (λ v. opening delta ts v +ℤ x) (swap value x (delta t))
    ∙ opening_shift delta ts (value -ℤ delta t) x
  where
    swap : (a b c : ℤ) → a -ℤ b -ℤ c ≡ a -ℤ c -ℤ b
    swap a b c = omega int_laws

-- Going back and forth again
closing_of-opening :
    (delta : Transaction → ℤ) (ts : List Transaction) (value : ℤ)
    → closing_of delta ts (opening delta ts value) ≡ value
closing_of-opening delta [] value = refl
closing_of-opening delta (t ∷ ts) value =
    ap (closing_of delta ts) (opening_shift delta ts value (delta t))
    ∙ closing_of-opening delta ts value

last-balance_points :
    (a : AccountId) (ts : List Transaction) (start : ℤ)
    → last_value start (balance_points a ts start) ≡ closing_of (account_delta a) ts start
unfolding balance_points
last-balance_points a [] start = refl
last-balance_points a (t ∷ ts) start = last-balance_points a ts (start +ℤ account_delta a t)

last-unchanged : (ps : List Point) (a b : ℤ) → a ≡ b → last_value a ps ≡ last_value b ps
last-unchanged ps a b e = ap (λ v. last_value v ps) e

last-supply_points :
    (ts : List Transaction) (start : ℤ)
    → last_value start (supply_points ts start) ≡ closing_of supply_delta ts start
unfolding supply_points
last-supply_points [] start = refl
last-supply_points (t ∷ ts) start = elim (Bool-cases (eqb_ℤ (supply_delta t) (pos 0))) [
  | inl e ↦ rw e (
      last-unchanged (supply_points ts (start +ℤ supply_delta t)) start (start +ℤ supply_delta t)
        (sym (ap (start +ℤ◌) ((eqb_ℤ_iff (supply_delta t) (pos 0)).0 e) ∙ +ℤ_zero start))
      ∙ last-supply_points ts (start +ℤ supply_delta t))
  | inr e ↦ rw e (last-supply_points ts (start +ℤ supply_delta t))
]

last-first_point :
    (ts : List Transaction) (start closing : ℤ) (ps : List Point)
    → (ts ≡ [] → ps ≡ [])
    → last_value start ps ≡ closing
    → last_value closing (first_point ts start ps) ≡ closing
last-first_point [] start closing ps none h = ap (last_value closing) (none refl)
last-first_point (t ∷ ts) start closing ps none h = h

no_balance_points :
    (a : AccountId) (ts : List Transaction) (start : ℤ) → ts ≡ [] → balance_points a ts start ≡ []
unfolding balance_points
no_balance_points a [] start e = refl
no_balance_points a (t ∷ ts) start e = cc

no_supply_points : (ts : List Transaction) (start : ℤ) → ts ≡ [] → supply_points ts start ≡ []
unfolding supply_points
no_supply_points [] start e = refl
no_supply_points (t ∷ ts) start e = cc

-- In order of time
abbrev pub Earlier : Point → Point → Type 0
Earlier p q = p.at ≤ q.at

abbrev NotAfter : Transaction → Transaction → Type 0
NotAfter a b = a.created_at ≤ b.created_at

commit_order-NotAfter : (a b : Transaction) → by_commit_order a b ≡ true → NotAfter a b
commit_order-NotAfter a b h = ground arith

other_order-NotAfter : (a b : Transaction) → by_commit_order a b ≡ false → NotAfter b a
other_order-NotAfter a b h = ground arith

head-Earlier :
    (a : AccountId) (p : Point) (t : Transaction) (ts : List Transaction) (start : ℤ)
    → p.at ≡ t.created_at
    → HeadMeets NotAfter t ts
    → HeadMeets Earlier p (balance_points a ts start)
unfolding balance_points
head-Earlier a p t [] start e h = tt
head-Earlier a p t (u ∷ ts) start e h = omega (arith, e, h)

balance_points-Sorted :
    (a : AccountId) (ts : List Transaction) (start : ℤ)
    → Sorted NotAfter ts
    → Sorted Earlier (balance_points a ts start)
unfolding balance_points
balance_points-Sorted a [] start h = tt
balance_points-Sorted a (t ∷ ts) start (h, hs) =
    let next = start +ℤ account_delta a t in
    (
      head-Earlier a record { at = t.created_at; value = next } t ts next refl h,
      balance_points-Sorted a ts next hs,
    )

from_first :
    (a : AccountId) (ts : List Transaction) (start : ℤ)
    → Sorted NotAfter ts
    → Sorted Earlier (first_point ts start (balance_points a ts start))
unfolding balance_points
from_first a [] start h = tt
from_first a (t ∷ ts) start h = (omega arith, balance_points-Sorted a (t ∷ ts) start h)

-- The points of the series of a balance are in order of time.
pub balance_series-Sorted :
    (txns : List Transaction) (account : AccountId) (closing : ℤ) (name : Text)
    → Sorted Earlier (balance_series txns account closing name).points
unfolding balance_series
balance_series-Sorted txns account closing name =
    let ordered = sort_by by_commit_order (keep (posts_to account) txns) in
    from_first account ordered (opening (account_delta account) ordered closing) (
      sort_by-Sorted by_commit_order NotAfter commit_order-NotAfter other_order-NotAfter
        (keep (posts_to account) txns))

-- The last point of the series of a balance, if it has points, is the balance reported now, and so
-- is the last point of the money supply the circulation reported now.
pub series-close :
    (txns : List Transaction) (account : AccountId) (closing : ℤ) (name : Text)
    → (last_value closing (balance_series txns account closing name).points ≡ closing)
      × (last_value closing (money_supply_series txns closing name).points ≡ closing)
unfolding balance_series money_supply_series
series-close txns account closing name =
    let kept = sort_by by_commit_order (keep (posts_to account) txns) in
    let all = sort_by by_commit_order txns in
    (
      last-first_point kept (opening (account_delta account) kept closing) closing _
          (no_balance_points account kept _)
          (last-balance_points account kept _
            ∙ closing_of-opening (account_delta account) kept closing),
      last-first_point all (opening supply_delta all closing) closing _ (no_supply_points all _)
          (last-supply_points all _ ∙ closing_of-opening supply_delta all closing),
    )
