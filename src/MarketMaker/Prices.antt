-- ===== src/MarketMaker/Prices.antt =====
-- Best prices, and prices that do not cross.
use nanacoin.Prelude.{
  ℕ, ◌≤◌, ◌<◌, ◌≡◌, refl, subst, min, false, Option, none, some, List, [], ◌∷◌, All, arith, leb,
}
use nanacoin.MarketMaker.{PriceTier}
use nanacoin.MarketMaker.Steps.{is_crossed, best_bid, best_ask}

-- The best prices bound the others.
below_best : (ts : List PriceTier) → All (λ (t : PriceTier). t.cents ≤ best_bid ts) ts
below_best [] = tt
below_best (t ∷ ts) =
    (omega arith, All-weaker (best_bid ts) (best_bid (t ∷ ts)) ts (omega arith) (below_best ts))
  where
    All-weaker :
        (m n : ℕ) (us : List PriceTier)
        → m ≤ n
        → All (λ (t : PriceTier). t.cents ≤ m) us
        → All (λ (t : PriceTier). t.cents ≤ n) us
    All-weaker m n [] h k = tt
    All-weaker m n (u ∷ us) h (k, ks) = (omega arith, All-weaker m n us h ks)

above :
    (m n : ℕ) (us : List PriceTier)
    → n ≤ m
    → All (λ (t : PriceTier). m ≤ t.cents) us
    → All (λ (t : PriceTier). n ≤ t.cents) us
above m n [] h k = tt
above m n (u ∷ us) h (k, ks) = (omega arith, above m n us h ks)

least_of_two :
    (a c m : ℕ) (o : Option ℕ)
    → o ≡ some c
    → (elim o [ none ↦ some a | some d ↦ some (min a d) ]) ≡ some m
    → m ≡ min a c
least_of_two a c m none e h = cc
least_of_two a c m (some d) e h = ground arith

asks_some : (t : PriceTier) (ts : List PriceTier) → (c : ℕ) × (best_ask (t ∷ ts) ≡ some c)
asks_some t [] = (t.cents, refl)
asks_some t (u ∷ ts) = let (c, e) = asks_some u ts in (min t.cents c, rw e refl)

above_best :
    (t : PriceTier) (ts : List PriceTier) (m : ℕ)
    → best_ask (t ∷ ts) ≡ some m
    → All (λ (u : PriceTier). m ≤ u.cents) (t ∷ ts)
above_best t [] m h = (ground arith, tt)
above_best t (u ∷ ts) m h =
    let (c, e) = asks_some u ts in
    let least = least_of_two t.cents c m (best_ask (u ∷ ts)) e h in
    (omega (arith, least), above c m (u ∷ ts) (omega (arith, least)) (above_best u ts c e))

-- Every bid is below every ask.
abbrev pub Uncrossed : List PriceTier → List PriceTier → Type 0
Uncrossed bids asks = All (λ (b : PriceTier). All (λ (a : PriceTier). b.cents < a.cents) asks) bids

no_asks : (bids : List PriceTier) → Uncrossed bids []
no_asks [] = tt
no_asks (b ∷ bids) = (tt, no_asks bids)

asks_beyond :
    (n m : ℕ) (asks : List PriceTier)
    → n < m
    → All (λ (a : PriceTier). m ≤ a.cents) asks
    → All (λ (a : PriceTier). n < a.cents) asks
asks_beyond n m [] h k = tt
asks_beyond n m (a ∷ asks) h (k, ks) = (omega arith, asks_beyond n m asks h ks)

between :
    (n m : ℕ) (bids asks : List PriceTier)
    → n < m
    → All (λ (b : PriceTier). b.cents ≤ n) bids
    → All (λ (a : PriceTier). m ≤ a.cents) asks
    → Uncrossed bids asks
between n m [] asks h k l = tt
between n m (b ∷ bids) asks h (k, ks) l =
    (asks_beyond b.cents m asks (omega arith) l, between n m bids asks h ks l)

not_leb : (a b : ℕ) → leb a b ≡ false → b < a
not_leb a b h = ground arith

pub is_crossed-Uncrossed :
    (bids asks : List PriceTier) → is_crossed bids (best_ask asks) ≡ false → Uncrossed bids asks
is_crossed-Uncrossed [] asks h = tt
is_crossed-Uncrossed (b ∷ bids) [] h = no_asks (b ∷ bids)
is_crossed-Uncrossed (b ∷ bids) (a ∷ asks) h =
    let (c, e) = asks_some a asks in
    between (best_bid (b ∷ bids)) c (b ∷ bids) (a ∷ asks)
      (not_leb c (best_bid (b ∷ bids)) (subst (λ o. is_crossed (b ∷ bids) o ≡ false) e h))
      (below_best (b ∷ bids)) (above_best a asks c e)
