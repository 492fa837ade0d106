-- ===== src/Ledger/Lottos/Fair.antt =====
-- Every ticket has the same chance, and every entrant as many as the tickets bought.
use nanacoin.Prelude.{
  ℕ, zero, suc, ◌+◌, ◌-◌, ◌*◌, ◌/◌, ◌%◌, ◌≤◌, ◌<◌, ◌≡◌, refl, ap, ◌∙◌, arith, Bool, true, false,
  if◌then◌else◌, Option, some, none, List, [], ◌∷◌, any, ltb, leb, ◌==◌,
}
use native.Mathlib.Nat.{mul-add-mod_self_left, mul_comm, mod-eq_of_lt, div-add-mod', mod-lt}
use native.Mathlib.Decide.{dec_lt}
use nanacoin.Prelude.Maps.{Dict}
use nanacoin.Model.{AccountId, same_account}
use nanacoin.Ledger.Lottos.Payouts.{word_count, fair_bound, sample, winner_of}

-- How many of the numbers below `n` meet a test.
unfoldable pub count_below : (ℕ → Bool) → ℕ → ℕ
count_below p zero = 0
count_below p (suc n) = (if p n then 1 else 0) + count_below p n

shift : (a j : ℕ) → a + suc j ≡ suc (a + j)
shift a j = omega arith

plus_zero : (a : ℕ) → a + 0 ≡ a
plus_zero a = omega arith

zero_times : (t : ℕ) → 0 * t ≡ 0
zero_times t = omega arith

suc_times : (k t : ℕ) → suc k * t ≡ k * t + t
suc_times k t = omega arith

module _ (p : ℕ → Bool) where
  count_next :
      (a j : ℕ) → count_below p (a + suc j) ≡ (if p (a + j) then 1 else 0) + count_below p (a + j)
  unfolding count_below
  count_next a j = ap (count_below p) (shift a j)

  count_none : (a : ℕ) → count_below p (a + 0) ≡ count_below p a
  count_none a = ap (count_below p) (plus_zero a)

remainder_at : (k t j : ℕ) → j < t → (k * t + j) % t ≡ j
remainder_at k t j h =
    ap (λ x. (x + j) % t) (mul_comm k t) ∙ (mul-add-mod_self_left t k j ∙ mod-eq_of_lt h)

module _ (t r : ℕ) (small : r < t) where
  abbrev hits : ℕ → Bool
  hits x = x % t == r

  -- One number in each block of `t` has the remainder.
  count-part :
      (k j : ℕ)
      → j ≤ t
      → count_below hits (k * t + j) ≡ (if ltb r j then 1 else 0) + count_below hits (k * t)
  count-part k zero h = rw (count_none hits (k * t)) (ground arith)
  count-part k (suc j) h =
      rw (count_next hits (k * t) j, count-part k j (omega arith), remainder_at k t j h)
        (ground arith)

  count-blocks : (k : ℕ) → count_below hits (k * t) ≡ k
  unfolding count_below
  count-blocks zero = rw (zero_times t) refl
  count-blocks (suc k) =
      rw (suc_times k t, count-part k t (omega arith), count-blocks k) (ground (arith, small))

-- Below the bound of the rejection sampling, every ticket of a draw is drawn by equally many
-- random numbers, the number of times that the tickets go into 2 ^ 32.
pub fair_bound-equal :
    (tickets ticket : ℕ)
    → ticket < tickets
    → count_below (λ random. random % tickets == ticket) (fair_bound tickets) ≡ word_count / tickets
fair_bound-equal tickets ticket h = count-blocks tickets ticket h (word_count / tickets)

twice : (n t : ℕ) → t ≤ n → n < word_count → t + n < word_count + n
twice n t h k = omega arith

product_grows : (k t : ℕ) → 0 < k → t ≤ k * t
product_grows zero t h = absurd (omega arith)
product_grows (suc k) t h = omega arith

big_enough : (k t m : ℕ) → k * t + m ≡ word_count → m < t → t < word_count → 2147483648 < k * t
big_enough zero t m e lt small = omega arith
big_enough (suc k) t m e lt small = omega (arith, product_grows (suc k) t (omega arith))

leb-false : (a b : ℕ) → a < b → leb b a ≡ false
leb-false a b h = ground arith

leb-true : (a b : ℕ) → ¬ (a < b) → leb b a ≡ true
leb-true a b h = ground arith

found :
    (bound : ℕ) (randoms : List ℕ)
    → 2147483648 < bound
    → any (λ random. leb random 2147483648) randoms ≡ true
    → (random : ℕ) × (sample bound randoms ≡ some random) × (random < bound)
unfolding sample
found bound [] big low = absurd (ground arith)
found bound (r ∷ rs) big low = elim (dec_lt r bound) [
  | yes h ↦ (r, rw (leb-false r bound h) refl, h)
  | no h ↦ rw (leb-true r bound h) (found bound rs big (ground arith))
]

-- Fewer tickets than random numbers leave more than half of the numbers below the bound.
fair_bound-half :
    (tickets : ℕ) → 0 < tickets → tickets < word_count → 2147483648 < fair_bound tickets
fair_bound-half tickets h k =
    big_enough (word_count / tickets) tickets (word_count % tickets)
      (div-add-mod' word_count tickets) (mod-lt word_count h) k

-- A draw of at least one ticket, and of fewer than 2 ^ 32, ends its loop of random numbers at the
-- latest at the first number in the lower half, with a number below the bound.
pub sample-ends :
    (tickets : ℕ) (randoms : List ℕ)
    → 0 < tickets
    → tickets < word_count
    → any (λ random. leb random 2147483648) randoms ≡ true
    → (random : ℕ) × (sample (fair_bound tickets) randoms ≡ some random)
      × (random < fair_bound tickets)
sample-ends tickets randoms h k low =
    found (fair_bound tickets) randoms (fair_bound-half tickets h k) low

-- Whether an account wins by a ticket.
abbrev pub is_won_by : AccountId → Option AccountId → Bool
is_won_by a none = false
is_won_by a (some w) = same_account w a

abbrev pub wins : AccountId → Dict AccountId ℕ → ℕ → Bool
wins a entries ticket = is_won_by a (winner_of ticket entries)

-- The tickets of a draw, and those of an account.
unfoldable pub sold_tickets : Dict AccountId ℕ → ℕ
sold_tickets [] = 0
sold_tickets ((a, count) ∷ entries) = count + sold_tickets entries

unfoldable pub held : AccountId → Dict AccountId ℕ → ℕ
held a [] = 0
held a ((b, count) ∷ entries) = (if same_account b a then count else 0) + held a entries

count-append :
    (p q : ℕ → Bool) (a n : ℕ)
    → ((x : ℕ) → p (a + x) ≡ q x)
    → count_below p (a + n) ≡ count_below p a + count_below q n
unfolding count_below
count-append p q a zero h = rw (count_none p a) (omega arith)
count-append p q a (suc n) h = rw (count_next p a n, count-append p q a n h, h n) (omega arith)

count-constant :
    (p : ℕ → Bool) (b : Bool) (n : ℕ)
    → ((x : ℕ) → x < n → p x ≡ b)
    → count_below p n ≡ (if b then n else 0)
unfolding count_below
count-constant p b zero h = ground arith
count-constant p b (suc n) h =
    rw (h n (omega arith), count-constant p b n (λ x lt. h x (omega arith))) (ground arith)

minus_plus : (c x : ℕ) → c + x - c ≡ x
minus_plus c x = omega arith

not_below : (c x : ℕ) → ltb (c + x) c ≡ false
not_below c x = ground arith

below : (c x : ℕ) → x < c → ltb x c ≡ true
below c x h = ground arith

winner_of-later :
    (b : AccountId) (c : ℕ) (entries : Dict AccountId ℕ) (x : ℕ)
    → winner_of (c + x) ((b, c) ∷ entries) ≡ winner_of x entries
unfolding winner_of
winner_of-later b c entries x = rw (not_below c x, minus_plus c x) refl

winner_of-first :
    (b : AccountId) (c : ℕ) (entries : Dict AccountId ℕ) (x : ℕ)
    → x < c
    → winner_of x ((b, c) ∷ entries) ≡ some b
unfolding winner_of
winner_of-first b c entries x h = rw (below c x h) refl

-- Of the tickets that a draw has sold, an account wins by exactly as many as it bought.
pub wins-held :
    (a : AccountId) (entries : Dict AccountId ℕ)
    → count_below (wins a entries) (sold_tickets entries) ≡ held a entries
unfolding count_below sold_tickets held
wins-held a [] = refl
wins-held a ((b, count) ∷ entries) =
    rw
      (
        count-append (wins a ((b, count) ∷ entries)) (wins a entries) count (sold_tickets entries)
            (λ x. ap (is_won_by a) (winner_of-later b count entries x)),
        count-constant (wins a ((b, count) ∷ entries)) (same_account b a) count
            (λ x h. ap (is_won_by a) (winner_of-first b count entries x h)),
        wins-held a entries,
      )
      refl
