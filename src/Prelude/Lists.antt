-- ===== src/Prelude/Lists.antt =====
-- Lists measured and searched with native numbers and Boolean tests.
use Prim.Native.Nat.{ℕ, zero, suc, ◌+◌, ◌-◌, ◌≤◌}
use mathlib.Core.Path.{◌≡◌, refl, ap, subst}
use mathlib.Core.Bool.{Bool, true, false, ◌&&◌, ◌||◌}
use mathlib.Core.List.{List, [], ◌∷◌, ◌++◌}
use mathlib.Core.Option.{Option, none, some}
use native.Mathlib.Omega.{arith}
use nanacoin.Prelude.Tests.{if◌then◌else◌, or_else}

module _ {ℓ} {A : Type ℓ} where
  abbrev pub length : List A → ℕ
  length [] = 0
  length (x ∷ xs) = suc (length xs)

  abbrev pub get_or : List A → ℕ → A → A
  get_or [] i d = d
  get_or (x ∷ xs) zero d = x
  get_or (x ∷ xs) (suc i) d = get_or xs i d

  abbrev pub drop : ℕ → List A → List A
  drop zero xs = xs
  drop (suc n) [] = []
  drop (suc n) (x ∷ xs) = drop n xs

  abbrev pub take : ℕ → List A → List A
  take zero xs = []
  take (suc n) [] = []
  take (suc n) (x ∷ xs) = x ∷ take n xs

  -- `xs.slice(-n)` for a positive n
  abbrev pub take_last : ℕ → List A → List A
  take_last n xs = drop (length xs - n) xs

  -- `xs.find(p)`
  abbrev pub find : (A → Bool) → List A → Option A
  find p [] = none
  find p (x ∷ xs) = if p x then some x else find p xs

  -- `xs.filter(p)`
  abbrev pub keep : (A → Bool) → List A → List A
  keep p [] = []
  keep p (x ∷ xs) = if p x then x ∷ keep p xs else keep p xs

  -- `xs.some(p)`
  abbrev pub any : (A → Bool) → List A → Bool
  any p [] = false
  any p (x ∷ xs) = p x || any p xs

  abbrev pub all : (A → Bool) → List A → Bool
  all p [] = true
  all p (x ∷ xs) = p x && all p xs

  -- A write through a reference to the first element that meets `p`.
  abbrev pub update : (A → Bool) → (A → A) → List A → List A
  update p f [] = []
  update p f (x ∷ xs) = if p x then f x ∷ xs else x ∷ update p f xs

  pub length-append : (xs ys : List A) → length (xs ++ ys) ≡ length xs + length ys
  length-append [] ys = omega arith
  length-append (x ∷ xs) ys = omega (arith, length-append xs ys)

module _ {ℓ κ} {A : Type ℓ} (P : A → Type κ) where
  abbrev pub All : List A → Type κ
  All [] = Unit
  All (x ∷ xs) = P x × All xs

module _ {ℓ κ} {A : Type ℓ} (P : A → Type κ) where
  pub All-append : (xs ys : List A) → All P xs → All P ys → All P (xs ++ ys)
  All-append [] ys h k = k
  All-append (x ∷ xs) ys (p, h) k = (p, All-append xs ys h k)

  All-if : (b : Bool) (xs ys : List A) → All P xs → All P ys → All P (if b then xs else ys)
  All-if true xs ys h k = h
  All-if false xs ys h k = k

  pub All-update :
      (p : A → Bool) (f : A → A) (xs : List A)
      → ((x : A) → P x → P (f x))
      → All P xs
      → All P (update p f xs)
  All-update p f [] k h = tt
  All-update p f (x ∷ xs) k (h, hs) =
      All-if (p x) (f x ∷ xs) (x ∷ update p f xs) (k x h, hs) (h, All-update p f xs k hs)

  pick :
      (b : Bool) (x y : A) (o : Option A)
      → P x
      → (o ≡ some y → P y)
      → (if b then some x else o) ≡ some y
      → P y
  pick true x y o px rest e = subst P (ap (λ z. or_else z x) e) px
  pick false x y o px rest e = rest e

  -- What is found is an element.
  pub All-find : (p : A → Bool) (xs : List A) (y : A) → All P xs → find p xs ≡ some y → P y
  All-find p [] y h e = cc
  All-find p (x ∷ xs) y (h, hs) e = pick (p x) x y (find p xs) h (All-find p xs y hs) e

module _ {ℓ} {A : Type ℓ} (p : A → Bool) where
  -- What is found meets the test.
  pub find-holds : (xs : List A) (x : A) → find p xs ≡ some x → p x ≡ true
  find-holds [] x e = cc
  find-holds (y ∷ ys) x e = ground (arith, find-holds ys x)

  -- What is found after a write is what was written.
  pub find-update :
      (f : A → A) (xs : List A) (x : A)
      → find p xs ≡ some x
      → p (f x) ≡ true
      → find p (update p f xs) ≡ some (f x)
  find-update f [] x e h = cc
  find-update f (y ∷ ys) x e h = ground (arith, find-update f ys x)

module _ {ℓ κ} {A : Type ℓ} (P : A → Type κ) where
  -- What a filter keeps meets its test.
  pub All-keep : (p : A → Bool) (xs : List A) → ((x : A) → p x ≡ true → P x) → All P (keep p xs)
  All-keep p [] h = tt
  All-keep p (x ∷ xs) h = kept (p x) x (keep p xs) (h x) (All-keep p xs h)
    where
      kept :
          (b : Bool) (x : A) (ys : List A)
          → (b ≡ true → P x)
          → All P ys
          → All P (if b then x ∷ ys else ys)
      kept true x ys h k = (h refl, k)
      kept false x ys h k = k

  pub All-take : (n : ℕ) (xs : List A) → All P xs → All P (take n xs)
  All-take zero xs h = tt
  All-take (suc n) [] h = tt
  All-take (suc n) (x ∷ xs) (p, h) = (p, All-take n xs h)

pub length-take : {A : Type 0} (n : ℕ) (xs : List A) → length (take n xs) ≤ n
length-take zero xs = omega arith
length-take (suc n) [] = omega arith
length-take (suc n) (x ∷ xs) = omega (arith, length-take n xs)

module _ {A : Type 0} where
  abbrev pub reverse_onto : List A → List A → List A
  reverse_onto [] ys = ys
  reverse_onto (x ∷ xs) ys = reverse_onto xs (x ∷ ys)

  -- `xs.reverse()`
  abbrev pub reversed : List A → List A
  reversed xs = reverse_onto xs []

module _ {A : Type 0} where
  reverse_onto-reverse_onto :
      (xs ys zs : List A) → reverse_onto (reverse_onto xs ys) zs ≡ reverse_onto ys (xs ++ zs)
  reverse_onto-reverse_onto [] ys zs = refl
  reverse_onto-reverse_onto (x ∷ xs) ys zs = reverse_onto-reverse_onto xs (x ∷ ys) zs

  append-nil : (xs : List A) → xs ++ [] ≡ xs
  append-nil [] = refl
  append-nil (x ∷ xs) = ap (x ∷◌) (append-nil xs)

  pub reversed-reversed : (xs : List A) → reversed (reversed xs) ≡ xs
  reversed-reversed xs = rw (reverse_onto-reverse_onto xs [] []) (append-nil xs)

  pub reverse_onto-append :
      (xs ys zs : List A) → reverse_onto (xs ++ ys) zs ≡ reverse_onto ys (reverse_onto xs zs)
  reverse_onto-append [] ys zs = refl
  reverse_onto-append (x ∷ xs) ys zs = reverse_onto-append xs ys (x ∷ zs)

  pub reverse_onto-tail :
      (xs ys zs : List A) → reverse_onto xs (ys ++ zs) ≡ reverse_onto xs ys ++ zs
  reverse_onto-tail [] ys zs = refl
  reverse_onto-tail (x ∷ xs) ys zs = reverse_onto-tail xs (x ∷ ys) zs

  pub append_assoc : (xs ys zs : List A) → xs ++ ys ++ zs ≡ xs ++ (ys ++ zs)
  append_assoc [] ys zs = refl
  append_assoc (x ∷ xs) ys zs = ap (x ∷◌) (append_assoc xs ys zs)

module _ {A : Type 0} (P : A → Type 0) where
  All-reverse_onto : (xs ys : List A) → All P xs → All P ys → All P (reverse_onto xs ys)
  All-reverse_onto [] ys h k = k
  All-reverse_onto (x ∷ xs) ys (p, h) k = All-reverse_onto xs (x ∷ ys) h (p, k)

  pub All-reversed : (xs : List A) → All P xs → All P (reversed xs)
  All-reversed xs h = All-reverse_onto xs [] h tt
