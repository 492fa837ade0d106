-- ===== src/Prelude/Sorting.antt =====
-- `xs.sort(compare)`, which is stable, as insertion by a strict test.
use mathlib.Core.Path.{◌≡◌}
use mathlib.Core.Logic.{inl, inr}
use mathlib.Core.Bool.{Bool, true, false}
use mathlib.Core.List.{List, [], ◌∷◌}
use nanacoin.Prelude.Tests.{if◌then◌else◌, if-elim, Bool-cases}
use nanacoin.Prelude.Lists.{All}

module _ {A : Type 0} (before : A → A → Bool) where
  unfoldable pub insert_by : A → List A → List A
  insert_by x [] = x ∷ []
  insert_by x (y ∷ ys) = if before y x then y ∷ insert_by x ys else x ∷ y ∷ ys

  unfoldable pub sort_by : List A → List A
  unfolding insert_by
  sort_by [] = []
  sort_by (x ∷ xs) = insert_by x (sort_by xs)

module _ {A : Type 0} (R : A → A → Type 0) where
  abbrev pub HeadMeets : A → List A → Type 0
  HeadMeets x [] = Unit
  HeadMeets x (y ∷ ys) = R x y

  -- Each element and the next are in order.
  abbrev pub Sorted : List A → Type 0
  Sorted [] = Unit
  Sorted (x ∷ xs) = HeadMeets x xs × Sorted xs

module _ {A : Type 0} (before : A → A → Bool) (R : A → A → Type 0)
    (strict : (x y : A) → before x y ≡ true → R x y)
    (other : (x y : A) → before x y ≡ false → R y x) where
  insert_by-HeadMeets :
      (z x : A) (ys : List A) → R z x → HeadMeets R z ys → HeadMeets R z (insert_by before x ys)
  unfolding insert_by
  insert_by-HeadMeets z x [] h k = h
  insert_by-HeadMeets z x (y ∷ ys) h k =
      if-elim (HeadMeets R z) (before y x) (y ∷ insert_by before x ys) (x ∷ y ∷ ys) k h

  insert_by-Sorted : (x : A) (ys : List A) → Sorted R ys → Sorted R (insert_by before x ys)
  unfolding insert_by
  insert_by-Sorted x [] h = (tt, tt)
  insert_by-Sorted x (y ∷ ys) (h, hs) = elim (Bool-cases (before y x)) [
    | inl e ↦ rw e (insert_by-HeadMeets y x ys (strict y x e) h, insert_by-Sorted x ys hs)
    | inr e ↦ rw e (other y x e, (h, hs))
  ]

  pub sort_by-Sorted : (xs : List A) → Sorted R (sort_by before xs)
  unfolding sort_by
  sort_by-Sorted [] = tt
  sort_by-Sorted (x ∷ xs) = insert_by-Sorted x (sort_by before xs) (sort_by-Sorted xs)

module _ {A : Type 0} (P : A → Type 0) (before : A → A → Bool) where
  insert_by-All : (x : A) (ys : List A) → P x → All P ys → All P (insert_by before x ys)
  unfolding insert_by
  insert_by-All x [] p h = (p, tt)
  insert_by-All x (y ∷ ys) p (q, h) =
      if-elim (All P) (before y x) (y ∷ insert_by before x ys) (x ∷ y ∷ ys)
        (q, insert_by-All x ys p h) (p, (q, h))

  -- A sorted list has the elements that it had.
  pub sort_by-All : (xs : List A) → All P xs → All P (sort_by before xs)
  unfolding sort_by
  sort_by-All [] h = tt
  sort_by-All (x ∷ xs) (p, h) = insert_by-All x (sort_by before xs) p (sort_by-All xs h)
