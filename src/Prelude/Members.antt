-- ===== src/Prelude/Members.antt =====
-- Membership in a list, and what keeping, mapping and sorting do to it.
use mathlib.Core.Path.{◌≡◌, refl, sym, ap, subst, ◌∙◌}
use mathlib.Core.Logic.{inl, inr, ◌⊎◌, ◌↔◌}
use mathlib.Core.Bool.{Bool, true, false, ◌||◌}
use mathlib.Core.List.{List, [], ◌∷◌, map}
use native.Mathlib.Omega.{arith}
use nanacoin.Prelude.Tests.{if◌then◌else◌, Bool-cases}
use nanacoin.Prelude.Lists.{keep, any}
use nanacoin.Prelude.Sorting.{insert_by, sort_by}

abbrev pub In : {A : Type 0} → A → List A → Type 0
In x [] = ⊥
In x (y ∷ ys) = (x ≡ y) ⊎ In x ys

module _ {A : Type 0} (x : A) where
  -- A choice of lists at a known test
  chosen :
      (b c : Bool) (xs ys : List A)
      → b ≡ c
      → In x (if b then xs else ys)
      → In x (if c then xs else ys)
  chosen b c xs ys e h = subst (λ d. In x (if d then xs else ys)) e h

module _ {A : Type 0} (p : A → Bool) (x : A) where
  kept_from : (xs : List A) → In x (keep p xs) → In x xs × (p x ≡ true)
  kept_from [] h = absurd h
  kept_from (y ∷ ys) h = elim (Bool-cases (p y)) [
    | inl e ↦ elim (chosen x (p y) true (y ∷ keep p ys) (keep p ys) e h) [
      | inl same ↦ (inl same, ap p same ∙ e)
      | inr later ↦ (inr (kept_from ys later).0, (kept_from ys later).1)
    ]
    | inr e ↦
        let (m, t) = kept_from ys (chosen x (p y) false (y ∷ keep p ys) (keep p ys) e h) in
        (inr m, t)
  ]

  into_kept : (xs : List A) → In x xs → p x ≡ true → In x (keep p xs)
  into_kept [] h t = h
  into_kept (y ∷ ys) (inl same) t =
      chosen x true (p y) (y ∷ keep p ys) (keep p ys) (sym t ∙ ap p same) (inl same)
  into_kept (y ∷ ys) (inr later) t = elim (Bool-cases (p y)) [
    | inl e ↦ chosen x true (p y) (y ∷ keep p ys) (keep p ys) (sym e) (inr (into_kept ys later t))
    | inr e ↦ chosen x false (p y) (y ∷ keep p ys) (keep p ys) (sym e) (into_kept ys later t)
  ]

  -- `filter` keeps the elements that meet the test, and no others.
  pub In-keep : (xs : List A) → In x (keep p xs) ↔ (In x xs × (p x ≡ true))
  In-keep xs = (kept_from xs, λ h. into_kept xs h.0 h.1)

module _ {A : Type 0} (before : A → A → Bool) (x : A) where
  inserted_from : (y : A) (ys : List A) → In x (insert_by before y ys) → (x ≡ y) ⊎ In x ys
  unfolding insert_by
  inserted_from y [] h = h
  inserted_from y (z ∷ zs) h = elim (Bool-cases (before z y)) [
    | inl e ↦ elim (chosen x (before z y) true (z ∷ insert_by before y zs) (y ∷ z ∷ zs) e h) [
      | inl same ↦ inr (inl same)
      | inr later ↦ elim (inserted_from y zs later) [
        | inl same ↦ inl same
        | inr rest ↦ inr (inr rest)
      ]
    ]
    | inr e ↦ chosen x (before z y) false (z ∷ insert_by before y zs) (y ∷ z ∷ zs) e h
  ]

  into_inserted : (y : A) (ys : List A) → (x ≡ y) ⊎ In x ys → In x (insert_by before y ys)
  unfolding insert_by
  into_inserted y [] h = h
  into_inserted y (z ∷ zs) h = elim (Bool-cases (before z y)) [
    | inl e ↦ chosen x true (before z y) (z ∷ insert_by before y zs) (y ∷ z ∷ zs) (sym e) (elim h [
      | inl same ↦ inr (into_inserted y zs (inl same))
      | inr (inl here) ↦ inl here
      | inr (inr later) ↦ inr (into_inserted y zs (inr later))
    ])
    | inr e ↦ chosen x false (before z y) (z ∷ insert_by before y zs) (y ∷ z ∷ zs) (sym e) h
  ]

  sorted_from : (xs : List A) → In x (sort_by before xs) → In x xs
  unfolding sort_by
  sorted_from [] h = h
  sorted_from (y ∷ ys) h = elim (inserted_from y (sort_by before ys) h) [
    | inl same ↦ inl same
    | inr later ↦ inr (sorted_from ys later)
  ]

  into_sorted : (xs : List A) → In x xs → In x (sort_by before xs)
  unfolding sort_by
  into_sorted [] h = h
  into_sorted (y ∷ ys) (inl same) = into_inserted y (sort_by before ys) (inl same)
  into_sorted (y ∷ ys) (inr later) =
      into_inserted y (sort_by before ys) (inr (into_sorted ys later))

  -- Sorting neither loses nor adds an element.
  pub In-sort_by : (xs : List A) → In x (sort_by before xs) ↔ In x xs
  In-sort_by xs = (sorted_from xs, into_sorted xs)

module _ {A B : Type 0} (f : A → B) (y : B) where
  mapped_from : (xs : List A) → In y (map f xs) → (x : A) × In x xs × (y ≡ f x)
  mapped_from [] h = absurd h
  mapped_from (x ∷ xs) (inl same) = (x, inl refl, same)
  mapped_from (x ∷ xs) (inr later) = let (z, m, e) = mapped_from xs later in (z, inr m, e)

  into_mapped : (xs : List A) (x : A) → In x xs → y ≡ f x → In y (map f xs)
  into_mapped [] x h e = h
  into_mapped (z ∷ xs) x (inl same) e = inl (e ∙ ap f same)
  into_mapped (z ∷ xs) x (inr later) e = inr (into_mapped xs x later e)

  pub In-map : (xs : List A) → In y (map f xs) ↔ ((x : A) × In x xs × (y ≡ f x))
  In-map xs = (mapped_from xs, λ h. into_mapped xs h.0 h.1 h.2)

module _ {A : Type 0} (p : A → Bool) where
  either_test : (b c : Bool) → (b || c) ≡ true → (b ≡ true) ⊎ (c ≡ true)
  either_test true c h = inl refl
  either_test false c h = inr h

  any_from : (xs : List A) → any p xs ≡ true → (x : A) × In x xs × (p x ≡ true)
  any_from [] h = absurd (cc h)
  any_from (x ∷ xs) h = elim (either_test (p x) (any p xs) h) [
    | inl e ↦ (x, inl refl, e)
    | inr rest ↦ let (y, m, t) = any_from xs rest in (y, inr m, t)
  ]

  left_test : (b c : Bool) → b ≡ true → (b || c) ≡ true
  left_test b c h = ground arith

  right_test : (b c : Bool) → c ≡ true → (b || c) ≡ true
  right_test b c h = ground arith

  into_any : (xs : List A) (x : A) → In x xs → p x ≡ true → any p xs ≡ true
  into_any [] x h t = absurd h
  into_any (y ∷ ys) x (inl same) t = left_test (p y) (any p ys) (sym (ap p same) ∙ t)
  into_any (y ∷ ys) x (inr later) t = right_test (p y) (any p ys) (into_any ys x later t)

  pub any-In : (xs : List A) → (any p xs ≡ true) ↔ ((x : A) × In x xs × (p x ≡ true))
  any-In xs = (any_from xs, λ h. into_any xs h.0 h.1 h.2)
