-- ===== src/Exec/Ends.antt =====
-- Methods that may throw in the middle: a fault comes back, or a value and a state that a relation
-- describes. The rules follow the steps of a method.
use nanacoin.Prelude.{◌≡◌, refl, Bool, true, false, ◌⊎◌, inl, inr}
use nanacoin.Exec.{
  Exec, Result, ok, err, Fault, lift, gets, throw_if, modify, refuse, continue, ◌>>=◌,
}
use nanacoin.Exec.Atomic.{Checks}

-- `r` is a fault, or a value with a state that meets `Post`.
abbrev pub IsEnd : {S A : Type 0} → (A → S → Type 0) → Result A × S → Type 0
IsEnd {A = A} Post r = ((e : Fault) × (r.0 ≡ err e)) ⊎ ((a : A) × (r.0 ≡ ok a) × Post a r.1)

pub record Ends {S A : Type 0} (Post : A → S → Type 0) (s : S) (m : Exec S A) : Type 0 where
  pub ends : IsEnd Post (m s)

module _ {S A B : Type 0} {Post : B → S → Type 0} (Mid : A → S → Type 0) (s : S)
    (k : A → Exec S B) where
  bound :
      (r : Result A × S)
      → IsEnd Mid r
      → ((a : A) (s' : S) → Mid a s' → Ends Post s' (k a))
      → IsEnd Post (continue r.0 k r.1)
  bound r (inl (e, x)) h = rw x (inl (e, refl))
  bound r (inr (a, x, mid)) h = rw x (h a r.1 mid).ends

  -- A step, and what follows from where it ends.
  pub Ends-bind :
      (m : Exec S A)
      → Ends Mid s m
      → ((a : A) (s' : S) → Mid a s' → Ends Post s' (k a))
      → Ends Post s (m >>= k)
  unfolding ◌>>=◌
  Ends-bind m c h = record { ends = bound (m s) c.ends h }

module _ {S A B : Type 0} {Post : B → S → Type 0} (s : S) (k : A → Exec S B) where
  pub Ends-gets : (f : S → A) → Ends Post s (k (f s)) → Ends Post s (gets f >>= k)
  unfolding ◌>>=◌
  Ends-gets f h = record { ends = h.ends }

  pub Ends-lift :
      (r : Result A) → ((a : A) → r ≡ ok a → Ends Post s (k a)) → Ends Post s (lift r >>= k)
  unfolding ◌>>=◌
  Ends-lift (err e) h = record { ends = inl (e, refl) }
  Ends-lift (ok a) h = record { ends = (h a refl).ends }

  checked :
      (m : Exec S A)
      → Checks s m
      → ((a : A) → Ends Post s (k a))
      → IsEnd Post (continue (m s).0 k (m s).1)
  checked m c h = elim c.ends [ inl (e, x) ↦ rw x (inl (e, refl)) | inr (a, x) ↦ rw x (h a).ends ]

  -- A step that writes nothing
  pub Ends-check :
      (m : Exec S A) → Checks s m → ((a : A) → Ends Post s (k a)) → Ends Post s (m >>= k)
  unfolding ◌>>=◌
  Ends-check m c h = record { ends = checked m c h }

module _ {S B : Type 0} {Post : B → S → Type 0} (s : S) (k : Unit {0} → Exec S B) where
  tested :
      (b : Bool) (e : Fault)
      → (b ≡ false → Ends Post s (k tt))
      → IsEnd Post (continue (refuse b e) k s)
  tested true e h = inl (e, refl)
  tested false e h = (h refl).ends

  -- A guard, and what it has found
  pub Ends-throw_if :
      (c : S → Bool) (e : Fault)
      → (c s ≡ false → Ends Post s (k tt))
      → Ends Post s (throw_if c e >>= k)
  unfolding ◌>>=◌
  Ends-throw_if c e h = record { ends = tested (c s) e h }

module _ {S A : Type 0} {P Q : A → S → Type 0} where
  IsEnd-map : {r : Result A × S} → ((a : A) (s' : S) → P a s' → Q a s') → IsEnd P r → IsEnd Q r
  IsEnd-map f (inl x) = inl x
  IsEnd-map {r} f (inr (a, x, h)) = inr (a, x, f a r.1 h)

  -- A weaker relation
  pub Ends-map :
      {s : S} {m : Exec S A} → ((a : A) (s' : S) → P a s' → Q a s') → Ends P s m → Ends Q s m
  Ends-map f h = record { ends = IsEnd-map f h.ends }

module _ {S : Type 0} (Post : Unit {0} → S → Type 0) (s : S) where
  pub Ends-modify : (f : S → S) → Post tt (f s) → Ends Post s (modify f)
  unfolding modify
  Ends-modify f h = record { ends = inr (tt, refl, h) }

module _ {S : Type 0} (s : S) where
  -- Reads write nothing.
  pub Checks-lift : {A : Type 0} (r : Result A) → Checks s (lift r)
  unfolding lift
  Checks-lift (err e) = record { ends = inl (e, refl) }
  Checks-lift (ok a) = record { ends = inr (a, refl) }

  pub Checks-gets : {A : Type 0} (f : S → A) → Checks s (gets f)
  unfolding gets
  Checks-gets f = record { ends = inr (f s, refl) }
