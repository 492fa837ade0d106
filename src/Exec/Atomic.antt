-- ===== src/Exec/Atomic.antt =====
-- Methods that are all or nothing: refused with the state as it was, or done with what a relation
-- says of the result. The rules go through a method's guards and keep what each guard has found.
use nanacoin.Prelude.{
  ◌≡◌, refl, Bool, true, false, if◌then◌else◌, ◌⊎◌, inl, inr, Option, none, some,
}
use nanacoin.Exec.{
  Exec, Result, ok, err, Fault, pure, lift, gets, throw_if, refuse, or_raise, continue, ◌>>=◌,
}

-- A fault, and the state as it was.
abbrev pub IsRefused : {S A : Type 0} → S → Result A × S → Type 0
IsRefused s r = (e : Fault) × (r ≡ (err e, s))

-- A value.
abbrev pub IsDone : {A : Type 0} → Result A → Type 0
IsDone {A} r = (a : A) × (r ≡ ok a)

-- `m` at `s` is refused, or its end meets `Post`.
pub record Atomic {S A : Type 0} (Post : Result A × S → Type 0) (s : S) (m : Exec S A)
    : Type 0 where
  pub ends : IsRefused s (m s) ⊎ Post (m s)

-- `m` at `s` is refused, or gives a value and leaves the state as it is.
pub record Checks {S A : Type 0} (s : S) (m : Exec S A) : Type 0 where
  pub ends : IsRefused s (m s) ⊎ ((a : A) × (m s ≡ (ok a, s)))

module _ {S A B : Type 0} {Post : Result B × S → Type 0} (s : S) (k : A → Exec S B) where
  pub Atomic-gets : (f : S → A) → Atomic Post s (k (f s)) → Atomic Post s (gets f >>= k)
  unfolding ◌>>=◌
  Atomic-gets f h = record { ends = h.ends }

  pub Atomic-found :
      (o : Option A) (e : Fault)
      → ((a : A) → o ≡ some a → Atomic Post s (k a))
      → Atomic Post s (lift (or_raise o e) >>= k)
  unfolding ◌>>=◌
  Atomic-found none e h = record { ends = inl (e, refl) }
  Atomic-found (some a) e h = record { ends = (h a refl).ends }

  check :
      (m : Exec S A)
      → IsRefused s (m s) ⊎ ((a : A) × (m s ≡ (ok a, s)))
      → ((a : A) → Atomic Post s (k a))
      → Atomic Post s (m >>= k)
  unfolding ◌>>=◌
  check m (inl (e, x)) h = record { ends = rw x (inl (e, refl)) }
  check m (inr (a, x)) h = record { ends = rw x (h a).ends }

  pub Atomic-check :
      (m : Exec S A) → Checks s m → ((a : A) → Atomic Post s (k a)) → Atomic Post s (m >>= k)
  Atomic-check m c h = check m c.ends h

module _ {S A B : Type 0} (Post : Result B × S → Type 0) (s : S) (k : A → Exec S B)
    (R : S → Type 0) where
  last :
      (r : Result A × S)
      → IsRefused s r ⊎ (IsDone r.0 × R r.1)
      → ((a : A) (s' : S) → R s' → Post (k a s'))
      → IsRefused s (continue r.0 k r.1) ⊎ Post (continue r.0 k r.1)
  last r (inl (e, x)) h = rw x (inl (e, refl))
  last r (inr ((a, x), y)) h = rw x (inr (h a r.1 y))

  -- The one step that changes the state, where nothing behind it fails.
  pub Atomic-last :
      (m : Exec S A)
      → IsRefused s (m s) ⊎ (IsDone (m s).0 × R (m s).1)
      → ((a : A) (s' : S) → R s' → Post (k a s'))
      → Atomic Post s (m >>= k)
  unfolding ◌>>=◌
  Atomic-last m c h = record { ends = last (m s) c h }

module _ {S B : Type 0} {Post : Result B × S → Type 0} (s : S) (k : Unit {0} → Exec S B) where
  test :
      (b : Bool) (e : Fault)
      → (b ≡ false → Atomic Post s (k tt))
      → Atomic Post s (λ z. continue (refuse b e) k z)
  test true e h = record { ends = inl (e, refl) }
  test false e h = record { ends = (h refl).ends }

  pub Atomic-throw_if :
      (c : S → Bool) (e : Fault)
      → (c s ≡ false → Atomic Post s (k tt))
      → Atomic Post s (throw_if c e >>= k)
  unfolding ◌>>=◌
  Atomic-throw_if c e h = record { ends = (test (c s) e h).ends }

module _ {S : Type 0} (s : S) where
  refuse-ends :
      (b : Bool) (e : Fault)
      → IsRefused s (lift (refuse b e) s) ⊎ ((a : Unit {0}) × (lift (refuse b e) s ≡ (ok a, s)))
  unfolding lift
  refuse-ends true e = inl (e, refl)
  refuse-ends false e = inr (tt, refl)

  pub Checks-throw_if : (c : S → Bool) (e : Fault) → Checks s (throw_if c e)
  unfolding throw_if lift
  Checks-throw_if c e = record { ends = refuse-ends (c s) e }

  pub Checks-if :
      {A : Type 0} (b : Bool) (m n : Exec S A)
      → Checks s m
      → Checks s n
      → Checks s (if b then m else n)
  Checks-if true m n h k = h
  Checks-if false m n h k = k

  pub Checks-pure : {A : Type 0} (a : A) → Checks s (pure a)
  unfolding pure
  Checks-pure a = record { ends = inr (a, refl) }

  pub Checks-bind :
      {A B : Type 0} (m : Exec S A) (k : A → Exec S B)
      → Checks s m
      → ((a : A) → Checks s (k a))
      → Checks s (m >>= k)
  Checks-bind {A} {B} m k h hk = record {
    ends =
        (Atomic-check {Post = λ r. (b : B) × (r ≡ (ok b, s))} s k m h
          (λ a. record { ends = (hk a).ends })).ends;
  }

pub ruleset checks_rules = (Checks-throw_if, Checks-if, Checks-pure, Checks-bind)
