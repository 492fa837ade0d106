-- ===== src/Exec/Keeps.antt =====
-- What every call of a method keeps true of the object, by the parts the method is made of.
use nanacoin.Prelude.{Bool, true, false, if◌then◌else◌, List, [], ◌∷◌, ◌≡◌, refl, sym, subst}
use nanacoin.Exec.{
  Exec, Result, ok, err, Fault, continue, pure, raise, lift, gets, throw_if, modify, ◌>>=◌,
  for_each,
}

-- Where `Inv` holds before the call it holds after it, also after a throw.
pub record Keeps {S A : Type 0} (Inv : S → Type 0) (body : Exec S A) : Type 0 where
  pub kept : (before : S) → Inv before → Inv (body before).1

-- Writes, and steps that write nothing.
module _ {S : Type 0} {Inv : S → Type 0} where
  still : {A : Type 0} (body : Exec S A) → ((z : S) → (body z).1 ≡ z) → Keeps Inv body
  still body same = record { kept = λ z holds. subst Inv (sym (same z)) holds }

  pub Keeps-modify : (f : S → S) → ((z : S) → Inv z → Inv (f z)) → Keeps Inv (modify f)
  unfolding modify
  Keeps-modify f step = record { kept = step }

  pub Keeps-throw_if : (test : S → Bool) (e : Fault) → Keeps Inv (throw_if test e)
  unfolding throw_if
  Keeps-throw_if test e = still (throw_if test e) (λ z. refl)

  pub Keeps-gets : {A : Type 0} (read : S → A) → Keeps Inv (gets read)
  unfolding gets
  Keeps-gets read = still (gets read) (λ z. refl)

  pub Keeps-lift : {A : Type 0} (result : Result A) → Keeps Inv (lift result)
  unfolding lift
  Keeps-lift result = still (lift result) (λ z. refl)

  pub Keeps-pure : {A : Type 0} (value : A) → Keeps Inv (pure value)
  unfolding pure
  Keeps-pure value = still (pure value) (λ z. refl)

  pub Keeps-raise : {A : Type 0} (e : Fault) → Keeps Inv (raise {Value = A} e)
  unfolding raise
  Keeps-raise {A} e = still (raise {Value = A} e) (λ z. refl)

-- Sequences, branches and loops.
module _ {S : Type 0} {Inv : S → Type 0} where
  pub Keeps-if :
      {A : Type 0} (test : Bool) (then_run else_run : Exec S A)
      → Keeps Inv then_run
      → Keeps Inv else_run
      → Keeps Inv (if test then then_run else else_run)
  Keeps-if true then_run else_run kept_then kept_else = kept_then
  Keeps-if false then_run else_run kept_then kept_else = kept_else

  continue-kept :
      {A B : Type 0} (rest : A → Exec S B) (result : Result A) (z : S)
      → ((a : A) → Keeps Inv (rest a))
      → Inv z
      → Inv (continue result rest z).1
  continue-kept rest (err e) z step holds = holds
  continue-kept rest (ok a) z step holds = (step a).kept z holds

  pub Keeps-bind :
      {A B : Type 0} (first : Exec S A) (rest : A → Exec S B)
      → Keeps Inv first
      → ((a : A) → Keeps Inv (rest a))
      → Keeps Inv (first >>= rest)
  unfolding ◌>>=◌
  Keeps-bind first rest k step = record {
    kept = λ z holds. continue-kept rest (first z).0 (first z).1 step (k.kept z holds);
  }

  pub Keeps-for_each :
      {A : Type 0} (body : A → Exec S (Unit {0})) (items : List A)
      → ((a : A) → Keeps Inv (body a))
      → Keeps Inv (for_each body items)
  unfolding for_each
  Keeps-for_each body [] step = Keeps-pure tt
  Keeps-for_each body (a ∷ items) step =
      Keeps-bind (body a) _ (step a) (λ _. Keeps-for_each body items step)

pub ruleset keeps_rules =
    (Keeps-bind, Keeps-throw_if, Keeps-if, Keeps-gets, Keeps-lift, Keeps-pure, Keeps-raise)
