-- ===== src/Exec.antt =====
-- Methods of an object, as functions of its fields. A method may throw (`throw new DemoError(...)`,
-- `throw new Error(...)`): the fields come back with the fault, with all that was written so far.
pub mod Keeps
pub mod Atomic
pub mod Ends
use nanacoin.Prelude.{ℕ, Bool, Option, none, some, if◌then◌else◌, List, [], ◌∷◌}

-- The `code` strings of the server's errors.
pub data Code : Type 0 where
  unbalanced insufficient_funds forbidden disabled bad_request system_account : Code
  not_found already_provisioned username_taken self_deal invalid_input : Code
  capacity collision invalid_voucher self_redemption conflict : Code
  voucher_transaction already_reversed listing_closed offer_closed quote_closed : Code
  stale_request inexact_reform no_session invalid_credentials invalid_grant unavailable : Code

-- `demo status code` is a `DemoError`, `plain` any other `Error`, `type_error` the language's own
-- fault at a missing object. `unfinished` is no error of the source: it marks a loop that still runs
-- where the values it waits for end. `outside` is none either: it marks a call whose effect is not
-- modelled.
pub data Fault : Type 0 where
  demo : ℕ → Code → Fault
  plain : Fault
  type_error : Fault
  unfinished : Fault
  outside : Fault

pub data Result {ℓ} (A : Type ℓ) : Type ℓ where
  ok : A → Result A
  err : Fault → Result A

-- A method of an object whose fields are `State`.
abbrev pub Exec {ℓ} : Type ℓ → Type ℓ → Type ℓ
Exec State Value = State → Result Value × State

module _ {ℓ} {State Value : Type ℓ} where
  -- `this.field`
  unfoldable pub gets : (State → Value) → Exec State Value
  gets read z = (ok (read z), z)

  unfoldable pub lift : Result Value → Exec State Value
  lift result z = (result, z)

  -- `throw e`
  unfoldable pub raise : Fault → Exec State Value
  raise e z = (err e, z)

  -- `return value`
  unfoldable pub pure : Value → Exec State Value
  pure value z = (ok value, z)

abbrev pub or_raise {ℓ} : {A : Type ℓ} → Option A → Fault → Result A
or_raise none e = err e
or_raise (some a) e = ok a

abbrev pub refuse : Bool → Fault → Result (Unit {0})
refuse b e = if b then err e else ok tt

module _ {State : Type 0} where
  -- `if (test) throw e;`
  unfoldable pub throw_if : (State → Bool) → Fault → Exec State (Unit {0})
  throw_if test e z = (refuse (test z) e, z)

  unfoldable pub modify : (State → State) → Exec State (Unit {0})
  modify f z = (ok tt, f z)

module _ {State A B : Type 0} where
  -- A throw skips what follows.
  abbrev pub continue : Result A → (A → Exec State B) → Exec State B
  continue (err e) rest z = (err e, z)
  continue (ok a) rest z = rest a z

  infixl 10 ◌>>=◌ ◌>>◌
  -- Unfolded, it unfolds the primitive steps with it.
  unfoldable pub ◌>>=◌ : Exec State A → (A → Exec State B) → Exec State B
  unfolding gets lift raise pure throw_if modify
  (first >>= rest) z = continue (first z).0 rest (first z).1

  abbrev pub ◌>>◌ : Exec State A → Exec State B → Exec State B
  first >> second = first >>= λ _. second

module _ {State A : Type 0} where
  -- `for (const item of items) body(item)`
  unfoldable pub for_each : (A → Exec State (Unit {0})) → List A → Exec State (Unit {0})
  unfolding ◌>>=◌
  for_each body [] = pure tt
  for_each body (item ∷ items) = body item >> for_each body items
