-- ===== src/Prelude/Maps.antt =====
-- A JavaScript `Map` as an association list in insertion order. The test of keys is an argument;
-- the laws ask that it decides equality.
use mathlib.Core.Path.{◌≡◌, refl}
use mathlib.Core.Logic.{◌↔◌}
use mathlib.Core.Bool.{Bool, true}
use mathlib.Core.List.{List, [], ◌∷◌}
use mathlib.Core.Option.{Option, none, some}
use native.Mathlib.Omega.{arith}
use nanacoin.Prelude.Tests.{if◌then◌else◌}

abbrev pub Dict : Type 0 → Type 0 → Type 0
Dict K V = List (K × V)

module _ {K V : Type 0} (same : K → K → Bool) where
  -- `m.get(k)`
  abbrev pub lookup : K → Dict K V → Option V
  lookup k [] = none
  lookup k ((j, v) ∷ d) = if same j k then some v else lookup k d

  -- `m.set(k, v)`
  abbrev pub insert : K → V → Dict K V → Dict K V
  insert k v [] = (k, v) ∷ []
  insert k v ((j, w) ∷ d) = if same j k then (j, v) ∷ d else (j, w) ∷ insert k v d

  -- `m.delete(k)`
  abbrev pub erase : K → Dict K V → Dict K V
  erase k [] = []
  erase k ((j, w) ∷ d) = if same j k then d else (j, w) ∷ erase k d

  module _ (same_iff : (a b : K) → (same a b ≡ true) ↔ (a ≡ b)) where
    pub lookup-insert :
        (k j : K) (v : V) (d : Dict K V)
        → lookup j (insert k v d) ≡ (if same k j then some v else lookup j d)
    lookup-insert k j v [] = refl
    lookup-insert k j v ((i, w) ∷ d) =
        ground (arith, same_iff k j, same_iff i k, same_iff i j, lookup-insert k j v d)
