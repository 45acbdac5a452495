-- ===== src/Prelude/Dict.antt =====
-- `HashMap` keyed by numbers, as an association list: a read sees the first entry of its key.
use Prim.Native.Nat.{ℕ}
use mathlib.Core.Option.{Option, none, some}
use mathlib.Core.List.{List, [], ◌∷◌}
use rustybug.Prelude.Tests.{◌==◌, if◌then◌else◌}

module _ {ℓ} {V : Type ℓ} where
  -- `get`
  unfoldable pub lookup : ℕ → List (ℕ × V) → Option V
  lookup key [] = none
  lookup key ((at, here) ∷ more) =
      let deeper = lookup key more in if key == at then some here else deeper

  -- `insert`
  unfoldable pub insert : ℕ → V → List (ℕ × V) → List (ℕ × V)
  insert key new [] = (key, new) ∷ []
  insert key new ((at, here) ∷ more) =
      let deeper = insert key new more in
      if key == at then (at, new) ∷ more else (at, here) ∷ deeper

  -- `remove`
  unfoldable pub remove : ℕ → List (ℕ × V) → List (ℕ × V)
  remove key [] = []
  remove key ((at, here) ∷ more) =
      let deeper = remove key more in if key == at then deeper else (at, here) ∷ deeper
