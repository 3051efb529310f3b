-- ===== src/Prelude/Maps.antt =====
-- Maps with text keys (`BTreeMap`), as association lists with one entry for a key.
use mathlib.Core.Path.{◌≡◌, refl}
use mathlib.Core.Option.{Option, none, some}
use mathlib.Core.List.{List, [], ◌∷◌}
use native.Mathlib.Omega.{arith}
use masonwing.Prelude.Tests.{if◌then◌else◌}
use masonwing.Prelude.Texts.{Text, text_eq, text_eq_iff}

module _ {ℓ} {V : Type ℓ} where
  unfoldable pub map_insert : Text → V → List (Text × V) → List (Text × V)
  unfolding text_eq
  map_insert k v [] = (k, v) ∷ []
  map_insert k v ((j, w) ∷ m) = if text_eq j k then (k, v) ∷ m else (j, w) ∷ map_insert k v m

  unfoldable pub map_get : Text → List (Text × V) → Option V
  unfolding text_eq
  map_get k [] = none
  map_get k ((j, v) ∷ m) = if text_eq j k then some v else map_get k m

  pub map_get-insert :
      (k j : Text) (v : V) (m : List (Text × V))
      → map_get j (map_insert k v m) ≡ (if text_eq k j then some v else map_get j m)
  unfolding map_get map_insert
  map_get-insert k j v [] = refl
  map_get-insert k j v ((i, w) ∷ m) =
      ground (arith, text_eq_iff k j, text_eq_iff i k, text_eq_iff i j, map_get-insert k j v m)
