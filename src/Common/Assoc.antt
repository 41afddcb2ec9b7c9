-- ===== src/Common/Assoc.antt =====
-- Go maps with string keys, as association lists. The order of the entries stands for the order in
-- which an iteration over the map meets them.
use Prim.Native.String.{String}
use mathlib.Core.Path.{◌≡◌, refl}
use mathlib.Core.Option.{Option, none, some}
use mathlib.Core.List.{List, [], ◌∷◌}
use native.Mathlib.Omega.{arith}
use text.Mathlib.Text.{◌==◌ as str_eq}
use text.Mathlib.TextEquality.{eq_iff}
use gokit_services.Common.Tests.{if◌then◌else◌}

abbrev pub Assoc {ℓ} : Type ℓ → Type ℓ
Assoc V = List (String × V)

module _ {ℓ} {V : Type ℓ} where
  -- `m[k]`
  unfoldable pub lookup : String → Assoc V → Option V
  lookup k [] = none
  lookup k ((j, v) ∷ m) = if str_eq j k then some v else lookup k m

  -- `m[k] = v`
  unfoldable pub insert : String → V → Assoc V → Assoc V
  insert k v [] = (k, v) ∷ []
  insert k v ((j, w) ∷ m) = if str_eq j k then (j, v) ∷ m else (j, w) ∷ insert k v m

  pub lookup-insert :
      (put at : String) (new : V) (entries : Assoc V)
      → lookup at (insert put new entries) ≡ (if str_eq put at then some new else lookup at entries)
  unfolding lookup insert
  lookup-insert put at new [] = refl
  lookup-insert put at new ((i, old) ∷ entries) =
      ground (arith, lookup-insert put at new entries, eq_iff i put, eq_iff put at, eq_iff i at)
