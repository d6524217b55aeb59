-- ===== src/Prelude/Maps.antt =====
-- Maps from texts as association lists, as `Map` and `WeakMap` are used.
use Prim.Native.String.{String}
use mathlib.Core.Path.{◌≡◌, refl}
use mathlib.Core.Bool.{false}
use mathlib.Core.Option.{Option, none, some}
use mathlib.Core.List.{List, [], ◌∷◌}
use native.Mathlib.Omega.{arith}
use text.Mathlib.Text.{◌==◌}
use text.Mathlib.TextEquality.{eq_iff}
use text.Mathlib.TextPositions.{eq_refl}
use meterkit.Prelude.Tests.{if◌then◌else◌}

module _ {ℓ} {A : Type ℓ} where
  -- `map.get(key)`.
  abbrev pub lookup : String → List (String × A) → Option A
  lookup k [] = none
  lookup k ((j, a) ∷ m) = if j == k then some a else lookup k m

  -- `map.delete(key)`.
  abbrev pub delete : String → List (String × A) → List (String × A)
  delete k [] = []
  delete k ((j, a) ∷ m) = let rest = delete k m in if j == k then rest else (j, a) ∷ rest

  -- `map.set(key, value)`.
  abbrev pub set : String → A → List (String × A) → List (String × A)
  set k a m = (k, a) ∷ delete k m

  pub lookup-set : (k : String) (a : A) (m : List (String × A)) → lookup k (set k a m) ≡ some a
  lookup-set k a m = ground (arith, eq_refl k)

  pub lookup-delete : (k : String) (m : List (String × A)) → lookup k (delete k m) ≡ none
  lookup-delete k [] = refl
  lookup-delete k ((j, a) ∷ m) = ground (arith, lookup-delete k m)

  pub lookup-delete_ne :
      (k j : String) (m : List (String × A)) → (j == k) ≡ false → lookup j (delete k m) ≡ lookup j m
  lookup-delete_ne k j [] h = refl
  lookup-delete_ne k j ((i, a) ∷ m) h =
      ground (arith, lookup-delete_ne k j m h, eq_iff i k, eq_iff i j, eq_iff j k, h)
