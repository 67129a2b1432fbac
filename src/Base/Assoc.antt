-- ===== src/Base/Assoc.antt =====
-- Python's `dict` with `str` keys, in insertion order: a write to a key that is there keeps its
-- place, and a new key goes to the end.
use Prim.Native.String.{String}
use mathlib.Core.Path.{◌≡◌, refl}
use mathlib.Core.Bool.{Bool, true, false, not, ◌&&◌, ◌||◌}
use mathlib.Core.Option.{Option, none, some}
use mathlib.Core.List.{List, [], ◌∷◌}
use native.Mathlib.Omega.{arith}
use text.Mathlib.Text.{◌==◌}
use text.Mathlib.TextEquality.{eq_iff}
use test_minio.Base.Tests.{if◌then◌else◌}

abbrev pub Dict {ℓ} : Type ℓ → Type ℓ
Dict V = List (String × V)

-- `x in xs` for a list of texts
unfoldable pub elem : String → List String → Bool
elem a [] = false
elem a (x ∷ xs) = a == x || elem a xs

-- No text stands there twice.
abbrev pub IsUnique : List String → Type 0
IsUnique [] = Unit
IsUnique (x ∷ xs) = (elem x xs ≡ false) × IsUnique xs

unfoldable pub is_unique : List String → Bool
is_unique [] = true
is_unique (x ∷ xs) = not (elem x xs) && is_unique xs

pub is_unique-IsUnique : (xs : List String) → is_unique xs ≡ true → IsUnique xs
unfolding is_unique
is_unique-IsUnique [] h = tt
is_unique-IsUnique (x ∷ xs) h = (ground arith, is_unique-IsUnique xs (ground arith))

module _ {ℓ} {V : Type ℓ} where
  -- d.get(k)
  unfoldable pub lookup : String → Dict V → Option V
  lookup k [] = none
  lookup k ((j, v) ∷ d) = if j == k then some v else lookup k d

  -- d[k] = v
  unfoldable pub insert : String → V → Dict V → Dict V
  insert k v [] = (k, v) ∷ []
  insert k v ((j, w) ∷ d) = if j == k then (j, v) ∷ d else (j, w) ∷ insert k v d

  -- d.keys()
  unfoldable pub keys : Dict V → List String
  keys [] = []
  keys ((j, v) ∷ d) = j ∷ keys d

  pub lookup-insert :
      (k j : String) (v : V) (d : Dict V)
      → lookup j (insert k v d) ≡ (if k == j then some v else lookup j d)
  unfolding lookup insert
  lookup-insert k j v [] = refl
  lookup-insert k j v ((i, w) ∷ d) =
      ground (arith, eq_iff k j, eq_iff i k, eq_iff i j, lookup-insert k j v d)
