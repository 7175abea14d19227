-- ===== src/Prelude/Text.antt =====
-- Comparison of texts, and Python's `dict` with text keys, in insertion order.
use Prim.Native.String.{String}
use mathlib.Core.Path.{◌≡◌, refl}
use mathlib.Core.Bool.{Bool, true, false, ◌||◌}
use mathlib.Core.Option.{Option, none, some, some-injective}
use mathlib.Core.Logic.{◌≢◌}
use mathlib.Core.List.{List, [], ◌∷◌, map}
use native.Mathlib.Omega.{arith}
use text.Mathlib.Text.{◌==◌}
use text.Mathlib.TextEquality.{eq_iff}
use text.Mathlib.TextPositions.{eq_refl}
use adus_be.Prelude.Tests.{if◌then◌else◌}

abbrev pub str_eq : String → String → Bool
str_eq a b = a == b

pub str_eq_refl : (a : String) → str_eq a a ≡ true
str_eq_refl a = eq_refl a

-- `key in keys`
unfoldable pub contains : String → List String → Bool
contains k [] = false
contains k (j ∷ js) = str_eq j k || contains k js

module _ {ℓ} {V : Type ℓ} where
  -- `d.get(key)`
  unfoldable pub lookup : String → List (String × V) → Option V
  lookup key [] = none
  lookup key ((first, v) ∷ rest) = if str_eq first key then some v else lookup key rest

  -- `d[key] = value`: an existing key keeps its place
  unfoldable pub insert : String → V → List (String × V) → List (String × V)
  insert key v [] = (key, v) ∷ []
  insert key v ((first, old) ∷ rest) =
      if str_eq first key then (key, v) ∷ rest else (first, old) ∷ insert key v rest

  -- Only the key that is set changes its value.
  pub lookup-insert :
      (set asked : String) (v : V) (dict : List (String × V))
      → lookup asked (insert set v dict) ≡ (if str_eq set asked then some v else lookup asked dict)
  unfolding lookup insert
  lookup-insert set asked v [] = refl
  lookup-insert set asked v ((first, old) ∷ rest) = ground (
    arith,
    eq_iff first set,
    eq_iff first asked,
    eq_iff set asked,
    lookup-insert set asked v rest,
  )

  -- `{**a, **b}`: the later dict wins
  unfoldable pub merge : List (String × V) → List (String × V) → List (String × V)
  merge a [] = a
  merge a ((k, v) ∷ b) = merge (insert k v a) b

  -- the keys of a dict are distinct
  abbrev pub HasDistinctKeys : List (String × V) → Type 0
  HasDistinctKeys [] = Unit
  HasDistinctKeys ((k, v) ∷ m) = (contains k (map (λ e. e.0) m) ≡ false) × HasDistinctKeys m

-- two texts that are told apart, also as nullable columns
pub some_ne : (a b : String) → str_eq a b ≡ false → some a ≢ some b
some_ne a b h e = cc (h, (eq_iff a b).1 (some-injective a b e))
