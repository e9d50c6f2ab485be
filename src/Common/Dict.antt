-- ===== src/Common/Dict.antt =====
-- Go's map[string]V as an association list. A write replaces the entry of its key, and `delete`
-- removes it; reading an absent key gives no value, or the zero value that `index` is given.
use Prim.Native.String.{String}
use mathlib.Core.Path.{◌≡◌, refl}
use mathlib.Core.Option.{Option, none, some}
use mathlib.Core.List.{List, [], ◌∷◌}
use native.Mathlib.Omega.{arith}
use text.Mathlib.Text.{◌==◌ as str_eq}
use text.Mathlib.TextEquality.{eq_iff}
use text.Mathlib.TextPositions.{eq_refl}
use reliability_lab.Common.Tests.{if◌then◌else◌}

abbrev pub Dict {ℓ} : Type ℓ → Type ℓ
Dict V = List (String × V)

module _ {ℓ} {V : Type ℓ} where
  unfoldable pub lookup : String → Dict V → Option V
  lookup k [] = none
  lookup key (entry ∷ rest) = if str_eq entry.0 key then some entry.1 else lookup key rest

  unfoldable pub insert : String → V → Dict V → Dict V
  insert key value [] = (key, value) ∷ []
  insert key value (entry ∷ rest) =
      if str_eq entry.0 key then (key, value) ∷ rest else entry ∷ insert key value rest

  -- Go's delete(m, k).
  unfoldable pub delete : String → Dict V → Dict V
  delete k [] = []
  delete k ((j, w) ∷ m) = let rest = delete k m in if str_eq j k then rest else (j, w) ∷ rest

  -- Go's m[k], with the zero value of an absent key.
  abbrev pub value_or : V → Option V → V
  value_or d none = d
  value_or d (some v) = v

  unfoldable pub index : V → Dict V → String → V
  index d m k = value_or d (lookup k m)

  -- A write is seen under its own key, and under no other.
  pub lookup-insert :
      (written asked : String) (value : V) (m : Dict V)
      → lookup asked (insert written value m)
        ≡ (if str_eq written asked then some value else lookup asked m)
  unfolding lookup insert
  lookup-insert written asked value [] = refl
  lookup-insert written asked value (entry ∷ rest) = ground (
    arith,
    eq_iff written asked,
    eq_iff entry.0 asked,
    eq_iff entry.0 written,
    lookup-insert written asked value rest,
  )

  pub lookup-insert_self :
      (key : String) (value : V) (m : Dict V) → lookup key (insert key value m) ≡ some value
  lookup-insert_self key value m = rw (lookup-insert key key value m, eq_refl key) refl

  pub lookup-delete :
      (k j : String) (m : Dict V)
      → lookup j (delete k m) ≡ (if str_eq k j then none else lookup j m)
  unfolding lookup delete
  lookup-delete k j [] = ground arith
  lookup-delete k j ((i, w) ∷ m) =
      ground (arith, eq_iff k j, eq_iff i k, eq_iff i j, lookup-delete k j m)
