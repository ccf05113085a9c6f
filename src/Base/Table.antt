-- ===== src/Base/Table.antt =====
-- A map from texts as an association list: Go's `map[string]V`, and a table of the database with a
-- primary key of texts.
use Prim.Native.String.{String}
use mathlib.Core.Path.{◌≡◌, refl, subst}
use mathlib.Core.Logic.{inl, inr}
use mathlib.Core.Bool.{Bool}
use mathlib.Core.List.{List, [], ◌∷◌}
use mathlib.Core.Option.{Option, none, some}
use native.Mathlib.Omega.{arith}
use text.Mathlib.Text.{◌==◌ as str_eq}
use text.Mathlib.TextEquality.{eq_iff}
use kanyigo.Base.Tests.{if◌then◌else◌, str_eq-cases}

abbrev pub Table {ℓ} : Type ℓ → Type ℓ
Table V = List (String × V)

module _ {ℓ} {V : Type ℓ} where
  -- The entry that a key finds first.
  unfoldable pub lookup : String → Table V → Option V
  lookup key [] = none
  lookup key ((name, value) ∷ table) = if str_eq name key then some value else lookup key table

  -- m[k] = v
  unfoldable pub insert : String → V → Table V → Table V
  insert key new [] = (key, new) ∷ []
  insert key new ((name, old) ∷ table) =
      if str_eq name key then (key, new) ∷ table else (name, old) ∷ insert key new table

  -- delete(m, k)
  unfoldable pub remove : String → Table V → Table V
  remove k [] = []
  remove k ((j, v) ∷ m) = let rest = remove k m in if str_eq j k then rest else (j, v) ∷ rest

  pub lookup-insert :
      (key other : String) (new : V) (table : Table V)
      → lookup other (insert key new table)
        ≡ (if str_eq key other then some new else lookup other table)
  unfolding insert lookup
  lookup-insert key other new [] = refl
  lookup-insert key other new ((name, old) ∷ table) =
      let induction = lookup-insert key other new table in
      ground (arith, induction, eq_iff name key, eq_iff name other, eq_iff key other)

  pub lookup-remove :
      (k j : String) (m : Table V)
      → lookup j (remove k m) ≡ (if str_eq k j then none else lookup j m)
  unfolding lookup remove
  lookup-remove k j [] = ground arith
  lookup-remove k j ((i, w) ∷ m) =
      ground (arith, lookup-remove k j m, eq_iff i k, eq_iff i j, eq_iff k j)

  -- No key stands twice.
  unfoldable pub IsMap : Table V → Type ℓ
  IsMap [] = Unit
  IsMap ((k, v) ∷ m) = (lookup k m ≡ none) × IsMap m

  pub IsMap-insert : (k : String) (v : V) (m : Table V) → IsMap m → IsMap (insert k v m)
  unfolding IsMap insert lookup
  IsMap-insert k v [] h = (refl, tt)
  IsMap-insert k v ((j, w) ∷ m) h = elim (str_eq-cases j k) [
    | inl (e, p) ↦ rw e (subst (λ i. lookup i m ≡ none) p h.0, h.1)
    | inr (e, n) ↦ rw e (ground (arith, lookup-insert k j v m, eq_iff k j), IsMap-insert k v m h.1)
  ]

  pub IsMap-remove : (k : String) (m : Table V) → IsMap m → IsMap (remove k m)
  unfolding IsMap remove
  IsMap-remove k [] h = h
  IsMap-remove k ((j, w) ∷ m) h = elim (str_eq-cases j k) [
    | inl (e, p) ↦ rw e (IsMap-remove k m h.1)
    | inr (e, n) ↦ rw e (ground (arith, lookup-remove k j m), IsMap-remove k m h.1)
  ]

  -- The entries that pass a test, as a loop that deletes the others leaves them.
  unfoldable pub retain : (V → Bool) → Table V → Table V
  retain p [] = []
  retain p ((j, v) ∷ m) = let rest = retain p m in if p v then (j, v) ∷ rest else rest

  unfoldable pub retain_value : (V → Bool) → Option V → Option V
  retain_value p none = none
  retain_value p (some v) = if p v then some v else none

  pub lookup-retain :
      (p : V → Bool) (k : String) (m : Table V)
      → IsMap m
      → lookup k (retain p m) ≡ retain_value p (lookup k m)
  unfolding IsMap lookup retain retain_value
  lookup-retain p k [] h = refl
  lookup-retain p k ((j, v) ∷ m) h = ground (arith, lookup-retain p k m h.1, eq_iff j k)

  pub IsMap-retain : (p : V → Bool) (m : Table V) → IsMap m → IsMap (retain p m)
  unfolding IsMap retain retain_value
  IsMap-retain p [] h = h
  IsMap-retain p ((j, v) ∷ m) h = ground (arith, IsMap-retain p m h.1, lookup-retain p j m h.1)
