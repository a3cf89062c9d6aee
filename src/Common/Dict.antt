-- ===== src/Common/Dict.antt =====
-- Go maps with string keys, as association lists. The order of the list is the order in which
-- a `range` loop meets the keys; Go leaves it open, so a theorem speaks of every such list.
use Prim.Native.String.{String}
use mathlib.Core.Path.{◌≡◌, refl}
use mathlib.Core.Option.{Option, none, some}
use mathlib.Core.List.{List, [], ◌∷◌}
use native.Mathlib.Omega.{arith}
use text.Mathlib.Text.{◌==◌}
use text.Mathlib.TextEquality.{eq_iff}
use vault_drift.Common.Tests.{if◌then◌else◌}

abbrev pub Dict {ℓ} : Type ℓ → Type ℓ
Dict V = List (String × V)

module _ {ℓ} {V : Type ℓ} where
  -- `v, ok := m[k]`
  unfoldable pub lookup : String → Dict V → Option V
  lookup key [] = none
  lookup key ((own, value) ∷ rest) = if own == key then some value else lookup key rest

  -- `m[k] = v`
  unfoldable pub insert : String → V → Dict V → Dict V
  insert key value [] = (key, value) ∷ []
  insert key value ((own, old) ∷ rest) =
      if own == key then (key, value) ∷ rest else (own, old) ∷ insert key value rest

  -- `delete(m, k)`
  unfoldable pub delete : String → Dict V → Dict V
  delete key [] = []
  delete key ((own, value) ∷ rest) =
      let others = delete key rest in if own == key then others else (own, value) ∷ others

  -- A write is seen under its key only.
  pub lookup-insert :
      (key other : String) (value : V) (entries : Dict V)
      → lookup other (insert key value entries)
        ≡ (if key == other then some value else lookup other entries)
  unfolding lookup insert
  lookup-insert key other value [] = refl
  lookup-insert key other value ((own, old) ∷ rest) = ground (
    arith,
    lookup-insert key other value rest,
    eq_iff own other,
    eq_iff key other,
    eq_iff own key,
  )

  -- A deletion removes its key only.
  pub lookup-delete :
      (key other : String) (entries : Dict V)
      → lookup other (delete key entries) ≡ (if key == other then none else lookup other entries)
  unfolding lookup delete
  lookup-delete key other [] = ground arith
  lookup-delete key other ((own, value) ∷ rest) =
      ground
        (arith, lookup-delete key other rest, eq_iff own key, eq_iff own other, eq_iff key other)

  pub lookup-insert_self :
      (key : String) (value : V) (entries : Dict V)
      → lookup key (insert key value entries) ≡ some value
  unfolding lookup
  lookup-insert_self key value entries =
      ground (arith, lookup-insert key key value entries, eq_iff key key)
