-- ===== src/Common/Totals.antt =====
-- The sum of a weight over the values of a Go map.
use Prim.Native.Nat.{ℕ, ◌+◌, ◌≤◌}
use Prim.Native.String.{String}
use mathlib.Core.Path.{◌≡◌}
use mathlib.Core.Option.{Option, none, some}
use mathlib.Core.List.{[], ◌∷◌}
use mathlib.Core.Logic.{inl, inr}
use native.Mathlib.Omega.{arith}
use text.Mathlib.Text.{◌==◌}
use vault_drift.Common.Tests.{Bool-cases}
use vault_drift.Common.Dict.{Dict, lookup, insert, delete}

module _ {ℓ} {V : Type ℓ} (weight : V → ℕ) where
  abbrev pub total : Dict V → ℕ
  total [] = 0
  total ((key, value) ∷ rest) = weight value + total rest

  abbrev pub weight_of : Option V → ℕ
  weight_of none = 0
  weight_of (some value) = weight value

  -- A write replaces the weight of the value that was there.
  pub total-insert :
      (key : String) (value : V) (entries : Dict V)
      → total (insert key value entries) + weight_of (lookup key entries)
        ≡ total entries + weight value
  unfolding insert lookup
  total-insert key value [] = omega arith
  total-insert key value ((own, old) ∷ rest) = elim (Bool-cases (own == key)) [
    | inl same ↦ rw same (omega arith)
    | inr differ ↦ rw differ (omega (arith, total-insert key value rest))
  ]

  -- A deletion takes at least the weight of the value that was found.
  pub total-delete :
      (key : String) (entries : Dict V)
      → total (delete key entries) + weight_of (lookup key entries) ≤ total entries
  unfolding delete lookup
  total-delete key [] = omega arith
  total-delete key ((own, old) ∷ rest) = elim (Bool-cases (own == key)) [
    | inl same ↦ rw same (omega (arith, total-delete key rest))
    | inr differ ↦ rw differ (omega (arith, total-delete key rest))
  ]
