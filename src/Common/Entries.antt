-- ===== src/Common/Entries.antt =====
-- What holds of all entries of a Go map, after a write and a deletion.
use Prim.Native.String.{String}
use mathlib.Core.Path.{◌≡◌, subst}
use mathlib.Core.Bool.{true, false}
use mathlib.Core.Option.{some, some-injective}
use mathlib.Core.List.{[], ◌∷◌}
use mathlib.Core.Logic.{inl, inr}
use native.Mathlib.Omega.{arith}
use text.Mathlib.Text.{◌==◌}
use vault_drift.Common.Tests.{Bool-cases}
use vault_drift.Common.Lists.{All}
use vault_drift.Common.Dict.{Dict, lookup, insert, delete}

module _ {ℓ κ} {V : Type ℓ} (P : String × V → Type κ) where
  pub All-insert :
      (key : String) (value : V) (entries : Dict V)
      → P (key, value)
      → All P entries
      → All P (insert key value entries)
  unfolding insert
  All-insert key value [] here all = (here, tt)
  All-insert key value ((own, old) ∷ rest) here all = elim (Bool-cases (own == key)) [
    | inl same ↦ rw same (here, all.1)
    | inr differ ↦ rw differ (all.0, All-insert key value rest here all.1)
  ]

  pub All-delete : (key : String) (entries : Dict V) → All P entries → All P (delete key entries)
  unfolding delete
  All-delete key [] all = tt
  All-delete key ((own, old) ∷ rest) all = elim (Bool-cases (own == key)) [
    | inl same ↦ rw same (All-delete key rest all.1)
    | inr differ ↦ rw differ (all.0, All-delete key rest all.1)
  ]

-- What holds of all values holds of the one that is found.
pub All-lookup {ℓ κ} :
    {V : Type ℓ} (P : V → Type κ) (key : String) (value : V) (entries : Dict V)
    → All (λ entry. P entry.1) entries
    → lookup key entries ≡ some value
    → P value
unfolding lookup
All-lookup P key value [] all found = absurd (ground (arith, found))
All-lookup P key value ((own, old) ∷ rest) all found = elim (Bool-cases (own == key)) [
  | inl same ↦ subst P (some-injective old value (first same)) all.0
  | inr differ ↦ All-lookup P key value rest all.1 (later differ)
]
  where
    first : (own == key) ≡ true → some old ≡ some value
    first same = ground (arith, found, same)

    later : (own == key) ≡ false → lookup key rest ≡ some value
    later differ = ground (arith, found, differ)
