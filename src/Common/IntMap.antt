-- ===== src/Common/IntMap.antt =====
-- Go maps with int keys that are not negative, as association lists.
use Prim.Native.Nat.{ℕ}
use mathlib.Core.Path.{◌≡◌, refl}
use mathlib.Core.Option.{Option, none, some}
use mathlib.Core.List.{List, [], ◌∷◌}
use native.Mathlib.Omega.{arith}
use vault_drift.Common.Tests.{◌==◌, if◌then◌else◌}

abbrev pub IntMap {ℓ} : Type ℓ → Type ℓ
IntMap V = List (ℕ × V)

module _ {ℓ} {V : Type ℓ} where
  -- `v, ok := m[k]`
  unfoldable pub at : ℕ → IntMap V → Option V
  at key [] = none
  at key ((own, value) ∷ rest) = if own == key then some value else at key rest

  -- `m[k] = v`
  unfoldable pub put : ℕ → V → IntMap V → IntMap V
  put key value [] = (key, value) ∷ []
  put key value ((own, old) ∷ rest) =
      if own == key then (key, value) ∷ rest else (own, old) ∷ put key value rest

  pub at-put :
      (key other : ℕ) (value : V) (entries : IntMap V)
      → at other (put key value entries) ≡ (if key == other then some value else at other entries)
  unfolding at put
  at-put key other value [] = refl
  at-put key other value ((own, old) ∷ rest) = ground (arith, at-put key other value rest)
