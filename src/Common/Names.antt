-- ===== src/Common/Names.antt =====
-- Membership in a list of strings.
use Prim.Native.String.{String}
use mathlib.Core.Path.{◌≡◌, refl}
use mathlib.Core.Bool.{Bool, true, false, ◌||◌}
use mathlib.Core.List.{List, [], ◌∷◌, ◌++◌}
use native.Mathlib.Omega.{arith}
use text.Mathlib.Text.{◌==◌}
use text.Mathlib.TextEquality.{eq_iff}
use vault_drift.Common.Lists.{All, All-map}

unfoldable pub mem : String → List String → Bool
mem id [] = false
mem id (other ∷ ids) = let rest = mem id ids in other == id || rest

pub mem-append :
    (id : String) (front back : List String)
    → mem id (front ++ back) ≡ (mem id front || mem id back)
unfolding mem
mem-append id [] back = refl
mem-append id (other ∷ front) back = ground (arith, mem-append id front back)

-- Each member is one.
pub mem-All : (ids : List String) → All (λ id. mem id ids ≡ true) ids
unfolding mem
mem-All [] = tt
mem-All (other ∷ ids) = (
  ground (arith, eq_iff other other),
  All-map (λ id there. ground (arith, there)) ids (mem-All ids),
)
