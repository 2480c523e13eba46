-- ===== src/Base/Members.antt =====
-- Lists of texts as sets.
use Prim.Native.String.{String}
use mathlib.Core.Path.{◌≡◌, refl}
use mathlib.Core.Bool.{Bool, true}
use mathlib.Core.List.{List, [], ◌∷◌}
use native.Mathlib.Omega.{arith}
use text.Mathlib.TextPositions.{eq_refl}
use ghaf_device_manager.Base.Lists.{all}
use ghaf_device_manager.Base.Text.{contains}

pub all-weaken :
    (p q : String → Bool)
    → ((x : String) → p x ≡ true → q x ≡ true)
    → (xs : List String) → all p xs ≡ true
    → all q xs ≡ true
all-weaken p q k [] h = refl
all-weaken p q k (x ∷ xs) h = ground (arith, all-weaken p q k xs, k x)

pub all-contains : (xs : List String) → all (contains xs) xs ≡ true
all-contains [] = refl
all-contains (x ∷ xs) = ground (
  arith,
  eq_refl x,
  all-contains xs,
  all-weaken (contains xs) (contains (x ∷ xs)) (λ y h. ground (arith)) xs,
)
