-- ===== src/Base/Dict.antt =====
-- Maps from texts, as association lists: `HashMap<String, V>`.
use Prim.Native.String.{String}
use mathlib.Core.Path.{◌≡◌, refl}
use mathlib.Core.Bool.{Bool}
use mathlib.Core.Option.{Option, none, some}
use mathlib.Core.List.{List, [], ◌∷◌}
use native.Mathlib.Omega.{arith}
use text.Mathlib.Text.{◌==◌ as ◌=s◌}
use text.Mathlib.TextEquality.{eq_iff}
use text.Mathlib.TextPositions.{eq_refl}
use ghaf_device_manager.Base.Tests.{if◌then◌else◌, is_some}

abbrev pub Dict {ℓ} : Type ℓ → Type ℓ
Dict V = List (String × V)

module _ {ℓ} {V : Type ℓ} where
  unfoldable pub get : Dict V → String → Option V
  get [] k = none
  get ((j, v) ∷ d) k = if j =s k then some v else get d k

  unfoldable pub insert : Dict V → String → V → Dict V
  insert [] k v = (k, v) ∷ []
  insert ((j, w) ∷ d) k v = let rest = insert d k v in if j =s k then (k, v) ∷ d else (j, w) ∷ rest

  unfoldable pub remove : Dict V → String → Dict V
  remove [] k = []
  remove ((j, w) ∷ d) k = let rest = remove d k in if j =s k then rest else (j, w) ∷ rest

  abbrev pub contains_key : Dict V → String → Bool
  contains_key d k = is_some (get d k)

  pub get-insert :
      (d : Dict V) (k : String) (v : V) (j : String)
      → get (insert d k v) j ≡ (if k =s j then some v else get d j)
  unfolding get insert
  get-insert [] k v j = refl
  get-insert ((i, w) ∷ d) k v j =
      ground (arith, eq_iff k j, eq_iff i k, eq_iff i j, get-insert d k v j)

  pub get-remove :
      (d : Dict V) (k j : String) → get (remove d k) j ≡ (if k =s j then none else get d j)
  unfolding get remove
  get-remove [] k j = ground arith
  get-remove ((i, w) ∷ d) k j = ground (arith, get-remove d k j, eq_iff i k, eq_iff i j, eq_iff k j)

  -- Every value of the map satisfies `P`.
  pub record Values {κ} (P : V → Type κ) (d : Dict V) : Type (ℓ ⊔ κ) where
    pub at : (k : String) (v : V) → get d k ≡ some v → P v

  pub Values-insert {κ} :
      {P : V → Type κ} (d : Dict V) (k : String) (v : V)
      → P v
      → Values P d
      → Values P (insert d k v)
  Values-insert d k v p h = record { at = λ j u e. ground (arith, get-insert d k v j, h.at j u) }

  pub Values-remove {κ} :
      {P : V → Type κ} (d : Dict V) (k : String) → Values P d → Values P (remove d k)
  Values-remove d k h = record { at = λ j u e. ground (arith, get-remove d k j, h.at j u) }

pub ruleset dict_laws = (get-insert, get-remove, eq_refl)
