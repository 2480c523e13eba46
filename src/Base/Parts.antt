-- ===== src/Base/Parts.antt =====
-- A list that is another one, less some of its elements.
use mathlib.Core.List.{List, [], ◌∷◌, ◌++◌}

pub data IsPart {ℓ} {A : Type ℓ} : List A → List A → Type ℓ where
  nothing : IsPart [] []
  keep : (x : A) (xs ys : List A) → IsPart xs ys → IsPart (x ∷ xs) (x ∷ ys)
  skip : (y : A) (xs ys : List A) → IsPart xs ys → IsPart xs (y ∷ ys)

module _ {ℓ} {A : Type ℓ} where
  pub IsPart-append :
      (xs ys zs ws : List A) → IsPart xs ys → IsPart zs ws → IsPart (xs ++ zs) (ys ++ ws)
  IsPart-append _ _ zs ws nothing k = k
  IsPart-append _ _ zs ws (keep x xs ys h) k = keep x _ _ (IsPart-append xs ys zs ws h k)
  IsPart-append _ _ zs ws (skip y xs ys h) k = skip y _ _ (IsPart-append xs ys zs ws h k)

  pub IsPart-refl : (xs : List A) → IsPart xs xs
  IsPart-refl [] = nothing
  IsPart-refl (x ∷ xs) = keep x xs xs (IsPart-refl xs)

  pub IsPart-none : (xs : List A) → IsPart [] xs
  IsPart-none [] = nothing
  IsPart-none (x ∷ xs) = skip x [] xs (IsPart-none xs)

  -- What stands behind the first elements is a part where the whole is.
  pub IsPart-drop : (xs ys zs : List A) → IsPart (xs ++ ys) zs → IsPart ys zs
  IsPart-drop [] ys zs h = h
  IsPart-drop (x ∷ xs) ys [] h = elim h [ ]
  IsPart-drop (x ∷ xs) ys (z ∷ zs) (keep _ _ _ h) = skip z ys zs (IsPart-drop xs ys zs h)
  IsPart-drop (x ∷ xs) ys (z ∷ zs) (skip _ _ _ h) = skip z ys zs (IsPart-drop (x ∷ xs) ys zs h)

  -- What stands in the middle can be left out.
  pub IsPart-middle :
      (xs lost ys zs : List A) → IsPart (xs ++ (lost ++ ys)) zs → IsPart (xs ++ ys) zs
  IsPart-middle [] lost ys zs h = IsPart-drop lost ys zs h
  IsPart-middle (x ∷ xs) lost ys [] h = elim h [ ]
  IsPart-middle (x ∷ xs) lost ys (z ∷ zs) (keep _ _ _ h) =
      keep z (xs ++ ys) zs (IsPart-middle xs lost ys zs h)
  IsPart-middle (x ∷ xs) lost ys (z ∷ zs) (skip _ _ _ h) =
      skip z _ zs (IsPart-middle (x ∷ xs) lost ys zs h)
