-- ===== src/Api/Connection/Cases.antt =====
-- The cases of what is known of a connection, before and after a step.
use ghaf_device_manager.Base.{
  ℕ, suc, Bool, true, false, ◌||◌, ◌≡◌, refl, sym, ◌∙◌, List, [], ◌∷◌, ◌++◌, length, arith, ◌⊎◌,
  inl, inr, false≢true,
}
use ghaf_device_manager.Machine.{Notification}

pub quiet-or : {A : Type 0} {ns ms : List Notification} → A ⊎ (ns ≡ []) → ms ≡ ns → A ⊎ (ms ≡ [])
quiet-or (inl a) e = inl a
quiet-or (inr k) e = inr (e ∙ k)

pub still-or : {B : Type 0} {a c : Bool} (b : Bool) → c ≡ (a || b) → (a ≡ true) ⊎ B → (c ≡ true) ⊎ B
still-or b e (inl a) = inl (ground (arith))
still-or b e (inr k) = inr k

pub due-of : {b : Bool} {m n k : ℕ} → (b ≡ true) ⊎ (m ≡ n) → b ≡ false → k ≡ suc n → suc m ≡ k
due-of (inl t) f e = absurd (false≢true (sym f ∙ t))
due-of (inr k) f e = omega (arith)

pub asked-of :
    (enabled b a l c : Bool)
    → (enabled ≡ false) ⊎ (a ≡ true)
    → b ≡ l
    → c ≡ (a || (l || false))
    → ((enabled || b) ≡ false) ⊎ (c ≡ true)
asked-of enabled b a l c (inl f) e k = ground (arith)
asked-of enabled b a l c (inr t) e k = inr (ground (arith))

pub on-asked : {enabled a : Bool} → (enabled ≡ false) ⊎ (a ≡ true) → enabled ≡ true → a ≡ true
on-asked (inl f) on = absurd (false≢true (sym f ∙ on))
on-asked (inr t) on = t

pub closing : {a b : Bool} {P : Type 0} → (b ≡ a) ⊎ (b ≡ true) → (a ≡ true) ⊎ P → (b ≡ true) ⊎ P
closing (inl e) (inl t) = inl (e ∙ t)
closing (inl e) (inr p) = inr p
closing (inr t) k = inl t

module _ {ℓ} {A : Type ℓ} where
  pub length-snoc : (xs : List A) (x : A) → length (xs ++ (x ∷ [])) ≡ suc (length xs)
  length-snoc [] x = refl
  length-snoc (y ∷ xs) x = omega (arith, length-snoc xs x)
