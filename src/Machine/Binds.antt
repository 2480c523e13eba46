-- ===== src/Machine/Binds.antt =====
-- A row of actions does not depend on how it is bracketed.
use ghaf_device_manager.Base.{◌≡◌, refl}
use ghaf_device_manager.Base.Outcome.{Result, ok, err}
use ghaf_device_manager.Machine.{Machine}
use ghaf_device_manager.Machine.Monad.{M, ◌>>=◌, continue}

continue_assoc :
    {A B C : Type 0} (r : Result A) (f : A → M B) (g : B → M C) (s : Machine)
    → continue ((continue r f s).0) g ((continue r f s).1) ≡ continue r (λ x. f x >>= g) s
unfolding ◌>>=◌
continue_assoc (ok a) f g s = refl
continue_assoc (err e) f g s = refl

pub bind_assoc :
    {A B C : Type 0} (m : M A) (f : A → M B) (g : B → M C) (s : Machine)
    → ((m >>= f) >>= g) s ≡ (m >>= λ x. f x >>= g) s
unfolding ◌>>=◌
bind_assoc m f g s = continue_assoc ((m s).0) f g ((m s).1)

continue-cong :
    {A B : Type 0} (r : Result A) (f g : A → M B) (s : Machine)
    → ((x : A) → f x s ≡ g x s)
    → continue r f s ≡ continue r g s
continue-cong (ok a) f g s h = h a
continue-cong (err e) f g s h = refl

pub bind-cong :
    {A B : Type 0} (m : M A) (f g : A → M B) (s : Machine)
    → ((x : A) (s' : Machine) → f x s' ≡ g x s')
    → (m >>= f) s ≡ (m >>= g) s
unfolding ◌>>=◌
bind-cong m f g s h = continue-cong ((m s).0) f g ((m s).1) (λ x. h x ((m s).1))
