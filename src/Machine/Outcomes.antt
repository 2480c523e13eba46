-- ===== src/Machine/Outcomes.antt =====
-- What holds after an action that succeeds, one rule for each way to build an action.
use mathlib.Core.Path.{subst}
use ghaf_device_manager.Base.{
  String, Option, none, some, Bool, true, false, ◌≡◌, refl, if◌then◌else◌,
}
use ghaf_device_manager.Base.Outcome.{Result, ok, err, Error, said, with_context}
use ghaf_device_manager.Machine.{Machine}
use ghaf_device_manager.Machine.Monad.{
  M, call_result, pure, bail, lift, gets, modify, ◌>>=◌, continue, attempt,
}
use ghaf_device_manager.Machine.Rules.{Keeps}

-- From a state with `P`, an `m` that succeeds with `a` leaves a state with `Q a`.
pub record Yields {A : Type 0} (P : Machine → Type 0) (m : M A) (Q : A → Machine → Type 0)
    : Type 0 where
  pub at : (s : Machine) → P s → (a : A) → (m s).0 ≡ ok a → Q a (m s).1

module _ {A : Type 0} where
  ok-injective : (a b : A) → ok a ≡ ok b → a ≡ b
  ok-injective a b h = cc

  impossible : {Z : Type 0} (e : Error) (a : A) → err e ≡ ok a → Z
  impossible e a h = cc

  module _ {P : Machine → Type 0} {Q : A → Machine → Type 0} where
    pub Yields-pure : (a : A) → ((s : Machine) → P s → Q a s) → Yields P (pure a) Q
    unfolding pure
    Yields-pure a k = record { at = λ s h b e. subst (λ x. Q x s) (ok-injective a b e) (k s h) }

    pub Yields-bail : (message : String) → Yields P (bail message) Q
    unfolding bail
    Yields-bail message = record { at = λ s h b e. impossible (said message) b e }

    pub Yields-lift :
        (r : Result A) → ((a : A) (s : Machine) → r ≡ ok a → P s → Q a s) → Yields P (lift r) Q
    unfolding lift
    Yields-lift r k = record { at = λ s h a e. k a s e h }

    pub Yields-gets : (f : Machine → A) → ((s : Machine) → P s → Q (f s) s) → Yields P (gets f) Q
    unfolding gets
    Yields-gets f k = record { at = λ s h b e. subst (λ x. Q x s) (ok-injective (f s) b e) (k s h) }

    pub Yields-if :
        (b : Bool) (m n : M A)
        → (b ≡ true → Yields P m Q)
        → (b ≡ false → Yields P n Q)
        → Yields P (if b then m else n) Q
    Yields-if true m n km kn = km refl
    Yields-if false m n km kn = kn refl

  pub Yields-keeps : {P : Machine → Type 0} (m : M A) → Keeps P m → Yields P m (λ _. P)
  Yields-keeps m k = record { at = λ s h a e. k.at s h }

  pub Yields-weaken :
      {P P' : Machine → Type 0} {Q Q' : A → Machine → Type 0} (m : M A)
      → ((s : Machine) → P' s → P s)
      → ((a : A) (s : Machine) → Q a s → Q' a s)
      → Yields P m Q
      → Yields P' m Q'
  Yields-weaken m before after k = record {
    at = λ s h a e. after a (m s).1 (k.at s (before s h) a e);
  }

module _ {P : Machine → Type 0} where
  pub Yields-modify :
      {Q : Unit {0} → Machine → Type 0} (f : Machine → Machine)
      → ((s : Machine) → P s → Q tt (f s))
      → Yields P (modify f) Q
  unfolding modify
  Yields-modify f k = record { at = λ s h u e. k s h }

module _ {A B : Type 0} {Q : A → Machine → Type 0} {R : B → Machine → Type 0} where
  Yields-continue :
      (r : Result A) (f : A → M B) (s : Machine)
      → ((a : A) → r ≡ ok a → Q a s)
      → ((a : A) → Yields (Q a) (f a) R)
      → (b : B) → (continue r f s).0 ≡ ok b
      → R b (continue r f s).1
  Yields-continue (ok a) f s q k b e = (k a).at s (q a refl) b e
  Yields-continue (err x) f s q k b e = impossible x b e

  pub Yields-bind :
      {P : Machine → Type 0} (m : M A) (f : A → M B)
      → Yields P m Q
      → ((a : A) → Yields (Q a) (f a) R)
      → Yields P (m >>= f) R
  unfolding ◌>>=◌
  Yields-bind m f km kf = record {
    at = λ s h b e. Yields-continue (m s).0 f (m s).1 (km.at s h) kf b e;
  }

-- From a state with `P`, `m` leaves a state with `Q`, whether it succeeds or fails.
pub record Leaves {A : Type 0} (P : Machine → Type 0) (m : M A) (Q : Machine → Type 0)
    : Type 0 where
  pub at : (s : Machine) → P s → Q (m s).1

module _ {Q : Machine → Type 0} where
  continued :
      {A B : Type 0} (r : Result A) (f : A → M B) (s : Machine)
      → Q s
      → ((a : A) → Keeps Q (f a))
      → Q (continue r f s).1
  continued (ok a) f s h k = (k a).at s h
  continued (err e) f s h k = h

  pub Leaves-bind :
      {P : Machine → Type 0} {A B : Type 0} (m : M A) (f : A → M B)
      → Leaves P m Q
      → ((a : A) → Keeps Q (f a))
      → Leaves P (m >>= f) Q
  unfolding ◌>>=◌
  Leaves-bind m f k kf = record { at = λ s h. continued (m s).0 f (m s).1 (k.at s h) kf }

module _ {P Q R : Machine → Type 0} where
  pub Leaves-modify_then :
      {B : Type 0} (f : Machine → Machine) (n : M B)
      → ((s : Machine) → P s → Q (f s))
      → Leaves Q n R
      → Leaves P (modify f >>= λ _. n) R
  unfolding ◌>>=◌ modify
  Leaves-modify_then f n kf kn = record { at = λ s h. kn.at (f s) (kf s h) }

  pub Leaves-attempt_then :
      {A B : Type 0} (m : M A) (f : Result A → M B)
      → Leaves P m Q
      → ((r : Result A) → Leaves Q (f r) R)
      → Leaves P (attempt m >>= f) R
  unfolding ◌>>=◌ attempt
  Leaves-attempt_then m f km kf = record { at = λ s h. (kf (m s).0).at (m s).1 (km.at s h) }

pub Leaves-keeps : {A : Type 0} {P : Machine → Type 0} (m : M A) → Keeps P m → Leaves P m P
Leaves-keeps m k = record { at = k.at }

pub call_result-ok : (o : Option String) → call_result o ≡ ok tt → o ≡ none
call_result-ok none e = refl
call_result-ok (some m) e = cc

pub with_context-ok :
    (message : String) (r : Result (Unit {0})) → with_context message r ≡ ok tt → r ≡ ok tt
with_context-ok message (ok u) e = refl
with_context-ok message (err x) e = cc
