-- ===== src/Machine/Rules.antt =====
-- How an invariant of the manager's single calls becomes one of a whole method: a rule for each
-- combinator of Machine/Monad.
use ghaf_device_manager.Base.{
  String, Bool, true, false, Option, none, some, List, [], ◌∷◌, ◌≡◌, refl, if◌then◌else◌,
}
use ghaf_device_manager.Base.Outcome.{Result, ok, err}
use ghaf_device_manager.Machine.{Machine}
use ghaf_device_manager.Machine.Monad.{
  M, pure, bail, lift, gets, modify, ◌>>=◌, continue, attempt, in_context, warned, when, on_option,
  each, each_failing,
}

-- `m` keeps `P`, whether it returns or fails.
pub record Keeps {A : Type 0} (Inv : Machine → Type 0) (act : M A) : Type 0 where
  pub at : (t : Machine) → Inv t → Inv (act t).1

module _ {A : Type 0} {Inv : Machine → Type 0} where
  pub Keeps-pure : (a : A) → Keeps Inv (pure a)
  unfolding pure
  Keeps-pure a = record { at = λ _ held. held }

  pub Keeps-bail : (message : String) → Keeps Inv (bail {A = A} message)
  unfolding bail
  Keeps-bail message = record { at = λ _ held. held }

  pub Keeps-lift : (r : Result A) → Keeps Inv (lift r)
  unfolding lift
  Keeps-lift r = record { at = λ _ held. held }

  pub Keeps-gets : (f : Machine → A) → Keeps Inv (gets f)
  unfolding gets
  Keeps-gets f = record { at = λ _ held. held }

  pub Keeps-if :
      (b : Bool) (act alt : M A)
      → Keeps Inv act
      → Keeps Inv alt
      → Keeps Inv (if b then act else alt)
  Keeps-if true act alt first_kept second_kept = first_kept
  Keeps-if false act alt first_kept second_kept = second_kept

  -- Each branch may use what the test came to.
  pub Keeps-if_known :
      (b : Bool) (act alt : M A)
      → (b ≡ true → Keeps Inv act)
      → (b ≡ false → Keeps Inv alt)
      → Keeps Inv (if b then act else alt)
  Keeps-if_known true act alt first_kept second_kept = first_kept refl
  Keeps-if_known false act alt first_kept second_kept = second_kept refl

  pub Keeps-attempt : (act : M A) → Keeps Inv act → Keeps Inv (attempt act)
  unfolding attempt
  Keeps-attempt act k = record { at = k.at }

  pub Keeps-in_context :
      (message : String) (act : M A) → Keeps Inv act → Keeps Inv (in_context message act)
  unfolding in_context
  Keeps-in_context message act k = record { at = k.at }

module _ {A B : Type 0} {Inv : Machine → Type 0} where
  Keeps-continue :
      (r : Result A) (f : A → M B) → ((a : A) → Keeps Inv (f a)) → Keeps Inv (continue r f)
  Keeps-continue (ok a) f k = record { at = (k a).at }
  Keeps-continue (err e) f k = record { at = λ _ held. held }

  pub Keeps-bind :
      (act : M A) (f : A → M B)
      → Keeps Inv act
      → ((a : A) → Keeps Inv (f a))
      → Keeps Inv (act >>= f)
  unfolding ◌>>=◌
  Keeps-bind act f first_kept rest_kept = record {
    at = λ t h. (Keeps-continue (act t).0 f rest_kept).at (act t).1 (first_kept.at t h);
  }

  pub Keeps-then :
      (act : M A) (alt : M B) → Keeps Inv act → Keeps Inv alt → Keeps Inv (act >>= λ _. alt)
  Keeps-then act alt first_kept second_kept =
      Keeps-bind act (λ _. alt) first_kept (λ _. second_kept)

  -- What follows `lift r` may use that `r` is no error.
  pub Keeps-bind_lift :
      (r : Result A) (f : A → M B)
      → ((a : A) → r ≡ ok a → Keeps Inv (f a))
      → Keeps Inv (lift r >>= f)
  unfolding ◌>>=◌
  Keeps-bind_lift (ok a) f k = record { at = (k a refl).at }
  Keeps-bind_lift (err e) f k = record { at = λ _ held. held }

  pub Keeps-on_option :
      (o : Option A) (act : M B) (f : A → M B)
      → Keeps Inv act
      → ((a : A) → Keeps Inv (f a))
      → Keeps Inv (on_option o act f)
  unfolding on_option
  Keeps-on_option none act f first_kept rest_kept = first_kept
  Keeps-on_option (some a) act f first_kept rest_kept = rest_kept a

module _ {Inv : Machine → Type 0} where
  pub Keeps-modify :
      (f : Machine → Machine) → ((t : Machine) → Inv t → Inv (f t)) → Keeps Inv (modify f)
  unfolding modify
  Keeps-modify f k = record { at = k }

  pub Keeps-warned : (act : M (Unit {0})) → Keeps Inv act → Keeps Inv (warned act)
  unfolding warned
  Keeps-warned act k = record { at = k.at }

  pub Keeps-when : (b : Bool) (act : M (Unit {0})) → Keeps Inv act → Keeps Inv (when b act)
  unfolding when
  Keeps-when true act k = k
  Keeps-when false act k = Keeps-pure tt

  pub Keeps-each :
      {A : Type 0} (xs : List A) (f : A → M (Unit {0}))
      → ((x : A) → Keeps Inv (f x))
      → Keeps Inv (each xs f)
  unfolding each
  Keeps-each [] f k = Keeps-pure tt
  Keeps-each (x ∷ xs) f k = Keeps-bind (f x) (λ _. each xs f) (k x) (λ _. Keeps-each xs f k)

  pub Keeps-each_failing :
      {A : Type 0} (name : A → String) (xs : List A) (f : A → M (Unit {0}))
      → ((x : A) → Keeps Inv (f x))
      → Keeps Inv (each_failing name xs f)
  unfolding each_failing
  Keeps-each_failing name [] f k = Keeps-pure []
  Keeps-each_failing name (x ∷ xs) f k =
      Keeps-bind _ _ (Keeps-attempt (f x) (k x))
        λ r. Keeps-bind _ _ (Keeps-each_failing name xs f k) λ rest. Keeps-pure _

pub ruleset keeps_rules = (
  Keeps-pure, Keeps-bail, Keeps-lift, Keeps-gets, Keeps-if, Keeps-attempt, Keeps-in_context,
  Keeps-bind_lift, Keeps-bind, Keeps-on_option, Keeps-modify, Keeps-warned, Keeps-when, Keeps-each,
  Keeps-each_failing,
)
