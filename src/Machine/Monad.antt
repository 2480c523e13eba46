-- ===== src/Machine/Monad.antt =====
-- Actions of the manager. What happened before an error stays done, so the state comes back too.
use ghaf_device_manager.Base.{
  ℕ, String, Bool, Option, none, some, List, [], ◌∷◌, ◌<>◌, if◌then◌else◌,
}
use ghaf_device_manager.Base.Outcome.{Result, ok, err, said, shown, with_context}
use ghaf_device_manager.Files.{Files}
use ghaf_device_manager.Machine.{
  FileCall, Output, Notification, Event, looked, called, ran, slept, notified, Setup, Machine,
}

abbrev pub M : Type 0 → Type 0
M A = Machine → Result A × Machine

unfoldable pub pure : {A : Type 0} → A → M A
pure a s = (ok a, s)

unfoldable pub bail : {A : Type 0} → String → M A
bail message s = (err (said message), s)

unfoldable pub lift : {A : Type 0} → Result A → M A
lift r s = (r, s)

unfoldable pub gets : {A : Type 0} → (Machine → A) → M A
gets f s = (ok (f s), s)

unfoldable pub modify : (Machine → Machine) → M (Unit {0})
modify f s = (ok tt, f s)

abbrev pub continue : {A B : Type 0} → Result A → (A → M B) → M B
continue (ok a) f s = f a s
continue (err e) f s = (err e, s)

infixl 5 ◌>>=◌ ◌>>◌
-- Opening this opens the simple actions too.
unfoldable pub ◌>>=◌ : {A B : Type 0} → M A → (A → M B) → M B
unfolding pure bail lift gets modify
◌>>=◌ m f s = let (r, s') = m s in continue r f s'

abbrev pub ◌>>◌ : {A B : Type 0} → M A → M B → M B
m >> n = m >>= λ _. n

-- The error as a value: `if let Err(error) = …`.
unfoldable pub attempt : {A : Type 0} → M A → M (Result A)
attempt m s = let (r, s') = m s in (ok r, s')

unfoldable pub in_context : {A : Type 0} → String → M A → M A
in_context message m s = let (r, s') = m s in (with_context message r, s')

-- `if let Err(error) = … { warn!(…) }`: the error is logged and dropped.
unfoldable pub warned : M (Unit {0}) → M (Unit {0})
warned m s = let (r, s') = m s in (ok tt, s')

unfoldable pub when : Bool → M (Unit {0}) → M (Unit {0})
unfolding pure
when b m = if b then m else pure tt

-- `match` on an `Option`.
unfoldable pub on_option : {A B : Type 0} → Option A → M B → (A → M B) → M B
on_option none m f = m
on_option (some a) m f = f a

-- `for`, with `?` in its body.
unfoldable pub each : {A : Type 0} → List A → (A → M (Unit {0})) → M (Unit {0})
unfolding ◌>>=◌
each [] f = pure tt
each (x ∷ xs) f = f x >> each xs f

abbrev pub add_failure : String → Result (Unit {0}) → List String → List String
add_failure name (ok _) rest = rest
add_failure name (err e) rest = (name <> (": " <> shown e)) ∷ rest

-- `for`, where a failure is put on a list under the name of its item and the loop goes on.
unfoldable pub each_failing :
    {A : Type 0} → (A → String) → List A → (A → M (Unit {0})) → M (List String)
each_failing name [] f = pure []
each_failing name (x ∷ xs) f = do
  r ← attempt (f x)
  rest ← each_failing name xs f
  pure (add_failure (name x) r rest)

abbrev pub record_event : Event → Machine → Machine
record_event e s = record s { trace = e ∷ s.trace }

abbrev pub call_result : Option String → Result (Unit {0})
call_result none = ok tt
call_result (some message) = err (said message)

module _ ⦃d : Setup⦄ where
  -- A look at the file system.
  unfoldable pub look : {A : Type 0} → (Files → A) → M A
  look f s = (ok (f (d.world.files s.trace)), record_event looked s)

  -- A look that may find an error.
  unfoldable pub query : {A : Type 0} → (Files → Result A) → M A
  query f s = (f (d.world.files s.trace), record_event looked s)

  unfoldable pub call : FileCall → M (Unit {0})
  call c s = (call_result (d.world.call s.trace c), record_event (called c) s)

  unfoldable pub run : String → List String → ℕ → M Output
  run program args deadline s =
      (d.world.run s.trace program args deadline, record_event (ran program args deadline) s)

unfoldable pub sleep : ℕ → M (Unit {0})
sleep millis s = (ok tt, record_event (slept millis) s)

unfoldable pub notify : Notification → M (Unit {0})
notify n s = (ok tt, record_event (notified n) s)
