-- ===== src/Manager/Store/Spans.antt =====
-- What holds at each point of a row of calls, of which each may fail.
use ghaf_device_manager.Base.{String, ◌≡◌, refl, ap, sym, ◌∙◌, Option, none, some, [], ◌∷◌, ◌++◌}
use ghaf_device_manager.Base.Outcome.{Error, Result, ok, err}
use ghaf_device_manager.Machine.{FileCall, called, Trace, Setup, Machine}
use ghaf_device_manager.Machine.Monad.{M, ◌>>=◌, continue, call, call_result, lift, record_event}

-- A predicate holds at each point of what is newer.
abbrev pub Ends : (Trace → Type 0) → Trace → Type 0
Ends P [] = P []
Ends P (e ∷ t) = P (e ∷ t) × Ends P t

-- Spans: from a machine whose trace is `t` over `before`, each point is as `P` says.
module _ ⦃d : Setup⦄ (before : Trace) (P : Trace → Type 0) where
  abbrev pub Spans : Result (Unit {0}) × Machine → Type 0
  Spans r = (k : Trace) × (r.1.trace ≡ k ++ before) × Ends P k

  pub Spans-error :
      (t : Trace) (e : Error) (s : Machine) → s.trace ≡ t ++ before → Ends P t → Spans (err e, s)
  Spans-error t e s same ends = (t, same, ends)

  pub call-Spans :
      (c : FileCall) (t : Trace) (s : Machine)
      → s.trace ≡ t ++ before
      → Ends P t
      → P (called c ∷ t)
      → Spans (call c s)
  unfolding call
  call-Spans c t s same ends here = (called c ∷ t, ap (λ x. called c ∷ x) same, (here, ends))

  after_call :
      (c : FileCall) (rest : M (Unit {0})) (t : Trace) (s : Machine) (o : Option String)
      → d.world.call s.trace c ≡ o
      → s.trace ≡ t ++ before
      → Ends P t
      → P (called c ∷ t)
      → (d.world.call (t ++ before) c ≡ none → Spans (rest (record_event (called c) s)))
      → Spans (continue (call_result o) (λ u. rest) (record_event (called c) s))
  after_call c rest t s none e same ends here k = k (ap (λ x. d.world.call x c) (sym same) ∙ e)
  after_call c rest t s (some m) e same ends here k =
      (called c ∷ t, ap (λ x. called c ∷ x) same, (here, ends))

  pub then-Spans :
      (c : FileCall) (rest : M (Unit {0})) (t : Trace) (s : Machine)
      → s.trace ≡ t ++ before
      → Ends P t
      → P (called c ∷ t)
      → (d.world.call (t ++ before) c ≡ none → Spans (rest (record_event (called c) s)))
      → Spans ((call c >>= λ u. rest) s)
  unfolding ◌>>=◌ call
  then-Spans c rest t s same ends here k = after_call c rest t s _ refl same ends here k

  pub lift-Spans :
      (r : Result String) (f : String → M (Unit {0})) (s : Machine)
      → ((e : Error) → Spans (err e, s))
      → ((text : String) → r ≡ ok text → Spans (f text s))
      → Spans ((lift r >>= f) s)
  unfolding ◌>>=◌ lift
  lift-Spans (ok text) f s h k = k text refl
  lift-Spans (err e) f s h k = h e
