-- ===== src/Manager/Gate/Opened.antt =====
-- `open_usb_gate` of src/manager.rs hands the binding of USB drivers back to the kernel.
use text.Mathlib.TextLemmas.{append_cancel_left}
use mathlib.Core.Path.{subst}
use ghaf_device_manager.Base.{
  String, ◌=s◌, ◌/s◌, eq_iff, eq_refl, Bool, true, false, ◌&&◌, ◌≡◌, ◌≢◌, refl, sym, Option, none,
  some, List, [], ◌∷◌, is_none, if◌then◌else◌, ◌⊎◌, inl, inr, contains, Bool-cases, false≢true,
}
use ghaf_device_manager.Base.Outcome.{Result, ok, err}
use ghaf_device_manager.Config.Pci.{routes_usb}
use ghaf_device_manager.Machine.{FileCall, write, looked, called, Trace, Setup, Machine}
use ghaf_device_manager.Machine.Monad.{
  M, pure, ◌>>=◌, call, look, query, in_context, when, on_option, record_event,
}
use ghaf_device_manager.Files.{Files}
use ghaf_device_manager.Machine.Rules.{
  Keeps, Keeps-bind, Keeps-then, Keeps-if, Keeps-pure, Keeps-when, Keeps-each, Keeps-warned,
  Keeps-in_context,
}
use ghaf_device_manager.Machine.Outcomes.{
  call_result-ok, with_context-ok, Yields, Yields-bind, Yields-keeps,
}
use ghaf_device_manager.UsbGate.{autoprobe_attribute, is_closed, autoprobe, open_bus, probe}
use ghaf_device_manager.Manager.Claim.{usb_bus}
use ghaf_device_manager.Manager.Detach.{authorizing}
use ghaf_device_manager.Manager.Gate.{
  is_refused, probe_if_unbound, each_listed, each_interface, hand_back, reopen, open_usb_gate,
}

apart_test : {a b : String} → a ≢ b → (a =s b) ≡ false
apart_test {a} {b} h = elim (Bool-cases (a =s b)) [
  | inl e ↦ absurd (h ((eq_iff a b).0 e))
  | inr e ↦ e
]

module _ ⦃d : Setup⦄ where
  -- What the last write to a path that has succeeded wrote.
  written : String → Trace → FileCall → Option String → Option String
  written path t (write p value) older =
      if (p =s path) && is_none (d.world.call t (write p value)) then some value else older
  written path t _ older = older

  unfoldable pub last_written : String → Trace → Option String
  unfolding written
  last_written path [] = none
  last_written path (called c ∷ t) = written path t c (last_written path t)
  last_written path (_ ∷ t) = last_written path t

  module _ (bus : String) where
    abbrev gate : String
    gate = bus /s autoprobe_attribute

    -- The kernel binds drivers.
    abbrev pub IsOpen : Machine → Type 0
    IsOpen s = last_written gate s.trace ≡ some "1"

    Keeps-look : {A : Type 0} (f : Files → A) → Keeps IsOpen (look f)
    unfolding look last_written
    Keeps-look f = record { at = λ s h. h }

    Keeps-query : {A : Type 0} (f : Files → Result A) → Keeps IsOpen (query f)
    unfolding query last_written
    Keeps-query f = record { at = λ s h. h }

    probes_apart : (bus /s "drivers_probe") ≢ gate
    probes_apart e = false≢true (
        (eq_iff "/drivers_probe" "/drivers_autoprobe").1
          (append_cancel_left bus "/drivers_probe" "/drivers_autoprobe" e))

    Keeps-probe : (name : String) → Keeps IsOpen (probe bus name)
    unfolding probe call last_written
    Keeps-probe name = Keeps-in_context _ _ record { at = λ s h. rw (apart_test probes_apart) h }

    Keeps-probe_if_unbound : (name : String) → Keeps IsOpen (probe_if_unbound bus name)
    unfolding probe_if_unbound
    Keeps-probe_if_unbound name =
        Keeps-bind _ _ (Keeps-look _) λ bound. Keeps-when _ _ (Keeps-warned _ (Keeps-probe _))

    Keeps-is_refused : (name : String) → Keeps IsOpen (is_refused name)
    unfolding is_refused
    Keeps-is_refused name = Keeps-if authorizing _ _ (Keeps-look _) (Keeps-pure false)

    Keeps-each_listed :
        (listed : Result (List String)) (f : String → M (Unit {0}))
        → ((x : String) → Keeps IsOpen (f x))
        → Keeps IsOpen (each_listed listed f)
    unfolding each_listed
    Keeps-each_listed (ok names) f k = Keeps-each _ _ k
    Keeps-each_listed (err e) f k = Keeps-pure tt

    Keeps-hand_back : (held : List String) (name : String) → Keeps IsOpen (hand_back bus held name)
    unfolding hand_back each_interface
    Keeps-hand_back held name = Keeps-if (contains held name) (pure tt) _ (Keeps-pure tt) (
        Keeps-bind _ _ (Keeps-is_refused name) λ refused. Keeps-when _ _ (
          Keeps-then _ _ (Keeps-probe_if_unbound name) (
            Keeps-bind _ _ (Keeps-look _)
              λ listed. Keeps-each_listed listed _ Keeps-probe_if_unbound)))

    abbrev Any : Machine → Type 0
    Any s = Unit {0}

    -- A write of 1 that succeeds.
    Yields-open_bus : Yields Any (open_bus bus) (λ u s. IsOpen s)
    unfolding open_bus autoprobe in_context call last_written
    Yields-open_bus = record {
      at = λ s h u e.
          rw
            (
              eq_refl gate,
              call_result-ok (d.world.call s.trace (write gate "1")) (with_context-ok _ _ e),
            )
            refl;
    }

    Yields-reopen : Yields Any (reopen bus) (λ u s. IsOpen s)
    unfolding reopen
    Yields-reopen = Yields-bind _ _ (Yields-keeps _ record { at = λ s h. tt }) λ held.
        Yields-bind _ _ Yields-open_bus λ u.
          Yields-keeps _
            (Keeps-bind _ _ (Keeps-query _) λ names. Keeps-each _ _ (Keeps-hand_back held))

  -- No bus is there, or the gate is read as not closed, or the last write to it that has succeeded opens it.
  abbrev pub IsOpened : Machine → Machine → Type 0
  IsOpened u s =
      (usb_bus (d.world.files u.trace) ≡ none)
      ⊎ ((bus : String) × (usb_bus (d.world.files u.trace) ≡ some bus)
          × ((is_closed (d.world.files (looked ∷ u.trace)) bus ≡ false) ⊎ IsOpen bus s))

  shut_or_not :
      (bus : String) (u : Machine) (b : Bool)
      → is_closed (d.world.files u.trace) bus ≡ b
      → (when b (reopen bus) (record_event looked u)).0 ≡ ok tt
      → (is_closed (d.world.files u.trace) bus ≡ false)
        ⊎ IsOpen bus (when b (reopen bus) (record_event looked u)).1
  unfolding when
  shut_or_not bus u true e h = inr ((Yields-reopen bus).at (record_event looked u) tt tt h)
  shut_or_not bus u false e h = inl e

  -- What is done about a bus.
  on_bus : String → M (Unit {0})
  on_bus b = when (routes_usb d.config) (look (λ f. is_closed f b) >>= λ shut. when shut (reopen b))

  on_bus-when :
      (bus : String) (u : Machine)
      → routes_usb d.config ≡ true
      → on_bus bus u
        ≡ when (is_closed (d.world.files u.trace) bus) (reopen bus) (record_event looked u)
  unfolding on_bus when look ◌>>=◌
  on_bus-when bus u routes = rw routes refl

  on_bus-IsOpened :
      (bus : String) (u : Machine)
      → routes_usb d.config ≡ true
      → (on_bus bus u).0 ≡ ok tt
      → (is_closed (d.world.files u.trace) bus ≡ false) ⊎ IsOpen bus (on_bus bus u).1
  on_bus-IsOpened bus u routes =
      subst
        (λ (r : Result (Unit {0}) × Machine).
          r.0 ≡ ok tt → (is_closed (d.world.files u.trace) bus ≡ false) ⊎ IsOpen bus r.1)
        (sym (on_bus-when bus u routes))
        (shut_or_not bus u (is_closed (d.world.files u.trace) bus) refl)

  found-IsOpened :
      (o : Option String) (u : Machine)
      → routes_usb d.config ≡ true
      → usb_bus (d.world.files u.trace) ≡ o
      → (on_option o (pure tt) on_bus (record_event looked u)).0 ≡ ok tt
      → IsOpened u (on_option o (pure tt) on_bus (record_event looked u)).1
  unfolding on_option
  found-IsOpened none u routes e h = inl e
  found-IsOpened (some bus) u routes e h =
      inr (bus, e, on_bus-IsOpened bus (record_event looked u) routes h)

  -- Where the configuration routes USB devices: after `open_usb_gate` succeeds, either no bus has the
  -- attribute, or the gate was read as not closed, or the last write to the attribute that has
  -- succeeded is 1.
  pub open_usb_gate-IsOpened :
      (u : Machine)
      → routes_usb d.config ≡ true
      → (open_usb_gate u).0 ≡ ok tt
      → IsOpened u (open_usb_gate u).1
  unfolding open_usb_gate on_bus ◌>>=◌ look
  open_usb_gate-IsOpened u routes h =
      found-IsOpened (usb_bus (d.world.files u.trace)) u routes refl h
