-- ===== src/Invariant/Sockets.antt =====
-- src/manager.rs and src/api.rs as a whole: which sockets Crosvm is sent to, and which VMs the
-- manager holds to have a device.
use mathlib.Core.Path.{subst}
use ghaf_device_manager.Base.{
  String, true, false, ◌≡◌, refl, sym, ◌∙◌, ap, Option, some, List, [], ◌∷◌, ◌++◌, All, contains,
  ◌⊎◌, inl, inr,
}
use ghaf_device_manager.Base.Outcome.{Result, ok, err, ◌>>=◌ as ◌>>=r◌}
use ghaf_device_manager.Base.Dict
use ghaf_device_manager.Base.Dict.{Values}
use ghaf_device_manager.Device.{UsbDevice}
use ghaf_device_manager.Config.Types.{Vm, RuleMatch}
use ghaf_device_manager.Config.Vms.{validate}
use ghaf_device_manager.Config.Pci.{allowed_vms}
use ghaf_device_manager.State.{State}
use ghaf_device_manager.Protocol.{Action}
use ghaf_device_manager.Api.{handle}
use ghaf_device_manager.Crosvm.Commands.{deadline}
use ghaf_device_manager.Machine.{Event, looked, called, ran, slept, notified, Trace, Setup, Machine}
use ghaf_device_manager.Machine.Monad.{record_event}
use ghaf_device_manager.Manager.Store.{load, with_roots}
use ghaf_device_manager.Manager.Gate.{close_usb_gate, open_usb_gate, enable_usb_authorization}
use ghaf_device_manager.Manager.Attach.{attach_one_usb}
use ghaf_device_manager.Manager.Passes.{reconcile}
use ghaf_device_manager.Invariant.{IsVm, IsConfigured, Closed, last, is_attach}
use ghaf_device_manager.Invariant.Usb.{Keeps-attach_one_usb}
use ghaf_device_manager.Invariant.Gate.{
  Keeps-close_usb_gate, Keeps-open_usb_gate, Keeps-enable_usb_authorization,
}
use ghaf_device_manager.Invariant.Passes.{Keeps-reconcile}
use ghaf_device_manager.Invariant.Api.{Keeps-handle_inner}

-- One operation of the daemon, which runs with no other in between.
pub data Step : Type 0 where
  request : Action → Step
  pass : Step
  enable_authorization : Step
  close_gate : Step
  open_gate : Step

checked-ok : (r : Result (Unit {0})) (m s : Machine) → (r >>=r λ _. Result.ok m) ≡ ok s → m ≡ s
checked-ok (ok u) m s h = cc
checked-ok (err e) m s h = cc

module _ ⦃d : Setup⦄ where
  -- A command of the manager's runner is the configured Crosvm, on the socket of a configured VM.
  abbrev pub IsAddressed : Event → Type 0
  IsAddressed (ran program args time) =
      (program ≡ d.config.general.crosvm)
      × ((time ≡ deadline) × ((v : Vm) × (IsVm v × (last args ≡ some v.socket))))
  IsAddressed e = Unit

  pub record IsSound (s : Machine) : Type 0 where
    pub commands : All IsAddressed s.trace
    pub usb : Values IsConfigured s.state.usb_vms
    pub pci : Values IsConfigured s.state.pci_vms

  abbrev pub run_step : Step → Machine → Machine
  run_step (request a) s = (handle a s).1
  run_step pass s = (reconcile s).1
  run_step enable_authorization s = (enable_usb_authorization s).1
  run_step close_gate s = (close_usb_gate s).1
  run_step open_gate s = (open_usb_gate s).1

  abbrev pub run_steps : List Step → Machine → Machine
  run_steps [] s = s
  run_steps (x ∷ xs) s = run_steps xs (run_step x s)

  abbrev AnyVm : Vm → Type 0
  AnyVm v = Unit {0}

  sound : Closed AnyVm IsSound
  sound = record {
    at_look = λ s h. record { commands = (tt, h.commands); usb = h.usb; pci = h.pci };
    at_call = λ c s h. record { commands = (tt, h.commands); usb = h.usb; pci = h.pci };
    at_sleep = λ c s h. record { commands = (tt, h.commands); usb = h.usb; pci = h.pci };
    at_notify = λ c s h. record { commands = (tt, h.commands); usb = h.usb; pci = h.pci };
    at_command = λ args v s known ends plain h. record {
      commands = ((refl, (refl, (v, (known, ends)))), h.commands);
      usb = h.usb;
      pci = h.pci;
    };
    at_attach = λ node v s known target h. record {
      commands = ((refl, (refl, (v, (known, refl)))), h.commands);
      usb = h.usb;
      pci = h.pci;
    };
    at_state = λ f s m h. record {
      commands = h.commands;
      usb = m.usb s.state h.usb;
      pci = m.pci s.state h.pci;
    };
    at_fields = λ f s k h. record {
      commands = subst (All IsAddressed) (sym (k s).0) h.commands;
      usb = subst (λ (t : State). Values IsConfigured t.usb_vms) (sym (k s).1) h.usb;
      pci = subst (λ (t : State). Values IsConfigured t.pci_vms) (sym (k s).1) h.pci;
    };
  }

  run_step-IsSound : (x : Step) (s : Machine) → IsSound s → IsSound (run_step x s)
  unfolding handle
  run_step-IsSound (request a) s h = (Keeps-handle_inner sound (λ v. tt) a).at s h
  run_step-IsSound pass s h = (Keeps-reconcile sound (λ v. tt)).at s h
  run_step-IsSound enable_authorization s h = (Keeps-enable_usb_authorization sound).at s h
  run_step-IsSound close_gate s h = (Keeps-close_usb_gate sound).at s h
  run_step-IsSound open_gate s h = (Keeps-open_usb_gate sound).at s h

  run_steps-IsSound : (xs : List Step) (s : Machine) → IsSound s → IsSound (run_steps xs s)
  run_steps-IsSound [] s h = h
  run_steps-IsSound (x ∷ xs) s h = run_steps-IsSound xs (run_step x s) (run_step-IsSound x s h)

  Values-empty : Values IsConfigured []
  unfolding Dict.get
  Values-empty = record { at = λ k v e. cc }

  start-IsSound : (s : Machine) → with_roots d.world d.config ≡ ok s → IsSound s
  unfolding with_roots load
  start-IsSound s h =
      subst IsSound (checked-ok (validate d.config) _ s h)
        (record { commands = tt; usb = Values-empty; pci = Values-empty })

  -- From its start, whatever the manager is asked, one operation after the other, and whatever the system answers,
  -- every command that it gives its command runner is the configured Crosvm with the ten-second deadline on the socket
  -- of a configured VM, and every VM that it records as the holder of a USB or PCI device is a
  -- configured one. The configuration's own runs of modprobe and modinfo do not pass through the runner.
  pub run_steps-start-IsSound :
      (xs : List Step) (s : Machine) → with_roots d.world d.config ≡ ok s → IsSound (run_steps xs s)
  run_steps-start-IsSound xs s h = run_steps-IsSound xs s (start-IsSound s h)

module _ ⦃d : Setup⦄ where
  -- The event is no attach, or one to the socket of a configured VM that the rule allows.
  abbrev pub IsAllowed : RuleMatch → Event → Type 0
  IsAllowed r (ran program args time) =
      (is_attach args ≡ false)
      ⊎ ((v : Vm) × (IsVm v
            × ((last args ≡ some v.socket) × (contains (allowed_vms r) v.name ≡ true))))
  IsAllowed r e = Unit

  -- The events after those of `before` satisfy `Q`.
  abbrev pub Adds : (Event → Type 0) → Trace → Machine → Type 0
  Adds Q before s = (new : Trace) × ((s.trace ≡ new ++ before) × All Q new)

  add_event :
      {Q : Event → Type 0} (before : Trace) (e : Event) (s : Machine)
      → Q e
      → Adds Q before s
      → Adds Q before (record_event e s)
  add_event before e s q (new, (same, all_new)) = (e ∷ new, (ap (λ t. e ∷ t) same, (q, all_new)))

  allowing :
      (r : RuleMatch) (before : Trace)
      → Closed (λ v. contains (allowed_vms r) v.name ≡ true) (Adds (IsAllowed r) before)
  allowing r before = record {
    at_look = λ s h. add_event before looked s tt h;
    at_call = λ c s h. add_event before (called c) s tt h;
    at_sleep = λ c s h. add_event before (slept c) s tt h;
    at_notify = λ c s h. add_event before (notified c) s tt h;
    at_command = λ args v s known ends plain h. add_event before _ s (inl plain) h;
    at_attach =
        λ node v s known target h. add_event before _ s (inr (v, (known, (refl, target)))) h;
    at_state = λ f s m h. h;
    at_fields = λ f s k (new, (same, all_new)). (new, ((k s).0 ∙ same, all_new));
  }

  -- Whatever VM is requested, and whatever the outcome, `attach_one_usb` sends Crosvm an attach only on the
  -- socket of a configured VM that the device's rule allows.
  pub attach_one_usb-IsAllowed :
      (device : UsbDevice) (r : RuleMatch) (requested : Option String) (s : Machine)
      → Adds (IsAllowed r) s.trace (attach_one_usb device r requested s).1
  attach_one_usb-IsAllowed device r requested s =
      (Keeps-attach_one_usb (allowing r s.trace) device r (λ v t. t) requested).at s
        ([], (refl, tt))
