-- ===== src/Invariant/Passes.antt =====
-- A pass, its parts and the requests of the API keep a closed invariant.
use ghaf_device_manager.Base.{String, Bool, true, false, Option, none, some, List, [], refl}
use ghaf_device_manager.Base.Outcome.{Result, ok, err}
use ghaf_device_manager.Base.Dict.{Dict, Values, Values-remove}
use ghaf_device_manager.Device.{UsbDevice, PciDevice}
use ghaf_device_manager.Config.Types.{Vm}
use ghaf_device_manager.Config.Vms.{vm}
use ghaf_device_manager.State.{UsbPortBinding}
use ghaf_device_manager.Machine.{Setup, Machine}
use ghaf_device_manager.Machine.Monad.{M, pure, modify, lift, each_failing, attempt, ◌>>=◌}
use ghaf_device_manager.Machine.Rules.{
  Keeps, Keeps-bind, Keeps-bind_lift, Keeps-then, Keeps-if, Keeps-pure, Keeps-lift, Keeps-gets,
  Keeps-on_option, Keeps-when, Keeps-each, Keeps-each_failing, Keeps-warned, Keeps-attempt,
}
use ghaf_device_manager.Manager.Select.{Selector, aggregate}
use ghaf_device_manager.Manager.Detach.{detach_usb}
use ghaf_device_manager.Manager.Attach.{attach_usb}
use ghaf_device_manager.Manager.Observe.{
  remove_some, forget_unplugged, forget_address, detach_bound, free_port, forget_usb_device,
  unplugged_usb, plugged_usb, observe_usb, plugged_pci, unplugged_pci, observe_pci, observe,
}
use ghaf_device_manager.Manager.Passes.{
  UsbMatch, PciMatch, set_deferred, suspend_one_usb, suspend_usb, suspend_one_pci, suspend_pci,
  stopped, vm_stopped, or_defer, resume_one_usb, resume_usb, resume_one_pci, resume_pci, reconcile,
}
use ghaf_device_manager.Invariant.{IsMild, Closed}
use ghaf_device_manager.Invariant.Steps.{
  Keeps-look, Keeps-notify, Keeps-update, Keeps-save, Keeps-fields,
}
use ghaf_device_manager.Invariant.Commands.{Keeps-usb_list, Keeps-usb_detach}
use ghaf_device_manager.Invariant.Detach.{Keeps-detach_one_usb}
use ghaf_device_manager.Invariant.Usb.{Keeps-attach_one_usb}
use ghaf_device_manager.Invariant.Pci.{
  Keeps-pci_devices, Keeps-usb_devices, Keeps-aggregate, Keeps-selected_usb, Keeps-attach_one_pci,
  Keeps-detach_one_pci,
}
use ghaf_device_manager.Invariant.Gate.{Keeps-apply_usb_gate, Keeps-deauthorize_unmatched_usb}

module _ ⦃d : Setup⦄ where
  Values-remove_some :
      {Q : String → Type 0} (node : Option String) (vms : Dict String)
      → Values Q vms
      → Values Q (remove_some node vms)
  Values-remove_some none vms h = h
  Values-remove_some (some node) vms h = Values-remove vms node h

  forget_unplugged-IsMild :
      (key : String) (node : Option String) → IsMild (forget_unplugged key node)
  forget_unplugged-IsMild key node = record {
    usb = λ s h. Values-remove_some node s.usb_vms h;
    pci = λ s h. h;
  }

  forget_address-IsMild : (key : String) → IsMild (forget_address key)
  forget_address-IsMild key = record { usb = λ s h. h; pci = λ s h. Values-remove s.pci_vms key h }

module _ ⦃d : Setup⦄ {Target : Vm → Type 0} {P : Machine → Type 0} (c : Closed Target P) where
  Keeps-free_port : (b : UsbPortBinding) → Keeps P (free_port b)
  unfolding free_port detach_bound
  Keeps-free_port b = Keeps-bind_lift (vm d.config b.vm) _ λ v found.
      Keeps-bind _ _ (Keeps-look c _) λ same. Keeps-when same _ (
        Keeps-bind _ _ (Keeps-usb_list c v (b.vm, found))
          λ live. Keeps-when _ _ (Keeps-usb_detach c v (b.vm, found) b.port))

  Keeps-forget_usb_device :
      (key : String) (device : UsbDevice) → Keeps P (forget_usb_device key device)
  unfolding forget_usb_device
  Keeps-forget_usb_device key device = Keeps-then _ _ (Keeps-notify c _) (
      Keeps-then _ _ (Keeps-update c _ (forget_unplugged-IsMild key device.device_node))
        (Keeps-then _ _ (Keeps-save c) (Keeps-fields c _ (λ t. (refl, refl)))))

  Keeps-unplugged_usb :
      (usb : Dict UsbDevice) (p : String × UsbDevice) → Keeps P (unplugged_usb usb p)
  unfolding unplugged_usb
  Keeps-unplugged_usb usb (key, device) = Keeps-when _ _ (
      Keeps-bind _ _ (Keeps-gets _) λ binding.
        Keeps-then _ _ (Keeps-on_option binding _ _ (Keeps-pure tt) Keeps-free_port)
          (Keeps-forget_usb_device key device))

  Keeps-observe_usb : (usb : Dict UsbDevice) → Keeps P (observe_usb usb)
  unfolding observe_usb plugged_usb
  Keeps-observe_usb usb = Keeps-bind _ _ (Keeps-gets _) λ observed.
      Keeps-then _ _ (Keeps-each _ _ λ p. Keeps-when _ _ (Keeps-notify c _)) (
        Keeps-then _ _ (Keeps-each _ _ (Keeps-unplugged_usb usb))
          (Keeps-fields c _ (λ t. (refl, refl))))

  Keeps-unplugged_pci :
      (pci : Dict PciDevice) (p : String × PciDevice) → Keeps P (unplugged_pci pci p)
  unfolding unplugged_pci
  Keeps-unplugged_pci pci (key, device) =
      Keeps-when _ _
        (Keeps-then _ _ (Keeps-notify c _) (Keeps-update c _ (forget_address-IsMild key)))

  Keeps-observe_pci : (pci : Dict PciDevice) → Keeps P (observe_pci pci)
  unfolding observe_pci plugged_pci
  Keeps-observe_pci pci = Keeps-bind _ _ (Keeps-gets _) λ observed.
      Keeps-then _ _ (Keeps-each _ _ λ p. Keeps-when _ _ (Keeps-notify c _)) (
        Keeps-then _ _ (Keeps-each _ _ (Keeps-unplugged_pci pci))
          (Keeps-fields c _ (λ t. (refl, refl))))

  pub Keeps-observe : Keeps P observe
  unfolding observe
  Keeps-observe = Keeps-bind _ _ (Keeps-usb_devices c) λ usb.
      Keeps-bind _ _ (Keeps-pci_devices c)
        λ pci. Keeps-then _ _ (Keeps-observe_usb _) (Keeps-observe_pci _)

  Keeps-collected :
      {A : Type 0} (name : A → String) (xs : List A) (f : A → M (Unit {0}))
      → ((x : A) → Keeps P (f x))
      → Keeps P (each_failing name xs f >>= aggregate)
  Keeps-collected name xs f k = Keeps-bind _ _ (Keeps-each_failing name xs f k) (Keeps-aggregate c)

  Keeps-one_more :
      (m : M (Unit {0})) (others : M (List String))
      (f : Result (Unit {0}) → List String → List String)
      → Keeps P m
      → Keeps P others
      → Keeps P (attempt m >>= λ r. others >>= λ rest. pure (f r rest))
  Keeps-one_more m others f k ks =
      Keeps-bind _ _ (Keeps-attempt m k) λ r. Keeps-bind _ _ ks λ rest. Keeps-pure _

  Keeps-suspend_one_usb : (w : Option String) (p : UsbMatch) → Keeps P (suspend_one_usb w p)
  unfolding suspend_one_usb
  Keeps-suspend_one_usb w (device, rule) =
      Keeps-bind _ _ (Keeps-gets _) λ attached. Keeps-when _ _ (Keeps-detach_one_usb c device false)

  pub Keeps-suspend_usb : (w : Option String) → Keeps P (suspend_usb w)
  unfolding suspend_usb
  Keeps-suspend_usb w =
      Keeps-bind _ _ (Keeps-usb_devices c) λ ds. Keeps-collected _ _ _ (Keeps-suspend_one_usb w)

  Keeps-suspend_one_pci : (w : Option String) (p : PciMatch) → Keeps P (suspend_one_pci w p)
  unfolding suspend_one_pci
  Keeps-suspend_one_pci w (device, rule) =
      Keeps-bind _ _ (Keeps-gets _)
        λ attached. Keeps-when _ _ (Keeps-detach_one_pci c device rule false)

  pub Keeps-suspend_pci : (w : Option String) → Keeps P (suspend_pci w)
  unfolding suspend_pci
  Keeps-suspend_pci w =
      Keeps-bind _ _ (Keeps-pci_devices c) λ ds. Keeps-collected _ _ _ (Keeps-suspend_one_pci w)

  Keeps-stopped : (r : Result Vm) → Keeps P (stopped r)
  unfolding stopped
  Keeps-stopped (ok v) = Keeps-look c _
  Keeps-stopped (err e) = Keeps-pure false

  Keeps-vm_stopped : (name : Option String) → Keeps P (vm_stopped name)
  unfolding vm_stopped
  Keeps-vm_stopped none = Keeps-pure false
  Keeps-vm_stopped (some name) = Keeps-stopped _

  Keeps-set_deferred : (b : Bool) → Keeps P (modify (set_deferred b))
  Keeps-set_deferred b = Keeps-fields c (set_deferred b) (λ t. (refl, refl))

  Keeps-or_defer : (t : Option String) (r : Result (Unit {0})) → Keeps P (or_defer t r)
  unfolding or_defer
  Keeps-or_defer t (ok u) = Keeps-pure u
  Keeps-or_defer t (err e) = Keeps-bind _ _ (Keeps-vm_stopped t) λ absent.
      Keeps-if absent (modify (set_deferred true)) (lift (err e)) (Keeps-set_deferred true)
        (Keeps-lift (err e))

  Keeps-resume_one_pci : (w : Option String) (p : PciMatch) → Keeps P (resume_one_pci w p)
  unfolding resume_one_pci
  Keeps-resume_one_pci w (device, rule) = Keeps-bind _ _ (Keeps-gets _) λ marked.
      Keeps-when _ _
        (Keeps-bind _ _ (Keeps-attempt _ (Keeps-attach_one_pci c device rule _)) (Keeps-or_defer _))

  pub Keeps-resume_pci : (w : Option String) → Keeps P (resume_pci w)
  unfolding resume_pci
  Keeps-resume_pci w =
      Keeps-bind _ _ (Keeps-pci_devices c) λ ds. Keeps-collected _ _ _ (Keeps-resume_one_pci w)

  pub Keeps-detach_usb : (s : Selector) (b : Bool) → Keeps P (detach_usb s b)
  unfolding detach_usb
  Keeps-detach_usb s b =
      Keeps-bind _ _ (Keeps-selected_usb c s)
        λ ds. Keeps-collected _ _ _ (λ p. Keeps-detach_one_usb c p.0 b)

  -- Every configured VM is a target.
  module _ (targets : (v : Vm) → Target v) where
    Keeps-resume_one_usb : (w : Option String) (p : UsbMatch) → Keeps P (resume_one_usb w p)
    unfolding resume_one_usb
    Keeps-resume_one_usb w (device, rule) = Keeps-bind _ _ (Keeps-gets _) λ marked.
        Keeps-bind _ _ (Keeps-gets _) λ target.
          let attached = Keeps-attach_one_usb c device rule (λ v _. targets v) target in
          Keeps-when _ _ (Keeps-bind _ _ (Keeps-attempt _ attached) (Keeps-or_defer target))

    pub Keeps-resume_usb : (w : Option String) → Keeps P (resume_usb w)
    unfolding resume_usb
    Keeps-resume_usb w =
        Keeps-bind _ _ (Keeps-usb_devices c) λ ds. Keeps-collected _ _ _ (Keeps-resume_one_usb w)

    pub Keeps-attach_usb : (s : Selector) (vm : Option String) → Keeps P (attach_usb s vm)
    unfolding attach_usb
    Keeps-attach_usb s vm =
        Keeps-bind _ _ (Keeps-selected_usb c s)
          λ ds. Keeps-collected _ _ _ (λ p. Keeps-attach_one_usb c p.0 p.1 (λ v _. targets v) vm)

    pub Keeps-reconcile : Keeps P reconcile
    unfolding reconcile each_failing
    Keeps-reconcile = Keeps-then _ _ (Keeps-set_deferred false) (
        Keeps-then _ _ (Keeps-warned _ (Keeps-apply_usb_gate c)) (
          Keeps-then _ _ (Keeps-observe) (
            Keeps-bind _ _
              (Keeps-one_more _ _ _ (Keeps-resume_pci none) (
                Keeps-one_more _ _ _ (Keeps-resume_usb none)
                  (Keeps-one_more _ _ _ (Keeps-deauthorize_unmatched_usb c) (Keeps-pure []))))
              (Keeps-aggregate c))))
