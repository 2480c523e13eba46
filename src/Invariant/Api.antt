-- ===== src/Invariant/Api.antt =====
-- Every request of the API, and every pass of the daemon, keeps a closed invariant.
use ghaf_device_manager.Base.{
  String, Bool, true, Option, none, some, List, [], ◌∷◌, not, ◌||◌, is_none, is_text, ◌&&◌,
}
use ghaf_device_manager.Json.{Value, str_at}
use ghaf_device_manager.Device.{PciDevice}
use ghaf_device_manager.Config.Types.{Vm, RuleMatch}
use ghaf_device_manager.Machine.{Setup, Machine}
use ghaf_device_manager.Machine.Monad.{M, pure, ◌>>=◌}
use ghaf_device_manager.Machine.Rules.{
  Keeps, Keeps-bind, Keeps-then, Keeps-if, Keeps-pure, Keeps-lift, Keeps-gets, keeps_rules,
}
use ghaf_device_manager.Protocol.{Action, ResponsePayload}
use ghaf_device_manager.Api.{handle_inner}
use ghaf_device_manager.Manager.Select.{usb_list, pci_list}
use ghaf_device_manager.Manager.Evdev.{json_enabled, scan_inputs, evdev_args}
use ghaf_device_manager.Manager.VmmArgs.{
  chown_named, acpi_table, acpi_allow, gather, acpi_rule, bind_all, vfio_devices, require_devices,
  vmm_args,
}
use ghaf_device_manager.Invariant.{Closed}
use ghaf_device_manager.Invariant.Steps.{Keeps-look, Keeps-query, Keeps-call, Keeps-bind_vfio}
use ghaf_device_manager.Invariant.Pci.{
  Keeps-pci_devices, Keeps-usb_devices, Keeps-attach_pci, Keeps-detach_pci,
}
use ghaf_device_manager.Invariant.Passes.{
  Keeps-attach_usb, Keeps-detach_usb, Keeps-suspend_usb, Keeps-suspend_pci, Keeps-resume_usb,
  Keeps-resume_pci,
}

module _ ⦃d : Setup⦄ {Target : Vm → Type 0} {P : Machine → Type 0} (c : Closed Target P) where
  Keeps-chown_named :
      (path : String) (user group : Option String) → Keeps P (chown_named path user group)
  unfolding chown_named
  Keeps-chown_named path user group =
      Keeps-if (is_none user && is_none group) (pure tt) _ (Keeps-pure tt)
        (Keeps-bind _ _ (Keeps-lift _) λ uid. Keeps-bind _ _ (Keeps-lift _) λ gid. Keeps-call c _)

  Keeps-acpi_table : (allow : Value) (table : String) → Keeps P (acpi_table allow table)
  unfolding acpi_table
  Keeps-acpi_table allow table = Keeps-bind _ _ (Keeps-look c _) λ present.
      Keeps-if present _ (pure []) (Keeps-then _ _ (Keeps-chown_named table _ _) (Keeps-pure _))
        (Keeps-pure [])

  Keeps-acpi_found :
      (allow : Value) (table : Option String)
      → Keeps {A = List String} P (elim table [ none ↦ pure [] | some t ↦ acpi_table allow t ])
  Keeps-acpi_found allow none = Keeps-pure []
  Keeps-acpi_found allow (some t) = Keeps-acpi_table allow t

  Keeps-acpi_allow : (allow : Value) → Keeps P (acpi_allow allow)
  unfolding acpi_allow
  Keeps-acpi_allow allow =
      Keeps-if (not (json_enabled allow)) (pure []) _ (Keeps-pure []) (Keeps-acpi_found allow _)

  Keeps-gather :
      {A : Type 0} (f : A → M (List String)) (xs : List A)
      → ((x : A) → Keeps P (f x))
      → Keeps P (gather f xs)
  unfolding gather
  Keeps-gather f [] k = Keeps-pure []
  Keeps-gather f (x ∷ xs) k =
      Keeps-bind _ _ (k x) λ args. Keeps-bind _ _ (Keeps-gather f xs k) λ rest. Keeps-pure _

  Keeps-acpi_rule : (name : String) (rule : Value) → Keeps P (acpi_rule name rule)
  unfolding acpi_rule
  Keeps-acpi_rule name rule =
      Keeps-if (not (json_enabled rule) || not (is_text (str_at rule "targetVm") name)) (pure []) _
        (Keeps-pure []) (Keeps-gather acpi_allow _ Keeps-acpi_allow)

  Keeps-bind_all : (addresses : List String) → Keeps P (bind_all addresses)
  unfolding bind_all
  Keeps-bind_all [] = Keeps-pure tt
  Keeps-bind_all (a ∷ rest) = Keeps-then _ _ (Keeps-bind_vfio c a d.pci_root) (Keeps-bind_all rest)

  Keeps-vfio_devices :
      (bound emitted : List String) (devices : List (PciDevice × RuleMatch))
      → Keeps P (vfio_devices bound emitted devices)
  unfolding vfio_devices
  Keeps-vfio_devices bound emitted [] = Keeps-pure []
  Keeps-vfio_devices bound emitted ((device, rule) ∷ rest) =
      Keeps-bind _ _ (Keeps-query c _) λ group.
        Keeps-then _ _ (Keeps-bind_all _)
          (Keeps-bind _ _ (Keeps-vfio_devices _ _ rest) λ others. Keeps-pure _)

  Keeps-require_devices :
      (b : Bool) (name : String) (devices : List (PciDevice × RuleMatch))
      → Keeps P (require_devices b name devices)
  unfolding require_devices
  Keeps-require_devices b name devices = search keeps_rules

  Keeps-evdev_args : (rules : List Value) (name : String) → Keeps P (evdev_args rules name)
  unfolding evdev_args scan_inputs
  Keeps-evdev_args rules name = Keeps-bind _ _ (record { at = c.at_look }) λ devices. Keeps-pure _

  Keeps-vmm_args : (name : String) (b : Bool) → Keeps P (vmm_args name b)
  unfolding vmm_args
  Keeps-vmm_args name b = Keeps-bind _ _ (Keeps-lift _) λ found.
      Keeps-bind _ _ (Keeps-pci_devices c) λ devices.
        Keeps-then _ _ (Keeps-require_devices b name _) (
          Keeps-bind _ _ (Keeps-vfio_devices _ _ _) λ vfio.
            Keeps-bind _ _ (Keeps-gather _ _ (Keeps-acpi_rule name))
              λ acpi. Keeps-bind _ _ (Keeps-evdev_args _ name) λ inputs. Keeps-pure _)

  Keeps-usb_list : (w : Option Bool) (tag : Option String) → Keeps P (usb_list w tag)
  unfolding usb_list
  Keeps-usb_list w tag = Keeps-bind _ _ (Keeps-usb_devices c) λ devices. Keeps-gets _

  Keeps-pci_list : (w : Option Bool) (tag : Option String) → Keeps P (pci_list w tag)
  unfolding pci_list
  Keeps-pci_list w tag = Keeps-bind _ _ (Keeps-pci_devices c) λ devices. Keeps-gets _

  Keeps-answered :
      {A : Type 0} (m : M A) (f : A → ResponsePayload) → Keeps P m → Keeps P (m >>= λ a. pure (f a))
  Keeps-answered m f k = Keeps-bind _ _ k λ a. Keeps-pure _

  module _ (targets : (v : Vm) → Target v) where
    pub Keeps-handle_inner : (a : Action) → Keeps P (handle_inner a)
    unfolding handle_inner
    Keeps-handle_inner Action.enable_notifications = Keeps-pure _
    Keeps-handle_inner (Action.usb_list w tag) = Keeps-answered _ _ (Keeps-usb_list w tag)
    Keeps-handle_inner (Action.usb_attach s vm) =
        Keeps-answered _ _ (Keeps-attach_usb c targets _ vm)
    Keeps-handle_inner (Action.usb_detach s) = Keeps-answered _ _ (Keeps-detach_usb c _ true)
    Keeps-handle_inner (Action.usb_suspend vm) = Keeps-answered _ _ (Keeps-suspend_usb c vm)
    Keeps-handle_inner (Action.usb_resume vm) = Keeps-answered _ _ (Keeps-resume_usb c targets vm)
    Keeps-handle_inner (Action.pci_list w tag) = Keeps-answered _ _ (Keeps-pci_list w tag)
    Keeps-handle_inner (Action.pci_attach s vm) = Keeps-answered _ _ (Keeps-attach_pci c _ vm)
    Keeps-handle_inner (Action.pci_detach s) = Keeps-answered _ _ (Keeps-detach_pci c _ true)
    Keeps-handle_inner (Action.pci_suspend vm) = Keeps-answered _ _ (Keeps-suspend_pci c vm)
    Keeps-handle_inner (Action.pci_resume vm) = Keeps-answered _ _ (Keeps-resume_pci c vm)
    Keeps-handle_inner (Action.vmm_args vm prefix index b) =
        Keeps-answered _ _ (Keeps-vmm_args vm b)
