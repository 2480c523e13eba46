-- ===== src/Invariant/Pci.antt =====
-- Attaching and detaching PCI devices keeps a closed invariant.
use ghaf_device_manager.Base.{String, Bool, true, ◌∙◌, ap, Option, List, [], ◌∷◌, contains}
use ghaf_device_manager.Base.Dict
use ghaf_device_manager.Base.Dict.{Dict, Values, Values-insert, Values-remove}
use ghaf_device_manager.Device.{PciDevice}
use ghaf_device_manager.Config.Types.{Vm, RuleMatch}
use ghaf_device_manager.Config.Vms.{vm}
use ghaf_device_manager.Machine.{Setup, Machine}
use ghaf_device_manager.Machine.Monad.{bail}
use ghaf_device_manager.Machine.Rules.{
  Keeps, Keeps-bind, Keeps-bind_lift, Keeps-if, Keeps-pure, Keeps-bail, Keeps-in_context,
  Keeps-lift, Keeps-on_option, Keeps-then, Keeps-gets, Keeps-when, Keeps-each, keeps_rules,
}
use ghaf_device_manager.Crosvm.Commands.{pci_path}
use ghaf_device_manager.Manager.Select.{
  is_shared, pci_matching, pci_devices, selected_pci, aggregate, scan, usb_devices, selected_usb,
  Selector,
}
use ghaf_device_manager.Manager.Pci.{
  insert_all, remove_all, hold_pci, forget_pci, detach_set, add_missing, quarantine, attach_group,
  attach_pci_to, attach_one_pci, attach_pci, detach_pci_from, detach_one_pci, detach_pci,
}
use ghaf_device_manager.Invariant.{IsVm, IsMild, Closed, vm-name}
use ghaf_device_manager.Invariant.Steps.{
  step_rules, Keeps-update, Keeps-look, Keeps-query, Keeps-notify, Keeps-set_disconnected,
}
use ghaf_device_manager.Invariant.Commands.{Keeps-vfio_list, Keeps-vfio_add, Keeps-vfio_remove}

Values-insert_all :
    {Q : String → Type 0} (addresses : List String) (name : String) (vms : Dict String)
    → Q name
    → Values Q vms
    → Values Q (insert_all addresses name vms)
Values-insert_all [] name vms q h = h
Values-insert_all (a ∷ rest) name vms q h =
    Values-insert_all rest name (Dict.insert vms a name) q (Values-insert vms a name q h)

Values-remove_all :
    {Q : String → Type 0} (addresses : List String) (vms : Dict String)
    → Values Q vms
    → Values Q (remove_all addresses vms)
Values-remove_all [] vms h = h
Values-remove_all (a ∷ rest) vms h =
    Values-remove_all rest (Dict.remove vms a) (Values-remove vms a h)

module _ ⦃d : Setup⦄ where
  hold_pci-IsMild : (addresses : List String) (v : Vm) → IsVm v → IsMild (hold_pci addresses v.name)
  hold_pci-IsMild addresses v (name, e) = record {
    usb = λ s h. h;
    pci = λ s h.
        Values-insert_all addresses v.name s.pci_vms
          (v, ap (vm d.config) (vm-name d.config name v e) ∙ e) h;
  }

  forget_pci-IsMild : (addresses : List String) → IsMild (forget_pci addresses)
  forget_pci-IsMild addresses = record {
    usb = λ s h. h;
    pci = λ s h. Values-remove_all addresses s.pci_vms h;
  }

module _ ⦃d : Setup⦄ {Target : Vm → Type 0} {P : Machine → Type 0} (c : Closed Target P) where
  Keeps-is_shared : (device : PciDevice) (r : RuleMatch) → Keeps P (is_shared device r)
  unfolding is_shared
  Keeps-is_shared device r = search step_rules

  Keeps-pci_matching : (devices : List PciDevice) → Keeps P (pci_matching devices)
  unfolding pci_matching
  Keeps-pci_matching [] = search keeps_rules
  Keeps-pci_matching (device ∷ rest) =
      let others = Keeps-pci_matching rest in
      Keeps-on_option _ _ _ others λ r.
        Keeps-bind _ _ (Keeps-is_shared device r)
          λ shared. Keeps-bind _ _ others λ found. Keeps-pure _

  pub Keeps-pci_devices : Keeps P pci_devices
  unfolding pci_devices
  Keeps-pci_devices = search (step_rules, Keeps-pci_matching)

  pub Keeps-scan : Keeps P scan
  unfolding scan
  Keeps-scan = search step_rules

  pub Keeps-usb_devices : Keeps P usb_devices
  unfolding usb_devices
  Keeps-usb_devices = search (keeps_rules, Keeps-scan)

  pub Keeps-aggregate : (failures : List String) → Keeps P (aggregate failures)
  unfolding aggregate
  Keeps-aggregate failures = search keeps_rules

  pub Keeps-selected_usb : (s : Selector) → Keeps P (selected_usb s)
  unfolding selected_usb
  Keeps-selected_usb s = search (keeps_rules, Keeps-usb_devices)

  pub Keeps-selected_pci : (s : Selector) → Keeps P (selected_pci s)
  unfolding selected_pci
  Keeps-selected_pci s = search (keeps_rules, Keeps-pci_devices)

  Keeps-quarantine : (device : PciDevice) (r : RuleMatch) → Keeps P (quarantine device r)
  unfolding quarantine
  Keeps-quarantine device r = search step_rules depth 7

  module _ (v : Vm) (known : IsVm v) where
    Keeps-add_missing : (live addresses : List String) → Keeps P (add_missing v live addresses)
    unfolding add_missing
    Keeps-add_missing live [] = search keeps_rules
    Keeps-add_missing live (address ∷ rest) =
        let others = Keeps-add_missing live rest in
        let added = Keeps-in_context _ _ (Keeps-vfio_add c v known address) in
        Keeps-if (contains live (pci_path address)) (add_missing v live rest) _ others
          (Keeps-then _ _ added (Keeps-then _ _ others (Keeps-pure true)))

    Keeps-attach_group :
        (device : PciDevice) (live attach : List String)
        → Keeps P (attach_group device v live attach)
    unfolding attach_group
    Keeps-attach_group device live attach = Keeps-bind _ _ (Keeps-gets _) λ moved.
        Keeps-bind _ _ (Keeps-add_missing live attach) λ added.
          Keeps-then _ _ (Keeps-update c _ (hold_pci-IsMild attach v known))
            (Keeps-then _ _ (Keeps-set_disconnected c _ _) (Keeps-when _ _ (Keeps-notify c _)))

    Keeps-attach_pci_to : (device : PciDevice) (r : RuleMatch) → Keeps P (attach_pci_to device r v)
    unfolding attach_pci_to
    Keeps-attach_pci_to device r =
        Keeps-bind _ _ (Keeps-in_context _ _ (Keeps-vfio_list c v known)) λ live.
          Keeps-bind _ _ (Keeps-quarantine device r) λ group. Keeps-attach_group device live _

  pub Keeps-attach_one_pci :
      (device : PciDevice) (r : RuleMatch) (requested : Option String)
      → Keeps P (attach_one_pci device r requested)
  unfolding attach_one_pci
  Keeps-attach_one_pci device r requested = Keeps-bind _ _ (Keeps-lift _) λ target.
      Keeps-if _ (bail _) _ (Keeps-bail _)
        (Keeps-bind_lift (vm d.config _) _ λ v found. Keeps-attach_pci_to v (_, found) device r)

  Keeps-detach_pci_from :
      (device : PciDevice) (r : RuleMatch) (name : String) → Keeps P (detach_pci_from device r name)
  unfolding detach_pci_from
  Keeps-detach_pci_from device r name = Keeps-bind_lift (vm d.config name) _ λ v found.
      Keeps-bind _ _ (Keeps-query c _) λ group. Keeps-bind _ _ (Keeps-look c _) λ present.
        let removed = Keeps-each _ _ (Keeps-vfio_remove c v (name, found)) in
        Keeps-then _ _ (Keeps-when _ _ removed) (
          Keeps-then _ _ (Keeps-update c _ (forget_pci-IsMild (detach_set device r group)))
            (Keeps-notify c _))

  pub Keeps-detach_one_pci :
      (device : PciDevice) (r : RuleMatch) (b : Bool) → Keeps P (detach_one_pci device r b)
  unfolding detach_one_pci
  Keeps-detach_one_pci device r b = search (step_rules, Keeps-detach_pci_from) depth 7

  pub Keeps-attach_pci :
      (s : Selector) (requested : Option String) → Keeps P (attach_pci s requested)
  unfolding attach_pci
  Keeps-attach_pci s requested =
      search (keeps_rules, Keeps-selected_pci, Keeps-attach_one_pci, Keeps-aggregate) depth 7

  pub Keeps-detach_pci : (s : Selector) (b : Bool) → Keeps P (detach_pci s b)
  unfolding detach_pci
  Keeps-detach_pci s b =
      search (keeps_rules, Keeps-selected_pci, Keeps-detach_one_pci, Keeps-aggregate) depth 7
