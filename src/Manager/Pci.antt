-- ===== src/Manager/Pci.antt =====
-- src/manager.rs: attaching and detaching PCI devices.
pub mod Groups
pub mod Bound
pub mod Quarantine
use ghaf_device_manager.Base.{
  ℕ, String, Bool, true, false, not, ◌&&◌, Option, none, some, List, [], ◌∷◌, ◌=s◌, ◌<>◌,
  if◌then◌else◌, ltb, is_text, is_empty, length, any, contains, unwrap_or, ◌<|>◌,
}
use ghaf_device_manager.Base.Outcome.{Result, ok, err, said, or_error}
use ghaf_device_manager.Base.Dict
use ghaf_device_manager.Base.Dict.{Dict}
use ghaf_device_manager.Device.{PciDevice, pci_persistent_id}
use ghaf_device_manager.Crosvm.Vfio.{iommu_group, bind_vfio}
use ghaf_device_manager.Crosvm.Commands.{pci_path, vfio_list, vfio_add, vfio_remove}
use ghaf_device_manager.Config.Types.{RuleMatch, Vm}
use ghaf_device_manager.Config.Vms.{vm}
use ghaf_device_manager.State.{State}
use ghaf_device_manager.Machine.{Setup, Machine, pci_attached, pci_detached}
use ghaf_device_manager.Machine.Monad.{
  M, pure, bail, lift, gets, modify, ◌>>=◌, ◌>>◌, in_context, when, on_option, each, each_failing,
  look, query, notify,
}
use ghaf_device_manager.Manager.Store.{set_disconnected, update_state}
use ghaf_device_manager.Manager.Select.{Selector, selected_pci, aggregate}

abbrev pub insert_all : List String → String → Dict String → Dict String
insert_all [] vm_name vms = vms
insert_all (address ∷ rest) vm_name vms = insert_all rest vm_name (Dict.insert vms address vm_name)

abbrev pub remove_all : List String → Dict String → Dict String
remove_all [] vms = vms
remove_all (address ∷ rest) vms = remove_all rest (Dict.remove vms address)

abbrev pub hold_pci : List String → String → State → State
hold_pci addresses vm_name s = record s { pci_vms = insert_all addresses vm_name s.pci_vms }

abbrev pub forget_pci : List String → State → State
forget_pci addresses s = record s { pci_vms = remove_all addresses s.pci_vms }

-- The devices that must all leave their host drivers.
abbrev pub quarantine_of : PciDevice → List String → List String
quarantine_of device group = if is_empty group then device.address ∷ [] else group

-- Those of them that the VM gets.
abbrev pub attach_set : PciDevice → RuleMatch → List String → List String
attach_set device rule group =
    if rule.iommu_add_all then quarantine_of device group else device.address ∷ []

abbrev pub detach_set : PciDevice → RuleMatch → List String → List String
detach_set device rule group =
    if rule.iommu_add_all && not (is_empty group) then group else device.address ∷ []

module _ ⦃d : Setup⦄ where
  -- True if one of the devices was not in the VM before.
  unfoldable pub add_missing : Vm → List String → List String → M Bool
  add_missing v live [] = pure false
  add_missing v live (address ∷ rest) =
      let others = add_missing v live rest in
      if contains live (pci_path address) then others else (do
        in_context
            ("failed to attach "
              <> (address <> "; its IOMMU group remains quarantined under vfio-pci"))
            (vfio_add v.socket address)
        others
        pure true)

  unfoldable pub quarantine : PciDevice → RuleMatch → M (List String)
  quarantine device rule = do
    group ← query (λ f. iommu_group f device.address d.pci_root)
    if rule.iommu_skip_if_shared && ltb 1 (length group)
        then bail ("IOMMU group for " <> (device.address <> " is shared"))
        else (do
          each (quarantine_of device group) (λ address. bind_vfio address d.pci_root)
          pure group)

  unfoldable pub attach_group : PciDevice → Vm → List String → List String → M (Unit {0})
  attach_group device v live attach = do
    moved ←
        gets (λ s. any (λ address. not (is_text (Dict.get s.state.pci_vms address) v.name)) attach)
    added ← add_missing v live attach
    modify (update_state (hold_pci attach v.name))
    set_disconnected (pci_persistent_id device) false
    when (if moved then true else added) (notify (pci_attached device v.name))

  unfoldable pub attach_pci_to : PciDevice → RuleMatch → Vm → M (Unit {0})
  attach_pci_to device rule v = do
    live ← in_context "VFIO hotplug preflight failed" (vfio_list v.socket)
    group ← quarantine device rule
    attach_group device v live (attach_set device rule group)

  unfoldable pub attach_one_pci : PciDevice → RuleMatch → Option String → M (Unit {0})
  attach_one_pci device rule requested = do
    target ← lift (or_error (said "PCI rule has no targetVm") rule.target_vm)
    let vm_name = unwrap_or requested target
    if not (vm_name =s target)
        then bail ("VM " <> (vm_name <> (" is not allowed for PCI device " <> device.address)))
        else (do v ← lift (vm d.config vm_name); attach_pci_to device rule v)

  unfoldable pub attach_pci : Selector → Option String → M (Unit {0})
  attach_pci selector requested = do
    devices ← selected_pci selector
    failures ←
        each_failing (λ (p : PciDevice × RuleMatch). p.0.address) devices
          (λ p. attach_one_pci p.0 p.1 requested)
    aggregate failures

  unfoldable pub detach_pci_from : PciDevice → RuleMatch → String → M (Unit {0})
  detach_pci_from device rule vm_name = do
    v ← lift (vm d.config vm_name)
    group ← query (λ f. iommu_group f device.address d.pci_root)
    present ← look (λ f. f.exists v.socket)
    when present (each (detach_set device rule group) (vfio_remove v.socket))
    modify (update_state (forget_pci (detach_set device rule group)))
    notify (pci_detached device vm_name)

  unfoldable pub detach_one_pci : PciDevice → RuleMatch → Bool → M (Unit {0})
  detach_one_pci device rule permanent = do
    vm_name ← gets (λ s. Dict.get s.state.pci_vms device.address <|> rule.target_vm)
    on_option vm_name (pure tt) (detach_pci_from device rule)
    set_disconnected (pci_persistent_id device) permanent

  unfoldable pub detach_pci : Selector → Bool → M (Unit {0})
  detach_pci selector permanent = do
    devices ← selected_pci selector
    failures ←
        each_failing (λ (p : PciDevice × RuleMatch). p.0.address) devices
          (λ p. detach_one_pci p.0 p.1 permanent)
    aggregate failures
