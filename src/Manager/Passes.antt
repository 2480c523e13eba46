-- ===== src/Manager/Passes.antt =====
-- src/manager.rs: suspend, resume and the parts that `reconcile` runs.
pub mod Resume
use ghaf_device_manager.Base.{
  String, Bool, true, false, not, ◌&&◌, Option, none, some, List, [], ◌∷◌, ◌=s◌, if◌then◌else◌,
  is_some_and, is_none_or, unwrap_or, filter, ◌<|>◌,
}
use ghaf_device_manager.Base.Outcome.{Result, ok, err}
use ghaf_device_manager.Base.Dict
use ghaf_device_manager.Device.{UsbDevice, PciDevice, persistent_id, pci_persistent_id}
use ghaf_device_manager.Config.Types.{RuleMatch, Vm}
use ghaf_device_manager.Config.Vms.{vm}
use ghaf_device_manager.State.{State, disconnected}
use ghaf_device_manager.Machine.{Setup, Machine}
use ghaf_device_manager.Machine.Monad.{
  M, pure, lift, gets, modify, ◌>>=◌, ◌>>◌, attempt, warned, when, each_failing, look,
}
use ghaf_device_manager.Manager.Select.{aggregate, usb_devices, pci_devices}
use ghaf_device_manager.Manager.Detach.{detach_one_usb}
use ghaf_device_manager.Manager.Attach.{attach_one_usb}
use ghaf_device_manager.Manager.Pci.{attach_one_pci, detach_one_pci}
use ghaf_device_manager.Manager.Gate.{apply_usb_gate, deauthorize_unmatched_usb}
use ghaf_device_manager.Manager.Observe.{observe}

abbrev pub UsbMatch : Type 0
UsbMatch = UsbDevice × RuleMatch

abbrev pub PciMatch : Type 0
PciMatch = PciDevice × RuleMatch

-- The VM that holds a device is in the scope of a request: the named VM, or any.
unfoldable pub in_scope : Option String → Option String → Bool
in_scope wanted attached = is_some_and attached (λ name. is_none_or wanted (λ w. w =s name))

-- `match (vm, target)`: a request for every VM takes devices without a target too.
unfoldable pub resume_scope : Option String → Option String → Bool
resume_scope none target = true
resume_scope (some wanted) none = false
resume_scope (some wanted) (some name) = wanted =s name

abbrev pub set_deferred : Bool → Machine → Machine
set_deferred b s = record s { deferred = b }

module _ ⦃d : Setup⦄ where
  unfoldable pub suspend_one_usb : Option String → UsbMatch → M (Unit {0})
  suspend_one_usb wanted (device, rule) = do
    attached ← gets (λ s. Dict.get s.state.usb_vms (unwrap_or device.device_node ""))
    when (in_scope wanted attached) (detach_one_usb device false)

  unfoldable pub suspend_usb : Option String → M (Unit {0})
  suspend_usb wanted = do
    devices ← usb_devices
    failures ←
        each_failing (λ (p : UsbMatch). p.0.sys_name)
          (filter (λ (p : UsbMatch). not (p.1.skip_on_suspend)) devices) (suspend_one_usb wanted)
    aggregate failures

  unfoldable pub suspend_one_pci : Option String → PciMatch → M (Unit {0})
  suspend_one_pci wanted (device, rule) = do
    attached ← gets (λ s. Dict.get s.state.pci_vms device.address)
    when (in_scope wanted attached) (detach_one_pci device rule false)

  unfoldable pub suspend_pci : Option String → M (Unit {0})
  suspend_pci wanted = do
    devices ← pci_devices
    failures ←
        each_failing (λ (p : PciMatch). p.0.address)
          (filter (λ (p : PciMatch). not (p.1.skip_on_suspend)) devices) (suspend_one_pci wanted)
    aggregate failures

  unfoldable pub stopped : Result Vm → M Bool
  stopped (err e) = pure false
  stopped (ok v) = look (λ f. not (f.exists v.socket))

  unfoldable pub vm_stopped : Option String → M Bool
  vm_stopped none = pure false
  vm_stopped (some name) = stopped (vm d.config name)

  -- A failed attach to a VM that is not running is put off.
  unfoldable pub or_defer : Option String → Result (Unit {0}) → M (Unit {0})
  or_defer target (ok u) = pure u
  or_defer target (err e) = do
    absent ← vm_stopped target
    if absent then modify (set_deferred true) else lift (err e)

  unfoldable pub resume_one_usb : Option String → UsbMatch → M (Unit {0})
  resume_one_usb wanted (device, rule) = do
    marked ← gets (λ s. disconnected s.state (persistent_id device))
    target ←
        gets
          (λ s. rule.target_vm <|> Dict.get s.state.persistent.selected_vms (persistent_id device))
    when (not marked && resume_scope wanted target)
        (do outcome ← attempt (attach_one_usb device rule target); or_defer target outcome)

  unfoldable pub resume_usb : Option String → M (Unit {0})
  resume_usb wanted = do
    devices ← usb_devices
    failures ← each_failing (λ (p : UsbMatch). p.0.sys_name) devices (resume_one_usb wanted)
    aggregate failures

  unfoldable pub resume_one_pci : Option String → PciMatch → M (Unit {0})
  resume_one_pci wanted (device, rule) = do
    marked ← gets (λ s. disconnected s.state (pci_persistent_id device))
    when (not marked && in_scope wanted rule.target_vm) (do
      outcome ← attempt (attach_one_pci device rule rule.target_vm)
      or_defer rule.target_vm outcome)

  unfoldable pub resume_pci : Option String → M (Unit {0})
  resume_pci wanted = do
    devices ← pci_devices
    failures ← each_failing (λ (p : PciMatch). p.0.address) devices (resume_one_pci wanted)
    aggregate failures

  -- The steps of a pass whose failures are collected, under the names that the message has.
  abbrev pub pass_steps : List (String × M (Unit {0}))
  pass_steps =
      ("PCI", resume_pci none)
      ∷ ("USB", resume_usb none)
      ∷ ("USB authorization", deauthorize_unmatched_usb)
      ∷ []

  unfoldable pub reconcile : M (Unit {0})
  reconcile = do
    modify (set_deferred false)
    warned apply_usb_gate
    observe
    failures ← each_failing (λ (p : String × M (Unit {0})). p.0) pass_steps (λ p. p.1)
    aggregate failures
