-- ===== src/Manager/Attach.antt =====
-- src/manager.rs: `attach_one_usb` and `attach_usb`.
pub mod Guard
pub mod Records
use ghaf_device_manager.Base.{
  ℕ, String, Bool, true, false, not, ◌&&◌, ◌||◌, Option, none, some, List, [], ◌∷◌, ◌==◌, ◌=s◌,
  ◌<>◌, ◌/s◌, if◌then◌else◌, is_some, is_none, is_text, same_text, is_some_and, keep_if, find,
  filter, any, contains, ◌<|>◌, parent,
}
use ghaf_device_manager.Base.Outcome.{Result, ok, err, said, or_error}
use ghaf_device_manager.Base.Dict
use ghaf_device_manager.Json.{and_then}
use ghaf_device_manager.Files.{Files}
use ghaf_device_manager.Device.{UsbDevice, persistent_id, is_hub}
use ghaf_device_manager.Config.Types.{RuleMatch, Vm}
use ghaf_device_manager.Config.Vms.{vm}
use ghaf_device_manager.Config.Pci.{allowed_vms}
use ghaf_device_manager.State.{State, UsbPortBinding}
use ghaf_device_manager.UsbGate.{
  autoprobe_attribute, claim, hub, authorization, authorize, driver, interfaces, probe, release,
}
use ghaf_device_manager.Crosvm.Replies.{UsbEntry}
use ghaf_device_manager.Crosvm.Commands.{usb_list, usb_attach, usb_detach}
use ghaf_device_manager.Machine.{Setup, Machine, usb_attached, usb_select_vm}
use ghaf_device_manager.Machine.Monad.{
  M, pure, bail, lift, gets, modify, ◌>>=◌, ◌>>◌, in_context, warned, when, on_option, each_failing,
  look, query, notify,
}
use ghaf_device_manager.Manager.Store.{save, set_disconnected, select_vm, update_state}
use ghaf_device_manager.Manager.Select.{Selector, selected_usb, aggregate}
use ghaf_device_manager.Manager.Detach.{
  generation, is_device, authorizing, forget_pending, detach_one_usb,
}
use ghaf_device_manager.Manager.Claim.{Live, Claimed, insert_set, read_live, claim_under_guard}

-- The one VM of a list that has one.
abbrev pub only : List String → Option String
only (name ∷ []) = some name
only _ = none

-- The VM of an attach: the requested one, the rule's, the one chosen before, or the only one.
unfoldable pub choose_vm : Option String → RuleMatch → String → State → Option String
choose_vm requested rule id s =
    requested <|> rule.target_vm <|> Dict.get s.persistent.selected_vms id <|> only rule.allowed_vms

abbrev pub add_pending : String → Machine → Machine
add_pending id s = record s { pending_usb_selection = insert_set id s.pending_usb_selection }

abbrev pub port_binding : UsbDevice → String → Claimed → UsbPortBinding
port_binding device vm_name c = record {
  vm = vm_name;
  port = c.port;
  socket_generation = c.socket_generation;
  vid = device.vid;
  pid = device.pid;
  serial = device.serial;
}

abbrev pub with_vm : String → String → State → State
with_vm node vm_name s = record s { usb_vms = Dict.insert s.usb_vms node vm_name }

abbrev pub with_port : String → UsbPortBinding → State → State
with_port sys_name b s = record s {
  persistent = record s.persistent {
    crosvm_usb_ports = Dict.insert s.persistent.crosvm_usb_ports sys_name b;
  };
}

abbrev pub is_committed : Result (Option Claimed) → Bool
is_committed (ok (some c)) = true
is_committed (ok none) = false
is_committed (err e) = false

module _ ⦃d : Setup⦄ where
  unfoldable pub ask_for_vm : UsbDevice → RuleMatch → M (Unit {0})
  ask_for_vm device rule = do
    known ← gets (λ s. contains s.pending_usb_selection (persistent_id device))
    modify (add_pending (persistent_id device))
    when (not known) (notify (usb_select_vm device rule.allowed_vms))

  -- Taken before the authorization changes, but only under the authorization policy.
  unfoldable pub preflight : UsbDevice → Vm → M (Option Live)
  preflight device v =
      if authorizing && not (is_hub device)
      then (do live ← read_live v; pure (some live))
      else pure none

  -- Whether the guard is to authorize, and so to roll back.
  unfoldable pub is_armed : UsbDevice → M Bool
  is_armed device =
      if authorizing && not (is_hub device)
      then (do
        status ← look (λ f. authorization f d.usb_root device.sys_name)
        pure (not (is_some_and status (λ b. b))))
      else pure false

  -- `UsbAuthorizationGuard`: dropped armed, it takes the authorization back.
  unfoldable pub roll_back : Bool → UsbDevice → M (Option Claimed) → M (Option Claimed)
  roll_back armed device m s =
      let (r, s') = m s in
      (
        r,
        (when (armed && not (is_committed r)) (warned (authorize d.usb_root device.sys_name false))
            s').1,
      )

  unfoldable pub guarded : UsbDevice → M (Option Claimed) → M (Option Claimed)
  guarded device m = do
    armed ← is_armed device
    roll_back armed device (do
      when armed (
          in_context ("cannot authorize " <> device.sys_name)
            (authorize d.usb_root device.sys_name true))
      m)

  unfoldable pub record_attachment : UsbDevice → String → Vm → Claimed → M (Unit {0})
  record_attachment device node v c = do
    modify (update_state (with_vm node v.name))
    select_vm (persistent_id device) v.name
    set_disconnected (persistent_id device) false
    modify (update_state (with_port device.sys_name (port_binding device v.name c)))
    save

  -- The part behind `commit`.
  unfoldable pub finish : UsbDevice → String → Vm → Claimed → M (Unit {0})
  finish device node v c = do
    on_option c.stale (pure tt) (usb_detach v.socket)
    record_attachment device node v c
    modify (forget_pending (persistent_id device))
    when c.changed (notify (usb_attached device v.name))

  -- The attach to a VM that the rule allows and that is there.
  unfoldable pub attach_allowed : UsbDevice → Vm → M (Unit {0})
  attach_allowed device v = do
    before ← preflight device v
    node ← lift (or_error (said "USB device has no device node") device.device_node)
    current ← gets (λ s. Dict.get s.state.usb_vms node)
    when (is_some_and current (λ name. not (name =s v.name))) (detach_one_usb device false)
    claimed ← guarded device (claim_under_guard device v node (not (is_text current v.name)) before)
    on_option claimed (pure tt) (finish device node v)

  -- `config.usb_authorization.enabled() && !vm.socket.exists()`.
  unfoldable pub is_absent : Vm → M Bool
  is_absent v = if authorizing then look (λ f. not (f.exists v.socket)) else pure false

  unfoldable pub attach_found : UsbDevice → String → Vm → M (Unit {0})
  attach_found device vm_name v = do
    absent ← is_absent v
    if absent
        then bail ("VM " <> (vm_name <> " socket is absent; deferring USB authorization"))
        else attach_allowed device v

  unfoldable pub attach_to : UsbDevice → RuleMatch → String → M (Unit {0})
  attach_to device rule vm_name =
      if not (contains (allowed_vms rule) vm_name)
      then bail ("VM " <> (vm_name <> (" is not allowed for USB device " <> device.sys_name)))
      else (do v ← lift (vm d.config vm_name); attach_found device vm_name v)

  unfoldable pub attach_one_usb : UsbDevice → RuleMatch → Option String → M (Unit {0})
  attach_one_usb device rule requested = do
    vm_name ← gets (λ s. choose_vm requested rule (persistent_id device) s.state)
    on_option vm_name (ask_for_vm device rule) (attach_to device rule)

  unfoldable pub attach_usb : Selector → Option String → M (Unit {0})
  attach_usb selector selected_vm = do
    devices ← selected_usb selector
    failures ←
        each_failing (λ (p : UsbDevice × RuleMatch). p.0.sys_name) devices
          (λ p. attach_one_usb p.0 p.1 selected_vm)
    aggregate failures
