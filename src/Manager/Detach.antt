-- ===== src/Manager/Detach.antt =====
-- src/manager.rs: `detach_one_usb` and `detach_usb`.
pub mod Forgets
use ghaf_device_manager.Base.{
  ℕ, String, Bool, true, false, not, ◌&&◌, ◌||◌, Option, none, some, List, [], ◌∷◌, ◌==◌, ◌=s◌,
  ◌<>◌, if◌then◌else◌, is_some, is_text, is_some_and, unwrap_or, find, filter, decimal, ◌<|>◌,
}
use ghaf_device_manager.Base.Outcome.{Result, ok, err, said, or_error}
use ghaf_device_manager.Base.Dict
use ghaf_device_manager.Json.{and_then}
use ghaf_device_manager.Files.{Files, Metadata}
use ghaf_device_manager.Device.{UsbDevice, persistent_id, is_hub}
use ghaf_device_manager.Config.Types.{RuleMatch, Vm, authorization_enabled}
use ghaf_device_manager.Config.Vms.{vm}
use ghaf_device_manager.State.{State, UsbPortBinding}
use ghaf_device_manager.UsbGate.{authorization, authorize}
use ghaf_device_manager.Crosvm.Replies.{UsbEntry}
use ghaf_device_manager.Crosvm.Commands.{usb_list, usb_detach}
use ghaf_device_manager.Machine.{Setup, Machine, usb_detached}
use ghaf_device_manager.Machine.Monad.{
  M, pure, bail, lift, gets, modify, ◌>>=◌, ◌>>◌, attempt, warned, when, on_option, each_failing,
  look, notify,
}
use ghaf_device_manager.Manager.Store.{save, set_disconnected, update_state}
use ghaf_device_manager.Manager.Select.{Selector, selected_usb, aggregate}

-- `socket_generation(..).unwrap_or_default()`.
unfoldable pub generation : Files → String → String
generation f path = elim (f.metadata path) [
  | none ↦ ""
  | some m ↦ decimal m.dev <> (":" <> (decimal m.ino <> (":" <> decimal m.ctime_nsec)))
]

-- `Some(&item.1) == device.vid.as_ref() && Some(&item.2) == device.pid.as_ref()`.
abbrev pub is_device : UsbDevice → UsbEntry → Bool
is_device device item = is_text device.vid item.vid && is_text device.pid item.pid

abbrev pub forget_pending : String → Machine → Machine
forget_pending id s = record s {
  pending_usb_selection = filter (λ p. not (p =s id)) s.pending_usb_selection;
}

abbrev pub forget_usb : String → String → State → State
forget_usb node sys_name s = record s {
  usb_vms = Dict.remove s.usb_vms node;
  persistent = record s.persistent {
    crosvm_usb_ports = Dict.remove s.persistent.crosvm_usb_ports sys_name;
  };
}

-- The VM that holds the device, as recorded for its node or for its port.
unfoldable pub holder : UsbDevice → String → State → Option String
holder device node s =
    Dict.get s.usb_vms node
    <|> and_then (Dict.get s.persistent.crosvm_usb_ports device.sys_name)
        (λ (b : UsbPortBinding). some b.vm)

module _ ⦃d : Setup⦄ where
  abbrev pub authorizing : Bool
  authorizing = authorization_enabled d.config.usb_authorization

  -- The entry on the recorded port, if there is one, must be this device.
  unfoldable pub detach_entry : UsbDevice → Vm → UsbEntry → M (Unit {0})
  detach_entry device v item =
      if is_device device item
      then usb_detach v.socket item.port
      else bail "Crosvm USB port contains a different device; refusing to detach"

  unfoldable pub detach_port : UsbDevice → Vm → UsbPortBinding → M (Unit {0})
  detach_port device v binding = do
    live ← usb_list v.socket
    on_option (find (λ (item : UsbEntry). item.port == binding.port) live) (pure tt)
        (detach_entry device v)

  unfoldable pub detach_single : Vm → List UsbEntry → M (Unit {0})
  detach_single v (item ∷ []) = usb_detach v.socket item.port
  detach_single v [] = pure tt
  detach_single v _ =
      bail "multiple matching USB devices are attached; refusing an ambiguous detach"

  unfoldable pub detach_matching : UsbDevice → Vm → M (Unit {0})
  detach_matching device v = do
    live ← usb_list v.socket
    detach_single v (filter (is_device device) live)

  -- The binding, if it was made over the socket that is there now.
  unfoldable pub current_binding : Vm → Option UsbPortBinding → M (Option UsbPortBinding)
  current_binding v binding = on_option binding (pure none) λ b. do
    now ← look (λ f. generation f v.socket)
    pure (if b.socket_generation =s now then some b else none)

  unfoldable pub detach_live : UsbDevice → Vm → Option UsbPortBinding → M (Unit {0})
  detach_live device v binding = do
    current ← current_binding v binding
    on_option current (detach_matching device v) (detach_port device v)

  unfoldable pub detach_from : UsbDevice → String → Option UsbPortBinding → String → M (Unit {0})
  detach_from device node binding vm_name = do
    v ← lift (vm d.config vm_name)
    present ← look (λ f. f.exists v.socket)
    when present (detach_live device v binding)
    notify (usb_detached node vm_name)

  unfoldable pub deauthorize : UsbDevice → M (Unit {0})
  deauthorize device = when (authorizing && not (is_hub device)) (do
    status ← look (λ f. authorization f d.usb_root device.sys_name)
    when (is_some status) (warned (authorize d.usb_root device.sys_name false)))

  -- A failure to save is kept until the device is deauthorized.
  unfoldable pub forget : UsbDevice → String → Bool → M (Unit {0})
  forget device node permanent = do
    modify (update_state (forget_usb node device.sys_name))
    persistence ← attempt (set_disconnected (persistent_id device) permanent >> save)
    modify (forget_pending (persistent_id device))
    deauthorize device
    lift persistence

  unfoldable pub detach_one_usb : UsbDevice → Bool → M (Unit {0})
  detach_one_usb device permanent = do
    node ← lift (or_error (said "USB device has no device node") device.device_node)
    vm_name ← gets (λ s. holder device node s.state)
    binding ← gets (λ s. Dict.get s.state.persistent.crosvm_usb_ports device.sys_name)
    on_option vm_name (pure tt) (detach_from device node binding)
    forget device node permanent

  unfoldable pub detach_usb : Selector → Bool → M (Unit {0})
  detach_usb selector permanent = do
    devices ← selected_usb selector
    failures ←
        each_failing (λ (p : UsbDevice × RuleMatch). p.0.sys_name) devices
          (λ p. detach_one_usb p.0 permanent)
    aggregate failures
