-- ===== src/Manager/Gate.antt =====
-- src/manager.rs: host driver binding and the default USB authorization.
pub mod Opened
use ghaf_device_manager.Base.{
  String, Bool, true, false, not, ◌&&◌, ◌||◌, Option, none, some, List, [], ◌<>◌, if◌then◌else◌,
  is_none, is_some_and, filter, map, contains,
}
use ghaf_device_manager.Base.Outcome.{Result, ok, err}
use ghaf_device_manager.Base.Dict
use ghaf_device_manager.Device.{UsbDevice, is_hub}
use ghaf_device_manager.Device.Usb.{scan_usb}
use ghaf_device_manager.Config.Usb.{usb_authorization_host_allowed}
use ghaf_device_manager.Config.Pci.{routes_usb}
use ghaf_device_manager.State.{State}
use ghaf_device_manager.UsbGate.{
  releasable, is_closed, authorization, driver, device_names, interfaces, close, open_bus,
  set_authorized_default, authorize, probe, release,
}
use ghaf_device_manager.Machine.{Setup}
use ghaf_device_manager.Machine.Monad.{
  M, pure, gets, ◌>>=◌, ◌>>◌, in_context, warned, when, on_option, each, look, query,
}
use ghaf_device_manager.Manager.Select.{scan}
use ghaf_device_manager.Manager.Detach.{authorizing}
use ghaf_device_manager.Manager.Claim.{usb_bus}
use ghaf_device_manager.Manager.Routing.{usb_routing}

abbrev pub is_false : Option Bool → Bool
is_false status = is_some_and status not

abbrev pub is_true : Option Bool → Bool
is_true status = is_some_and status (λ b. b)

-- A VM is recorded as holding the device's node.
abbrev pub is_held : State → UsbDevice → Bool
is_held state device = is_some_and device.device_node (Dict.contains_key state.usb_vms)

abbrev pub held_names : State → List UsbDevice → List String
held_names state devices = map (λ (v : UsbDevice). v.sys_name) (filter (is_held state) devices)

abbrev pub held_of : State → Result (List UsbDevice) → List String
held_of state (ok devices) = held_names state devices
held_of state (err e) = []

module _ ⦃d : Setup⦄ where
  unfoldable pub close_usb_gate : M Bool
  close_usb_gate = do
    bus ← look usb_bus
    on_option bus (pure false)
        λ b. if routes_usb d.config then (do close b; pure true) else pure false

  -- The kernel's answer for the device is that it is not authorized.
  unfoldable pub is_refused : String → M Bool
  is_refused name =
      if authorizing then look (λ f. is_false (authorization f d.usb_root name)) else pure false

  unfoldable pub authorize_one : UsbDevice → M (Unit {0})
  authorize_one device =
      when (is_hub device || usb_authorization_host_allowed d.world.matchers d.config device) (do
        refused ← look (λ f. is_false (authorization f d.usb_root device.sys_name))
        when refused (warned (authorize d.usb_root device.sys_name true)))

  unfoldable pub authorize_usb_for_host : M (Unit {0})
  authorize_usb_for_host = when authorizing (do devices ← scan; each devices authorize_one)

  unfoldable pub enable_usb_authorization : M Bool
  enable_usb_authorization =
      if authorizing
      then (do set_authorized_default d.usb_root false; authorize_usb_for_host; pure true)
      else pure false

  unfoldable pub deauthorize_one : State → UsbDevice → M (Unit {0})
  deauthorize_one state device =
      if is_hub device
        || (is_held state device || usb_authorization_host_allowed d.world.matchers d.config device)
      then pure tt
      else (do
        granted ← look (λ f. is_true (authorization f d.usb_root device.sys_name))
        when granted (
            in_context ("cannot deauthorize " <> device.sys_name)
              (authorize d.usb_root device.sys_name false)))

  unfoldable pub deauthorize_unmatched_usb : M (Unit {0})
  deauthorize_unmatched_usb =
      when (authorizing && d.config.usb_authorization.deauthorize_unmatched)
        (do devices ← scan; state ← gets (λ s. s.state); each devices (deauthorize_one state))

  -- A device without a driver is probed.
  unfoldable pub probe_if_unbound : String → String → M (Unit {0})
  probe_if_unbound bus name = do
    bound ← look (λ f. driver f d.usb_root name)
    when (is_none bound) (warned (probe bus name))

  unfoldable pub each_listed : Result (List String) → (String → M (Unit {0})) → M (Unit {0})
  each_listed (ok names) f = each names f
  each_listed (err e) f = pure tt

  unfoldable pub each_interface : String → (String → M (Unit {0})) → M (Unit {0})
  each_interface name g = do listed ← look (λ f. interfaces f d.usb_root name); each_listed listed g

  unfoldable pub usb_held_by_vms : M (List String)
  usb_held_by_vms = do
    devices ← look (λ f. scan_usb f d.world.hwdb d.usb_root)
    gets (λ s. held_of s.state devices)

  unfoldable pub hand_back : String → List String → String → M (Unit {0})
  hand_back bus held name = if contains held name then pure tt else (do
    refused ← is_refused name
    when (not refused) (do probe_if_unbound bus name; each_interface name (probe_if_unbound bus)))

  unfoldable pub reopen : String → M (Unit {0})
  reopen bus = do
    held ← usb_held_by_vms
    open_bus bus
    names ← query (λ f. device_names f d.usb_root)
    each names (hand_back bus held)

  unfoldable pub open_usb_gate : M (Unit {0})
  open_usb_gate = do
    bus ← look usb_bus
    on_option bus (pure tt)
        λ b. when (routes_usb d.config) (do shut ← look (λ f. is_closed f b); when shut (reopen b))

  unfoldable pub configure_device : String → String → M (Unit {0})
  configure_device bus name = do
    refused ← is_refused name
    when (not refused) (probe_if_unbound bus name)

  -- The driver of a routed device's interface goes; that of another's comes.
  unfoldable pub settle : String → Bool → String → Option String → M (Unit {0})
  settle bus true interface (some name) =
      if releasable name then release d.usb_root interface else pure tt
  settle bus true interface none = pure tt
  settle bus false interface (some name) = pure tt
  settle bus false interface none = probe bus interface

  unfoldable pub settle_interface : String → Bool → String → M (Unit {0})
  settle_interface bus is_routed interface = do
    bound ← look (λ f. driver f d.usb_root interface)
    warned (settle bus is_routed interface bound)

  unfoldable pub settle_device : String → List String → String → M (Unit {0})
  settle_device bus routed name = each_interface name (settle_interface bus (contains routed name))

  unfoldable pub settle_bus : String → M (Unit {0})
  settle_bus bus = do
    names ← query (λ f. device_names f d.usb_root)
    each names (configure_device bus)
    devices ← scan
    routed ← usb_routing devices
    again ← query (λ f. device_names f d.usb_root)
    each again (settle_device bus routed)

  unfoldable pub apply_usb_gate : M (Unit {0})
  apply_usb_gate = do
    bus ← look usb_bus
    when (routes_usb d.config) (on_option bus (pure tt) close)
    authorize_usb_for_host
    when (routes_usb d.config) (on_option bus (pure tt) settle_bus)
