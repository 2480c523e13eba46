-- ===== src/Manager/Observe.antt =====
-- `observe` of src/manager.rs: what was plugged in and what was pulled since the last pass.
use ghaf_device_manager.Base.{
  String, Bool, not, ◌&&◌, Option, none, some, List, [], ◌∷◌, ◌==◌, ◌=s◌, is_text, any,
}
use ghaf_device_manager.Base.Dict
use ghaf_device_manager.Base.Dict.{Dict}
use ghaf_device_manager.Device.{UsbDevice, PciDevice, persistent_id}
use ghaf_device_manager.Config.Types.{RuleMatch, Vm}
use ghaf_device_manager.Config.Vms.{vm}
use ghaf_device_manager.State.{State, UsbPortBinding}
use ghaf_device_manager.Crosvm.Replies.{UsbEntry}
use ghaf_device_manager.Crosvm.Commands.{usb_list, usb_detach}
use ghaf_device_manager.Machine.{
  Setup, usb_connected, usb_disconnected, pci_connected, pci_disconnected,
}
use ghaf_device_manager.Machine.Monad.{
  M, pure, lift, gets, modify, ◌>>=◌, ◌>>◌, when, on_option, each, look, notify,
}
use ghaf_device_manager.Manager.Store.{save, update_state}
use ghaf_device_manager.Manager.Select.{usb_devices, pci_devices}
use ghaf_device_manager.Manager.Detach.{generation, forget_pending}

-- `collect::<HashMap<_, _>>()`.
abbrev pub usb_map : List (UsbDevice × RuleMatch) → Dict UsbDevice → Dict UsbDevice
usb_map [] m = m
usb_map ((device, rule) ∷ rest) m = usb_map rest (Dict.insert m device.sys_name device)

abbrev pub pci_map : List (PciDevice × RuleMatch) → Dict PciDevice → Dict PciDevice
pci_map [] m = m
pci_map ((device, rule) ∷ rest) m = pci_map rest (Dict.insert m device.address device)

abbrev pub remove_some : Option String → Dict String → Dict String
remove_some none vms = vms
remove_some (some node) vms = Dict.remove vms node

abbrev pub forget_unplugged : String → Option String → State → State
forget_unplugged key node s = record s {
  usb_vms = remove_some node s.usb_vms;
  persistent = record s.persistent {
    crosvm_usb_ports = Dict.remove s.persistent.crosvm_usb_ports key;
  };
}

abbrev pub forget_address : String → State → State
forget_address key s = record s { pci_vms = Dict.remove s.pci_vms key }

abbrev pub is_bound : UsbPortBinding → UsbEntry → Bool
is_bound b i = i.port == b.port && (is_text b.vid i.vid && is_text b.pid i.pid)

module _ ⦃d : Setup⦄ where
  unfoldable pub detach_bound : Vm → UsbPortBinding → M (Unit {0})
  detach_bound v b = do
    live ← usb_list v.socket
    when (any (is_bound b) live) (usb_detach v.socket b.port)

  -- The port of a device that is gone is freed, if its VM still runs over the same socket.
  unfoldable pub free_port : UsbPortBinding → M (Unit {0})
  free_port b = do
    v ← lift (vm d.config b.vm)
    same ← look (λ f. f.exists v.socket && b.socket_generation =s generation f v.socket)
    when same (detach_bound v b)

  unfoldable pub forget_usb_device : String → UsbDevice → M (Unit {0})
  forget_usb_device key device = do
    notify (usb_disconnected device.device_node)
    modify (update_state (forget_unplugged key device.device_node))
    save
    modify (forget_pending (persistent_id device))

  unfoldable pub unplugged_usb : Dict UsbDevice → String × UsbDevice → M (Unit {0})
  unplugged_usb usb (key, device) = when (not (Dict.contains_key usb key)) (do
    binding ← gets (λ s. Dict.get s.state.persistent.crosvm_usb_ports key)
    on_option binding (pure tt) free_port
    forget_usb_device key device)

  unfoldable pub plugged_usb : Dict UsbDevice → String × UsbDevice → M (Unit {0})
  plugged_usb observed (key, device) =
      when (not (Dict.contains_key observed key)) (notify (usb_connected device))

  unfoldable pub observe_usb : Dict UsbDevice → M (Unit {0})
  observe_usb usb = do
    observed ← gets (λ s. s.observed_usb)
    each usb (plugged_usb observed)
    each observed (unplugged_usb usb)
    modify (λ s. record s { observed_usb = usb })

  unfoldable pub plugged_pci : Dict PciDevice → String × PciDevice → M (Unit {0})
  plugged_pci observed (key, device) =
      when (not (Dict.contains_key observed key)) (notify (pci_connected device))

  unfoldable pub unplugged_pci : Dict PciDevice → String × PciDevice → M (Unit {0})
  unplugged_pci pci (key, device) =
      when (not (Dict.contains_key pci key))
        (do notify (pci_disconnected device.address); modify (update_state (forget_address key)))

  unfoldable pub observe_pci : Dict PciDevice → M (Unit {0})
  observe_pci pci = do
    observed ← gets (λ s. s.observed_pci)
    each pci (plugged_pci observed)
    each observed (unplugged_pci pci)
    modify (λ s. record s { observed_pci = pci })

  unfoldable pub observe : M (Unit {0})
  observe = do
    usb ← usb_devices
    pci ← pci_devices
    observe_usb (usb_map usb [])
    observe_pci (pci_map pci [])
