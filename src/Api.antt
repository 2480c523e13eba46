-- ===== src/Api.antt =====
-- src/api.rs: a message of the API and what the manager does for it.
pub mod Connection
pub mod Listeners
pub mod Sockets
use ghaf_device_manager.Base.{true}
use ghaf_device_manager.Protocol.{
  Action, ResponsePayload, Response, from_usb, from_pci, to_response,
}
use ghaf_device_manager.Machine.{Setup, Machine}
use ghaf_device_manager.Machine.Monad.{M, pure, ◌>>=◌}
use ghaf_device_manager.Manager.Select.{usb_list, pci_list}
use ghaf_device_manager.Manager.Attach.{attach_usb}
use ghaf_device_manager.Manager.Detach.{detach_usb}
use ghaf_device_manager.Manager.Pci.{attach_pci, detach_pci}
use ghaf_device_manager.Manager.Passes.{suspend_usb, suspend_pci, resume_usb, resume_pci}
use ghaf_device_manager.Manager.VmmArgs.{vmm_args}

module _ ⦃d : Setup⦄ where
  abbrev pub done : M (Unit {0}) → M ResponsePayload
  done m = m >>= λ _. pure ResponsePayload.empty

  unfoldable pub handle_inner : Action → M ResponsePayload
  handle_inner Action.enable_notifications = pure ResponsePayload.empty
  handle_inner (Action.usb_list disconnected tag) =
      usb_list disconnected tag >>= λ devices. pure (ResponsePayload.usb_list devices)
  handle_inner (Action.usb_attach selector vm) = done (attach_usb (from_usb selector) vm)
  handle_inner (Action.usb_detach selector) = done (detach_usb (from_usb selector) true)
  handle_inner (Action.usb_suspend vm) = done (suspend_usb vm)
  handle_inner (Action.usb_resume vm) = done (resume_usb vm)
  handle_inner (Action.pci_list disconnected tag) =
      pci_list disconnected tag >>= λ devices. pure (ResponsePayload.pci_list devices)
  handle_inner (Action.pci_attach selector vm) = done (attach_pci (from_pci selector) vm)
  handle_inner (Action.pci_detach selector) = done (detach_pci (from_pci selector) true)
  handle_inner (Action.pci_suspend vm) = done (suspend_pci vm)
  handle_inner (Action.pci_resume vm) = done (resume_pci vm)
  handle_inner (Action.vmm_args vm prefix index require_pci) =
      vmm_args vm require_pci >>= λ args. pure (ResponsePayload.vmm_args args)

  unfoldable pub handle : Action → Machine → Response × Machine
  handle message s = let (r, s') = handle_inner message s in (to_response r, s')
