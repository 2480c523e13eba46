-- ===== src/Manager/Claim.antt =====
-- src/manager.rs: the part of `attach_one_usb` by which a device is claimed and given to Crosvm.
use ghaf_device_manager.Base.{
  ℕ, String, Bool, true, false, not, ◌&&◌, Option, none, some, List, [], ◌∷◌, ◌==◌, ◌=s◌, ◌<>◌,
  ◌/s◌, if◌then◌else◌, is_none, is_text, same_text, keep_if, find, any, contains, parent,
}
use ghaf_device_manager.Base.Dict
use ghaf_device_manager.Json.{and_then}
use ghaf_device_manager.Files.{Files}
use ghaf_device_manager.Device.{UsbDevice, persistent_id}
use ghaf_device_manager.Config.Types.{Vm}
use ghaf_device_manager.State.{UsbPortBinding}
use ghaf_device_manager.UsbGate.{
  autoprobe_attribute, claim, hub, driver, interfaces, probe, release,
}
use ghaf_device_manager.Crosvm.Replies.{UsbEntry}
use ghaf_device_manager.Crosvm.Commands.{usb_list, usb_attach}
use ghaf_device_manager.Machine.{Setup, Machine}
use ghaf_device_manager.Machine.Monad.{
  M, pure, gets, modify, ◌>>=◌, ◌>>◌, in_context, when, on_option, look, query,
}
use ghaf_device_manager.Manager.Detach.{generation, is_device}

abbrev pub insert_set : String → List String → List String
insert_set x xs = if contains xs x then xs else x ∷ xs

abbrev pub add_hub : String → Machine → Machine
add_hub id s = record s { reported_usb_hubs = insert_set id s.reported_usb_hubs }

-- The generation of a VM's socket and the devices that the VM has.
pub record Live : Type 0 where
  pub socket_generation : String
  pub entries : List UsbEntry

-- What the attach has come to when Crosvm owns the device.
pub record Claimed : Type 0 where
  pub port : ℕ
  pub stale : Option ℕ
  pub changed : Bool
  pub socket_generation : String

-- The recorded binding is of this VM, over the socket that is there now.
abbrev pub is_of : String → String → UsbPortBinding → Bool
is_of vm_name now b = b.vm =s vm_name && b.socket_generation =s now

-- The recorded port, if the device recorded there is still on it.
unfoldable pub stale_port : Option UsbPortBinding → String → Live → Option ℕ
stale_port known vm_name live = and_then (keep_if (is_of vm_name live.socket_generation) known) λ b.
    and_then
      (find (λ (i : UsbEntry). i.port == b.port && (is_text b.vid i.vid && is_text b.pid i.pid))
        live.entries)
      (λ (i : UsbEntry). some i.port)

-- The recorded binding, if it is of this very device.
unfoldable pub own_binding :
    UsbDevice → Option UsbPortBinding → String → Live → Option UsbPortBinding
own_binding device known vm_name live =
    keep_if
      (λ (b : UsbPortBinding).
        is_of vm_name live.socket_generation b
        && (same_text b.vid device.vid
            && (same_text b.pid device.pid && same_text b.serial device.serial)))
      known

module _ ⦃d : Setup⦄ where
  -- `usb_bus`.
  unfoldable pub usb_bus : Files → Option String
  usb_bus f = keep_if (λ bus. f.exists (bus /s autoprobe_attribute)) (parent d.usb_root)

  unfoldable pub read_live : Vm → M Live
  read_live v = do
    now ← look (λ f. generation f v.socket)
    entries ← usb_list v.socket
    pure (record { socket_generation = now; entries = entries })

  -- A device without a driver is configured first.
  unfoldable pub configure : UsbDevice → M (Unit {0})
  configure device = do
    bus ← look usb_bus
    on_option bus (pure tt) λ b. do
      bound ← look (λ f. driver f d.usb_root device.sys_name)
      when (is_none bound)
          (in_context ("cannot configure " <> device.sys_name) (probe b device.sys_name))

  -- Takes host drivers off; true at an interface that the hub driver holds.
  unfoldable pub release_interfaces : UsbDevice → List String → M Bool
  release_interfaces device [] = pure false
  release_interfaces device (interface ∷ rest) =
      let others = release_interfaces device rest in
      (do
        bound ← look (λ f. driver f d.usb_root interface)
        on_option bound others λ name.
            if name =s hub
            then (do modify (add_hub (persistent_id device)); pure true)
            else if not (name =s claim)
            then (do
              in_context ("cannot claim " <> device.sys_name) (release d.usb_root interface)
              others)
            else others)

  -- A new attach, with the stale port that is to be detached after it.
  unfoldable pub attach_anew : Vm → String → Option ℕ → Live → M Claimed
  attach_anew v node stale live = do
    port ← usb_attach v.socket node
    pure (record {
      port = port;
      stale = keep_if (λ p. not (p == port)) stale;
      changed = true;
      socket_generation = live.socket_generation;
    })

  -- An attach that the VM still has is kept.
  unfoldable pub claim_port :
      UsbDevice → Vm → String → Bool → Option UsbPortBinding → Live → M Claimed
  claim_port device v node changed known live =
      let anew = attach_anew v node (stale_port known v.name live) live in
      on_option (own_binding device known v.name live) anew λ b.
        if any (λ (i : UsbEntry). i.port == b.port && is_device device i) live.entries
        then pure (record {
          port = b.port;
          stale = none;
          changed = changed;
          socket_generation = live.socket_generation;
        })
        else anew

  unfoldable pub claim_device : UsbDevice → Vm → String → Bool → Option Live → M Claimed
  claim_device device v node changed before = do
    known ← gets (λ s. Dict.get s.state.persistent.crosvm_usb_ports device.sys_name)
    live ← on_option before (read_live v) pure
    claim_port device v node changed known live

  -- What happens under the guard; `none` for a hub, which is skipped.
  unfoldable pub claim_under_guard :
      UsbDevice → Vm → String → Bool → Option Live → M (Option Claimed)
  claim_under_guard device v node changed before = do
    configure device
    names ←
        in_context ("cannot claim " <> device.sys_name)
          (query (λ f. interfaces f d.usb_root device.sys_name))
    is_a_hub ← release_interfaces device names
    if is_a_hub
        then pure none
        else (do c ← claim_device device v node changed before; pure (some c))
