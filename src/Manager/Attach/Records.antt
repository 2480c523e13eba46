-- ===== src/Manager/Attach/Records.antt =====
-- `attach_one_usb` and `detach_one_usb` of src/manager.rs: what they leave in the record of the devices.
use mathlib.Core.Path.{subst}
use ghaf_device_manager.Base.{ℕ, String, false, ◌≡◌, refl, sym, ap, Option, some, arith, eq_refl}
use ghaf_device_manager.Base.Outcome.{ok}
use ghaf_device_manager.Base.Dict
use ghaf_device_manager.Base.Dict.{get-insert, get-remove}
use ghaf_device_manager.Device.{UsbDevice, persistent_id}
use ghaf_device_manager.Config.Types.{Vm}
use ghaf_device_manager.State.{State, disconnected, with_mark, with_selection}
use ghaf_device_manager.State.Marks.{disconnected-mark}
use ghaf_device_manager.Machine.{Setup, Machine}
use ghaf_device_manager.Machine.Monad.{modify, on_option, pure}
use ghaf_device_manager.Machine.Rules.{Keeps, Keeps-on_option, Keeps-pure, Keeps-when}
use ghaf_device_manager.Machine.Outcomes.{Yields, Yields-bind, Yields-keeps, Yields-modify}
use ghaf_device_manager.Manager.Store.{save, update_state, set_disconnected, select_vm}
use ghaf_device_manager.Manager.Detach.{forget_pending}
use ghaf_device_manager.Manager.Claim.{Claimed}
use ghaf_device_manager.Manager.Attach.{with_vm, with_port, port_binding, record_attachment, finish}
use ghaf_device_manager.Crosvm.Commands.{usb_detach}
use ghaf_device_manager.Manager.Unmoved.{Unmoved-save, Unmoved-usb_detach, Unmoved-notify}

-- The device's node is recorded as held by the VM, its port with the binding, the VM is the one chosen
-- for it, and it is not marked as disconnected.
pub record IsAttached (device : UsbDevice) (node : String) (name : String) (c : Claimed) (s : State)
    : Type 0 where
  pub vm : Dict.get s.usb_vms node ≡ some name
  pub port :
      Dict.get s.persistent.crosvm_usb_ports device.sys_name ≡ some (port_binding device name c)
  pub selection : Dict.get s.persistent.selected_vms (persistent_id device) ≡ some name
  pub unmarked : disconnected s (persistent_id device) ≡ false

attached_state : UsbDevice → String → String → Claimed → State → State
attached_state device node name c s = with_port device.sys_name (port_binding device name c) (
    with_mark (persistent_id device) false
      (with_selection (persistent_id device) name (with_vm node name s)))

attached_state-IsAttached :
    (device : UsbDevice) (node name : String) (c : Claimed) (s : State)
    → IsAttached device node name c (attached_state device node name c s)
unfolding attached_state disconnected
attached_state-IsAttached device node name c s = record {
  vm = ground (arith, get-insert s.usb_vms node name node, eq_refl node);
  port = ground (
    arith,
    eq_refl device.sys_name,
    get-insert s.persistent.crosvm_usb_ports device.sys_name (port_binding device name c)
        device.sys_name,
  );
  selection = ground (
    arith,
    eq_refl (persistent_id device),
    get-insert s.persistent.selected_vms (persistent_id device) name (persistent_id device),
  );
  unmarked = ground (
    arith,
    eq_refl (persistent_id device),
    disconnected-mark (with_selection (persistent_id device) name (with_vm node name s))
        (persistent_id device) false (persistent_id device),
  );
}

module _ ⦃d : Setup⦄ where
  abbrev Is : State → Machine → Type 0
  Is t s = s.state ≡ t

  Yields-update :
      (f : State → State) (t : State) → Yields (Is t) (modify (update_state f)) (λ _. Is (f t))
  Yields-update f t = Yields-modify _ (λ s h. ap f h)

  Yields-saved : (t : State) → Yields (Is t) save (λ _. Is t)
  Yields-saved t = Yields-keeps save (Unmoved-save (λ u. u ≡ t))

  Yields-record_attachment :
      (device : UsbDevice) (node : String) (v : Vm) (c : Claimed) (t : State)
      → Yields
          (Is t)
          (record_attachment device node v c)
          (λ _. Is (attached_state device node v.name c t))
  unfolding record_attachment attached_state select_vm set_disconnected
  Yields-record_attachment device node v c t = Yields-bind _ _ (Yields-update _ _) λ _.
      Yields-bind _ _ (Yields-bind _ _ (Yields-update _ _) (λ _. Yields-saved _)) λ _.
        Yields-bind _ _ (Yields-bind _ _ (Yields-update _ _) (λ _. Yields-saved _))
          λ _. Yields-bind _ _ (Yields-update _ _) (λ _. Yields-saved _)

  Yields-finish :
      (device : UsbDevice) (node : String) (v : Vm) (c : Claimed) (t : State)
      → Yields (Is t) (finish device node v c) (λ _. Is (attached_state device node v.name c t))
  unfolding finish
  Yields-finish device node v c t =
      let free : (u : Option ℕ) → Keeps (Is t) (on_option u (pure tt) (usb_detach v.socket)) =
        λ u. Keeps-on_option u _ _ (Keeps-pure tt) (Unmoved-usb_detach (λ u. u ≡ t) v.socket) in
      Yields-bind _ _ (Yields-keeps _ (free c.stale)) λ _.
        Yields-bind _ _ (Yields-record_attachment device node v c t) λ _.
          Yields-bind _ _ (Yields-modify (forget_pending (persistent_id device)) (λ s h. h))
            λ _. Yields-keeps _ (Keeps-when _ _ (Unmoved-notify (λ u. u ≡ _) _))

  -- Where `finish`, the part of an attach after Crosvm owns the device, succeeds, it has recorded
  -- the VM as the holder of the device's node and as the VM chosen for the device, the port with
  -- the device's identity and the generation of the socket, and has lifted the mark of a
  -- disconnected device.
  pub finish-IsAttached :
      (device : UsbDevice) (node : String) (v : Vm) (c : Claimed) (s : Machine)
      → (finish device node v c s).0 ≡ ok tt
      → IsAttached device node v.name c (finish device node v c s).1.state
  finish-IsAttached device node v c s h =
      subst (IsAttached device node v.name c)
        (sym ((Yields-finish device node v c s.state).at s refl tt h))
        (attached_state-IsAttached device node v.name c s.state)
