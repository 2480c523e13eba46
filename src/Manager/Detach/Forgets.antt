-- ===== src/Manager/Detach/Forgets.antt =====
-- `detach_one_usb` of src/manager.rs: what a detach takes out of the record of the devices.
use mathlib.Core.Path.{subst}
use ghaf_device_manager.Base.{String, Bool, ◌≡◌, refl, sym, ap, none, some, arith, eq_refl}
use ghaf_device_manager.Base.Outcome.{ok, said, or_error-ok}
use ghaf_device_manager.Base.Dict
use ghaf_device_manager.Base.Dict.{get-remove}
use ghaf_device_manager.Device.{UsbDevice, persistent_id}
use ghaf_device_manager.State.{State, disconnected, with_mark}
use ghaf_device_manager.State.Marks.{disconnected-mark}
use ghaf_device_manager.Machine.{Setup, Machine}
use ghaf_device_manager.Machine.Rules.{
  Keeps, Keeps-then, Keeps-bind, Keeps-when, Keeps-modify, Keeps-lift, Keeps-warned,
}
use ghaf_device_manager.Machine.Outcomes.{
  Leaves, Leaves-bind, Leaves-modify_then, Leaves-attempt_then, Leaves-keeps, Yields, Yields-bind,
  Yields-lift, Yields-gets,
}
use ghaf_device_manager.Manager.Store.{save, set_disconnected}
use ghaf_device_manager.Manager.Detach.{
  forget_usb, forget_pending, deauthorize, forget, detach_one_usb,
}
use ghaf_device_manager.Manager.Unmoved.{OfState, Unmoved-save, Unmoved-look, Unmoved-authorize}

-- No VM is recorded for the node and no port for the device, and the device's mark is `permanent`.
pub record IsForgotten (device : UsbDevice) (node : String) (permanent : Bool) (s : State)
    : Type 0 where
  pub vm : Dict.get s.usb_vms node ≡ none
  pub port : Dict.get s.persistent.crosvm_usb_ports device.sys_name ≡ none
  pub mark : disconnected s (persistent_id device) ≡ permanent

forgotten : UsbDevice → String → Bool → State → State
forgotten device node permanent s =
    with_mark (persistent_id device) permanent (forget_usb node device.sys_name s)

forgotten-IsForgotten :
    (device : UsbDevice) (node : String) (permanent : Bool) (s : State)
    → IsForgotten device node permanent (forgotten device node permanent s)
unfolding forgotten disconnected
forgotten-IsForgotten device node permanent s = record {
  vm = ground (arith, get-remove s.usb_vms node node, eq_refl node);
  port = ground (
    arith,
    eq_refl device.sys_name,
    get-remove s.persistent.crosvm_usb_ports device.sys_name device.sys_name,
  );
  mark = ground (
    arith,
    eq_refl (persistent_id device),
    disconnected-mark (forget_usb node device.sys_name s) (persistent_id device) permanent
        (persistent_id device),
  );
}

module _ ⦃d : Setup⦄ where
  Unmoved-deauthorize :
      (Q : State → Type 0) (device : UsbDevice) → Keeps (OfState Q) (deauthorize device)
  unfolding deauthorize
  Unmoved-deauthorize Q device = Keeps-when _ _ (
      Keeps-bind _ _ (Unmoved-look Q _)
        λ status. Keeps-when _ _ (Keeps-warned _ (Unmoved-authorize Q _ _ _)))

  abbrev Is : State → Machine → Type 0
  Is t s = s.state ≡ t

  Leaves-forget :
      (device : UsbDevice) (node : String) (permanent : Bool) (t : State)
      → Leaves (Is t) (forget device node permanent) (Is (forgotten device node permanent t))
  unfolding forget forgotten set_disconnected
  Leaves-forget device node permanent t =
      let saved = Unmoved-save (λ u. u ≡ forgotten device node permanent t) in
      Leaves-modify_then _ _ (λ s h. ap (forget_usb node device.sys_name) h)
        (Leaves-attempt_then _ _
          (Leaves-bind _ _
            (Leaves-modify_then _ _ (λ s h. ap (with_mark (persistent_id device) permanent) h)
              (Leaves-keeps save saved))
            (λ _. saved))
          λ outcome. Leaves-keeps _ (
            Keeps-then _ _ (Keeps-modify (forget_pending (persistent_id device)) (λ s h. h))
              (Keeps-then _ _ (Unmoved-deauthorize (λ u. u ≡ _) device) (Keeps-lift outcome))))

  -- Whether or not the state can be saved, after `forget` no VM is recorded for the device's node and no port for the
  -- device, and the device is marked as disconnected exactly if the detach is permanent.
  pub forget-IsForgotten :
      (device : UsbDevice) (node : String) (permanent : Bool) (s : Machine)
      → IsForgotten device node permanent (forget device node permanent s).1.state
  forget-IsForgotten device node permanent s =
      subst (IsForgotten device node permanent)
        (sym ((Leaves-forget device node permanent s.state).at s refl))
        (forgotten-IsForgotten device node permanent s.state)

  abbrev pub IsDetached : UsbDevice → Bool → Machine → Type 0
  IsDetached device permanent s =
      (node : String) × ((device.device_node ≡ some node)
        × IsForgotten device node permanent s.state)

  abbrev HasNode : UsbDevice → String → Machine → Type 0
  HasNode device node s = device.device_node ≡ some node

  Yields-detach_one_usb :
      (device : UsbDevice) (permanent : Bool)
      → Yields (λ s. Unit {0}) (detach_one_usb device permanent) (λ _. IsDetached device permanent)
  unfolding detach_one_usb
  Yields-detach_one_usb device permanent =
      Yields-bind _ _ (Yields-lift _ (λ node s e h. or_error-ok (said _) device.device_node node e))
        λ node. Yields-bind _ _ (Yields-gets {Q = λ _. HasNode device node} _ (λ s h. h)) λ name.
          Yields-bind _ _ (Yields-gets {Q = λ _. HasNode device node} _ (λ s h. h)) λ binding.
            Yields-bind {Q = λ _. HasNode device node} _ _ (record { at = λ s h u e. h })
              λ _. record {
                at = λ s h u e. (node, (h, forget-IsForgotten device node permanent s));
              }

  -- A detach that succeeds had a device node, and leaves no VM recorded for it, no port for the device, and
  -- the device marked as disconnected exactly if the detach is permanent.
  pub detach_one_usb-IsDetached :
      (device : UsbDevice) (permanent : Bool) (s : Machine)
      → (detach_one_usb device permanent s).0 ≡ ok tt
      → IsDetached device permanent (detach_one_usb device permanent s).1
  detach_one_usb-IsDetached device permanent s h =
      (Yields-detach_one_usb device permanent).at s tt tt h
