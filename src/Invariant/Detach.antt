-- ===== src/Invariant/Detach.antt =====
-- Detaching USB devices keeps a closed invariant.
use ghaf_device_manager.Base.{String, Bool, refl, Option, List, [], ◌∷◌}
use ghaf_device_manager.Base.Dict.{Values-remove}
use ghaf_device_manager.Device.{UsbDevice}
use ghaf_device_manager.Config.Types.{Vm}
use ghaf_device_manager.Config.Vms.{vm}
use ghaf_device_manager.State.{UsbPortBinding}
use ghaf_device_manager.Machine.{Setup, Machine}
use ghaf_device_manager.Machine.Monad
use ghaf_device_manager.Machine.Monad.{M, ◌>>=◌, ◌>>◌, warned, pure, bail}
use ghaf_device_manager.Machine.Rules.{
  Keeps, Keeps-bind, Keeps-bind_lift, Keeps-pure, Keeps-on_option, keeps_rules,
}
use ghaf_device_manager.Crosvm.Replies.{UsbEntry}
use ghaf_device_manager.Manager.Detach.{
  forget_pending, forget_usb, detach_entry, detach_port, detach_single, detach_matching,
  current_binding, detach_live, detach_from, deauthorize, forget, detach_one_usb,
}
use ghaf_device_manager.Invariant.{IsVm, IsMild, Closed}
use ghaf_device_manager.Invariant.Steps.{step_rules, Keeps-update, Keeps-fields}
use ghaf_device_manager.Invariant.Commands.{Keeps-usb_list, Keeps-usb_detach}

module _ ⦃d : Setup⦄ where
  forget_usb-IsMild : (node name : String) → IsMild (forget_usb node name)
  forget_usb-IsMild node name = record { usb = λ s h. Values-remove _ node h; pci = λ s h. h }

module _ ⦃d : Setup⦄ {Target : Vm → Type 0} {P : Machine → Type 0} (c : Closed Target P) where
  pub Keeps-forget_pending : (id : String) → Keeps P (Monad.modify (forget_pending id))
  Keeps-forget_pending id = Keeps-fields c (forget_pending id) (λ t. (refl, refl))

  module _ (v : Vm) (known : IsVm v) where
    Keeps-detach_entry :
        (device : UsbDevice) (item : UsbEntry) → Keeps P (detach_entry device v item)
    unfolding detach_entry
    Keeps-detach_entry device item = search (keeps_rules, Keeps-usb_detach c v known)

    Keeps-detach_port : (device : UsbDevice) (b : UsbPortBinding) → Keeps P (detach_port device v b)
    unfolding detach_port
    Keeps-detach_port device b =
        Keeps-bind _ _ (Keeps-usb_list c v known)
          λ live. Keeps-on_option _ _ _ (Keeps-pure tt) (Keeps-detach_entry device)

    Keeps-detach_single : (live : List UsbEntry) → Keeps P (detach_single v live)
    unfolding detach_single
    Keeps-detach_single [] = search keeps_rules
    Keeps-detach_single (item ∷ []) = Keeps-usb_detach c v known item.port
    Keeps-detach_single (item ∷ other ∷ rest) = search keeps_rules

    Keeps-detach_matching : (device : UsbDevice) → Keeps P (detach_matching device v)
    unfolding detach_matching
    Keeps-detach_matching device =
        search (keeps_rules, Keeps-usb_list c v known, Keeps-detach_single)

    Keeps-current_binding : (b : Option UsbPortBinding) → Keeps P (current_binding v b)
    unfolding current_binding
    Keeps-current_binding b = search step_rules

    Keeps-detach_live :
        (device : UsbDevice) (b : Option UsbPortBinding) → Keeps P (detach_live device v b)
    unfolding detach_live
    Keeps-detach_live device b =
        search (keeps_rules, Keeps-current_binding, Keeps-detach_matching, Keeps-detach_port)

  Keeps-detach_from :
      (device : UsbDevice) (node : String) (b : Option UsbPortBinding) (name : String)
      → Keeps P (detach_from device node b name)
  unfolding detach_from
  Keeps-detach_from device node b name =
      Keeps-bind_lift (vm d.config name) _
        λ v found. search (step_rules, Keeps-detach_live v (name, found))

  Keeps-deauthorize : (device : UsbDevice) → Keeps P (deauthorize device)
  unfolding deauthorize
  Keeps-deauthorize device = search step_rules

  Keeps-forget : (device : UsbDevice) (node : String) (b : Bool) → Keeps P (forget device node b)
  unfolding forget
  Keeps-forget device node b =
      Keeps-bind _ _ (Keeps-update c _ (forget_usb-IsMild node device.sys_name))
        λ _. search (step_rules, Keeps-forget_pending, Keeps-deauthorize) depth 7

  pub Keeps-detach_one_usb : (device : UsbDevice) (b : Bool) → Keeps P (detach_one_usb device b)
  unfolding detach_one_usb
  Keeps-detach_one_usb device b = search (keeps_rules, Keeps-detach_from, Keeps-forget) depth 7
