-- ===== src/Invariant/Usb.antt =====
-- Attaching USB devices keeps a closed invariant.
use ghaf_device_manager.Base.{
  ℕ, String, Bool, true, false, ◌≡◌, ◌∙◌, ap, refl, Option, List, [], ◌∷◌, arith, contains, not,
  Bool-cases, ◌=s◌,
}
use ghaf_device_manager.Base.Outcome.{ok}
use ghaf_device_manager.Base.Dict.{Values-insert}
use ghaf_device_manager.Device.{UsbDevice, persistent_id}
use ghaf_device_manager.Config.Types.{Vm, RuleMatch}
use ghaf_device_manager.Config.Pci.{allowed_vms}
use ghaf_device_manager.Config.Vms.{vm}
use ghaf_device_manager.State.{UsbPortBinding}
use ghaf_device_manager.Machine.{Setup, Machine}
use ghaf_device_manager.Machine.Monad
use ghaf_device_manager.Machine.Monad.{M, ◌>>=◌, ◌>>◌, warned, pure, bail}
use ghaf_device_manager.UsbGate.{authorize, hub, claim}
use ghaf_device_manager.Machine.Rules.{
  Keeps, Keeps-bind, Keeps-bind_lift, Keeps-when, Keeps-if, Keeps-if_known, Keeps-pure, Keeps-bail,
  Keeps-on_option, Keeps-in_context, keeps_rules,
}
use ghaf_device_manager.Manager.Claim.{
  Live, Claimed, add_hub, read_live, configure, release_interfaces, attach_anew, claim_port,
  claim_device, claim_under_guard,
}
use ghaf_device_manager.Manager.Attach.{
  with_vm, with_port, ask_for_vm, preflight, is_armed, roll_back, guarded, record_attachment,
  finish, attach_allowed, is_absent, attach_found, attach_to, attach_one_usb,
}
use ghaf_device_manager.Invariant.{IsVm, IsMild, Closed, vm-name}
use ghaf_device_manager.Invariant.Steps.{
  step_rules, Keeps-update, Keeps-fields, Keeps-look, Keeps-release,
}
use ghaf_device_manager.Invariant.Commands.{Keeps-usb_list, Keeps-usb_attach, Keeps-usb_detach}
use ghaf_device_manager.Invariant.Detach.{Keeps-forget_pending, Keeps-detach_one_usb}

module _ ⦃d : Setup⦄ where
  with_port-IsMild : (name : String) (b : UsbPortBinding) → IsMild (with_port name b)
  with_port-IsMild name b = record { usb = λ s h. h; pci = λ s h. h }

  with_vm-IsMild : (node : String) (v : Vm) → IsVm v → IsMild (with_vm node v.name)
  with_vm-IsMild node v (name, e) = record {
    usb =
        λ s h. Values-insert _ node v.name (v, ap (vm d.config) (vm-name d.config name v e) ∙ e) h;
    pci = λ s h. h;
  }

module _ ⦃d : Setup⦄ {Target : Vm → Type 0} {P : Machine → Type 0} (c : Closed Target P) where
  Keeps-ask_for_vm : (device : UsbDevice) (r : RuleMatch) → Keeps P (ask_for_vm device r)
  unfolding ask_for_vm
  Keeps-ask_for_vm device r =
      Keeps-bind _ _ (search keeps_rules)
        λ fresh. Keeps-bind _ _ (Keeps-fields c _ (λ t. (refl, refl))) λ _. search step_rules

  Keeps-configure : (device : UsbDevice) → Keeps P (configure device)
  unfolding configure
  Keeps-configure device = search step_rules depth 7

  Keeps-add_hub : (id : String) → Keeps P (Monad.modify (add_hub id))
  Keeps-add_hub id = Keeps-fields c (add_hub id) (λ t. (refl, refl))

  Keeps-release_interfaces :
      (device : UsbDevice) (names : List String) → Keeps P (release_interfaces device names)
  unfolding release_interfaces
  Keeps-release_interfaces device [] = search keeps_rules
  Keeps-release_interfaces device (i ∷ rest) =
      let others = Keeps-release_interfaces device rest in
      Keeps-bind _ _ (Keeps-look c _) λ bound. Keeps-on_option bound _ _ others λ name.
        let found_hub =
          Keeps-bind _ _ (Keeps-add_hub (persistent_id device)) (λ _. Keeps-pure true) in
        let free =
          Keeps-bind _ _ (Keeps-in_context _ _ (Keeps-release c d.usb_root i)) (λ _. others) in
        Keeps-if (name =s hub) (do Monad.modify (add_hub (persistent_id device)); pure true) _
          found_hub (Keeps-if (not (name =s claim)) _ (release_interfaces device rest) free others)

  Keeps-is_armed : (device : UsbDevice) → Keeps P (is_armed device)
  unfolding is_armed
  Keeps-is_armed device = search step_rules

  Keeps-roll_back :
      (armed : Bool) (device : UsbDevice) (m : M (Option Claimed))
      → Keeps P m
      → Keeps P (roll_back armed device m)
  unfolding roll_back
  Keeps-roll_back armed device m k = record {
    at = λ s h.
        let undo : Keeps P (warned (authorize d.usb_root device.sys_name false)) =
          search step_rules in
        (Keeps-when _ _ undo).at _ (k.at s h);
  }

  Keeps-guarded :
      (device : UsbDevice) (m : M (Option Claimed)) → Keeps P m → Keeps P (guarded device m)
  unfolding guarded
  Keeps-guarded device m k = search (step_rules, Keeps-is_armed, Keeps-roll_back) depth 7

  module _ (v : Vm) (known : IsVm v) where
    Keeps-read_live : Keeps P (read_live v)
    unfolding read_live
    Keeps-read_live =
        Keeps-bind _ _ (Keeps-look c _)
          λ now. Keeps-bind _ _ (Keeps-usb_list c v known) λ entries. Keeps-pure _

    Keeps-preflight : (device : UsbDevice) → Keeps P (preflight device v)
    unfolding preflight
    Keeps-preflight device = search (keeps_rules, Keeps-read_live)

    Keeps-record_attachment :
        (device : UsbDevice) (node : String) (claimed : Claimed)
        → Keeps P (record_attachment device node v claimed)
    unfolding record_attachment
    Keeps-record_attachment device node claimed =
        Keeps-bind _ _ (Keeps-update c _ (with_vm-IsMild node v known))
          λ _. search (step_rules, Keeps-update, with_port-IsMild) depth 7

    Keeps-finish :
        (device : UsbDevice) (node : String) (claimed : Claimed)
        → Keeps P (finish device node v claimed)
    unfolding finish
    Keeps-finish device node claimed =
        search
          (step_rules, Keeps-usb_detach c v known, Keeps-record_attachment, Keeps-forget_pending c)
          depth 7

    module _ (target : Target v) where
      Keeps-attach_anew :
          (node : String) (stale : Option ℕ) (live : Live) → Keeps P (attach_anew v node stale live)
      unfolding attach_anew
      Keeps-attach_anew node stale live = search (keeps_rules, Keeps-usb_attach c v known target)

      Keeps-claim_port :
          (device : UsbDevice) (node : String) (changed : Bool) (b : Option UsbPortBinding)
          (live : Live)
          → Keeps P (claim_port device v node changed b live)
      unfolding claim_port
      Keeps-claim_port device node changed b live = search (keeps_rules, Keeps-attach_anew)

      Keeps-claim_device :
          (device : UsbDevice) (node : String) (changed : Bool) (before : Option Live)
          → Keeps P (claim_device device v node changed before)
      unfolding claim_device
      Keeps-claim_device device node changed before =
          search (keeps_rules, Keeps-read_live, Keeps-claim_port) depth 7

      Keeps-claim_under_guard :
          (device : UsbDevice) (node : String) (changed : Bool) (before : Option Live)
          → Keeps P (claim_under_guard device v node changed before)
      unfolding claim_under_guard
      Keeps-claim_under_guard device node changed before =
          search (step_rules, Keeps-configure, Keeps-release_interfaces, Keeps-claim_device) depth 7

      Keeps-attach_allowed : (device : UsbDevice) → Keeps P (attach_allowed device v)
      unfolding attach_allowed
      Keeps-attach_allowed device =
          search
            (
              keeps_rules,
              Keeps-preflight,
              Keeps-detach_one_usb c,
              Keeps-guarded,
              Keeps-claim_under_guard,
              Keeps-finish,
            )
            depth 9

    Keeps-is_absent : Keeps P (is_absent v)
    unfolding is_absent
    Keeps-is_absent = search step_rules

  -- Every VM that the rule allows is a target.
  module _ (device : UsbDevice) (r : RuleMatch)
      (targets : (v : Vm) → contains (allowed_vms r) v.name ≡ true → Target v) where
    Keeps-allowed :
        (name : String) (v : Vm)
        → vm d.config name ≡ ok v
        → contains (allowed_vms r) name ≡ true
        → Keeps P (attach_found device name v)
    unfolding attach_found
    Keeps-allowed name v found allowed =
        let target =
          targets v (ap (contains (allowed_vms r)) (vm-name d.config name v found) ∙ allowed) in
        Keeps-bind _ _ (Keeps-is_absent v (name, found)) λ absent.
          Keeps-if absent (bail _) _ (Keeps-bail _)
            (Keeps-attach_allowed v (name, found) target device)

    Keeps-attach_to : (name : String) → Keeps P (attach_to device r name)
    unfolding attach_to
    Keeps-attach_to name =
        Keeps-if_known (not (contains (allowed_vms r) name)) (bail _) _ (λ no. Keeps-bail _)
          λ fine. Keeps-bind_lift (vm d.config name) _ λ v found.
            Keeps-allowed name v found (ground (arith, Bool-cases (contains (allowed_vms r) name)))

    pub Keeps-attach_one_usb :
        (requested : Option String) → Keeps P (attach_one_usb device r requested)
    unfolding attach_one_usb
    Keeps-attach_one_usb requested = search (keeps_rules, Keeps-ask_for_vm, Keeps-attach_to)
