-- ===== src/Invariant/Gate.antt =====
-- The gate's passes over the USB devices keep a closed invariant.
use ghaf_device_manager.Base.{
  String, Bool, true, false, Option, none, some, List, refl, contains, ◌||◌,
}
use ghaf_device_manager.Base.Outcome.{Result, ok, err}
use ghaf_device_manager.Device.{UsbDevice, is_hub}
use ghaf_device_manager.Config.Types.{Vm}
use ghaf_device_manager.Config.Usb.{usb_authorization_host_allowed}
use ghaf_device_manager.Config.Pci.{routes_usb}
use ghaf_device_manager.State.{State}
use ghaf_device_manager.UsbGate.{releasable, release}
use ghaf_device_manager.Machine.{Setup, Machine}
use ghaf_device_manager.Machine.Monad.{M, pure}
use ghaf_device_manager.Machine.Rules.{
  Keeps, Keeps-bind, Keeps-then, Keeps-if, Keeps-pure, Keeps-gets, Keeps-on_option, Keeps-when,
  Keeps-each, Keeps-warned, Keeps-in_context,
}
use ghaf_device_manager.Manager.Detach.{authorizing}
use ghaf_device_manager.Manager.Routing.{usb_routing}
use ghaf_device_manager.Manager.Gate.{
  is_held, is_refused, authorize_one, authorize_usb_for_host, deauthorize_one,
  deauthorize_unmatched_usb, close_usb_gate, enable_usb_authorization, probe_if_unbound,
  each_listed, each_interface, usb_held_by_vms, hand_back, reopen, open_usb_gate, configure_device,
  settle, settle_interface, settle_device, settle_bus, apply_usb_gate,
}
use ghaf_device_manager.Invariant.{Closed}
use ghaf_device_manager.Invariant.Steps.{
  step_rules, Keeps-look, Keeps-query, Keeps-probe, Keeps-release, Keeps-authorize, Keeps-close,
  Keeps-open_bus, Keeps-fields, Keeps-set_authorized_default,
}
use ghaf_device_manager.Invariant.Pci.{Keeps-scan}

module _ ⦃d : Setup⦄ {Target : Vm → Type 0} {P : Machine → Type 0} (c : Closed Target P) where
  pub Keeps-close_usb_gate : Keeps P close_usb_gate
  unfolding close_usb_gate
  Keeps-close_usb_gate = Keeps-bind _ _ (Keeps-look c _) λ bus.
      Keeps-on_option bus _ _ (Keeps-pure false) λ b.
        Keeps-if (routes_usb d.config) _ (pure false)
          (Keeps-then _ _ (Keeps-close c b) (Keeps-pure true)) (Keeps-pure false)

  Keeps-is_refused : (name : String) → Keeps P (is_refused name)
  unfolding is_refused
  Keeps-is_refused name = search step_rules

  Keeps-authorize_one : (device : UsbDevice) → Keeps P (authorize_one device)
  unfolding authorize_one
  Keeps-authorize_one device = Keeps-when _ _ (
      Keeps-bind _ _ (Keeps-look c _)
        λ refused. Keeps-when refused _ (Keeps-warned _ (Keeps-authorize c _ _ _)))

  pub Keeps-authorize_usb_for_host : Keeps P authorize_usb_for_host
  unfolding authorize_usb_for_host
  Keeps-authorize_usb_for_host =
      Keeps-when _ _ (Keeps-bind _ _ (Keeps-scan c) λ devices. Keeps-each _ _ Keeps-authorize_one)

  pub Keeps-enable_usb_authorization : Keeps P enable_usb_authorization
  unfolding enable_usb_authorization
  Keeps-enable_usb_authorization =
      Keeps-if authorizing _ (pure false)
        (Keeps-then _ _ (Keeps-set_authorized_default c _ _)
          (Keeps-then _ _ Keeps-authorize_usb_for_host (Keeps-pure true)))
        (Keeps-pure false)

  Keeps-deauthorize_one :
      (state : State) (device : UsbDevice) → Keeps P (deauthorize_one state device)
  unfolding deauthorize_one
  Keeps-deauthorize_one state device =
      let exempt =
        is_hub device
        || (is_held state device
            || usb_authorization_host_allowed d.world.matchers d.config device) in
      Keeps-if exempt (pure tt) _ (Keeps-pure tt) (
        Keeps-bind _ _ (Keeps-look c _)
          λ granted. Keeps-when granted _ (Keeps-in_context _ _ (Keeps-authorize c _ _ _)))

  pub Keeps-deauthorize_unmatched_usb : Keeps P deauthorize_unmatched_usb
  unfolding deauthorize_unmatched_usb
  Keeps-deauthorize_unmatched_usb = Keeps-when _ _ (
      Keeps-bind _ _ (Keeps-scan c) λ devices.
        Keeps-bind _ _ (Keeps-gets _) λ state. Keeps-each _ _ (Keeps-deauthorize_one state))

  Keeps-probe_if_unbound : (bus name : String) → Keeps P (probe_if_unbound bus name)
  unfolding probe_if_unbound
  Keeps-probe_if_unbound bus name =
      Keeps-bind _ _ (Keeps-look c _) λ bound. Keeps-when _ _ (Keeps-warned _ (Keeps-probe c _ _))

  Keeps-each_listed :
      (listed : Result (List String)) (f : String → M (Unit {0}))
      → ((x : String) → Keeps P (f x))
      → Keeps P (each_listed listed f)
  unfolding each_listed
  Keeps-each_listed (ok names) f k = Keeps-each _ _ k
  Keeps-each_listed (err e) f k = Keeps-pure tt

  Keeps-each_interface :
      (name : String) (f : String → M (Unit {0}))
      → ((x : String) → Keeps P (f x))
      → Keeps P (each_interface name f)
  unfolding each_interface
  Keeps-each_interface name f k =
      Keeps-bind _ _ (Keeps-look c _) λ listed. Keeps-each_listed listed f k

  Keeps-usb_held_by_vms : Keeps P usb_held_by_vms
  unfolding usb_held_by_vms
  Keeps-usb_held_by_vms = Keeps-bind _ _ (Keeps-look c _) λ devices. Keeps-gets _

  Keeps-hand_back :
      (bus : String) (held : List String) (name : String) → Keeps P (hand_back bus held name)
  unfolding hand_back
  Keeps-hand_back bus held name = Keeps-if (contains held name) (pure tt) _ (Keeps-pure tt) (
      Keeps-bind _ _ (Keeps-is_refused name) λ refused. Keeps-when _ _ (
        Keeps-then _ _ (Keeps-probe_if_unbound bus name)
          (Keeps-each_interface name _ (Keeps-probe_if_unbound bus))))

  Keeps-reopen : (bus : String) → Keeps P (reopen bus)
  unfolding reopen
  Keeps-reopen bus = Keeps-bind _ _ Keeps-usb_held_by_vms λ held.
      Keeps-then _ _ (Keeps-open_bus c bus)
        (Keeps-bind _ _ (Keeps-query c _) λ names. Keeps-each _ _ (Keeps-hand_back bus held))

  pub Keeps-open_usb_gate : Keeps P open_usb_gate
  unfolding open_usb_gate
  Keeps-open_usb_gate = Keeps-bind _ _ (Keeps-look c _) λ bus.
      Keeps-on_option bus _ _ (Keeps-pure tt) λ b.
        Keeps-when _ _ (Keeps-bind _ _ (Keeps-look c _) λ shut. Keeps-when shut _ (Keeps-reopen b))

  Keeps-configure_device : (bus name : String) → Keeps P (configure_device bus name)
  unfolding configure_device
  Keeps-configure_device bus name =
      Keeps-bind _ _ (Keeps-is_refused name)
        λ refused. Keeps-when _ _ (Keeps-probe_if_unbound bus name)

  Keeps-settle :
      (bus : String) (is_routed : Bool) (interface : String) (bound : Option String)
      → Keeps P (settle bus is_routed interface bound)
  unfolding settle
  Keeps-settle bus true interface (some name) =
      Keeps-if (releasable name) (release d.usb_root interface) (pure tt) (Keeps-release c _ _)
        (Keeps-pure tt)
  Keeps-settle bus true interface none = Keeps-pure tt
  Keeps-settle bus false interface (some name) = Keeps-pure tt
  Keeps-settle bus false interface none = Keeps-probe c bus interface

  Keeps-settle_device :
      (bus : String) (routed : List String) (name : String)
      → Keeps P (settle_device bus routed name)
  unfolding settle_device settle_interface
  Keeps-settle_device bus routed name = Keeps-each_interface name _ λ interface.
      Keeps-bind _ _ (Keeps-look c _) λ bound. Keeps-warned _ (Keeps-settle bus _ interface bound)

  Keeps-usb_routing : (devices : List UsbDevice) → Keeps P (usb_routing devices)
  unfolding usb_routing
  Keeps-usb_routing devices =
      Keeps-bind _ _ (Keeps-gets _)
        λ r. Keeps-then _ _ (Keeps-fields c _ (λ t. (refl, refl))) (Keeps-pure _)

  Keeps-settle_bus : (bus : String) → Keeps P (settle_bus bus)
  unfolding settle_bus
  Keeps-settle_bus bus = Keeps-bind _ _ (Keeps-query c _) λ names.
      Keeps-then _ _ (Keeps-each _ _ (Keeps-configure_device bus)) (
        Keeps-bind _ _ (Keeps-scan c) λ devices.
          Keeps-bind _ _ (Keeps-usb_routing devices) λ routed.
            Keeps-bind _ _ (Keeps-query c _)
              λ again. Keeps-each _ _ (Keeps-settle_device bus routed))

  pub Keeps-apply_usb_gate : Keeps P apply_usb_gate
  unfolding apply_usb_gate
  Keeps-apply_usb_gate = Keeps-bind _ _ (Keeps-look c _) λ bus.
      Keeps-then _ _ (Keeps-when _ _ (Keeps-on_option bus _ _ (Keeps-pure tt) (Keeps-close c))) (
        Keeps-then _ _ Keeps-authorize_usb_for_host
          (Keeps-when _ _ (Keeps-on_option bus _ _ (Keeps-pure tt) Keeps-settle_bus)))
