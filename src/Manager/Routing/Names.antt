-- ===== src/Manager/Routing/Names.antt =====
-- `usb_routing` of src/manager.rs: which devices stay without a host driver, and how long a verdict lasts.
use ghaf_device_manager.Base.{
  String, Bool, not, ◌&&◌, ◌||◌, ◌≡◌, refl, List, [], ◌∷◌, ◌=s◌, if◌then◌else◌, contains, any,
  arith,
}
use ghaf_device_manager.Base.Dict
use ghaf_device_manager.Base.Dict.{Dict, get-insert}
use ghaf_device_manager.Device.{UsbDevice, persistent_id}
use ghaf_device_manager.State.{State, disconnected}
use ghaf_device_manager.Machine.{Setup, Machine}
use ghaf_device_manager.Manager.Routing.{Routed, verdict, route, nothing_routed}

module _ ⦃d : Setup⦄ where
  abbrev pub is_kept : Dict Bool → State → String → UsbDevice → Bool
  is_kept cache state name device =
      device.sys_name =s name
      && (verdict cache device && not (disconnected state (persistent_id device)))

  names_lem :
      (cache : Dict Bool) (state : State) (r : Routed) (devices : List UsbDevice) (name : String)
      → contains (route cache state r devices).names name
        ≡ (any (is_kept cache state name) devices || contains r.names name)
  unfolding route
  names_lem cache state r [] name = refl
  names_lem cache state r (device ∷ rest) name =
      let id = persistent_id device in
      let matched = verdict cache device in
      let next : Routed = record {
        seen = Dict.insert r.seen id matched;
        names =
            if matched && not (disconnected state id) then device.sys_name ∷ r.names else r.names;
      } in
      ground (arith, names_lem cache state next rest name)

  -- `route`, from which `usb_routing` takes its result, gives a name exactly if one of the devices
  -- has it, its verdict is that a rule routes it, and the device is not marked as disconnected.
  pub contains-route :
      (devices : List UsbDevice) (s : Machine) (name : String)
      → contains (route s.usb_routing s.state nothing_routed devices).names name
        ≡ any (is_kept s.usb_routing s.state name) devices
  contains-route devices s name =
      ground (arith, names_lem s.usb_routing s.state nothing_routed devices name)
