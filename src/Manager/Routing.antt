-- ===== src/Manager/Routing.antt =====
-- `usb_routing` of src/manager.rs: the verdicts on USB devices, remembered from pass to pass.
pub mod Names
use ghaf_device_manager.Base.{
  String, Bool, true, false, not, ◌&&◌, ◌||◌, Option, List, [], ◌∷◌, if◌then◌else◌, is_some,
  unwrap_or,
}
use ghaf_device_manager.Base.Dict
use ghaf_device_manager.Base.Dict.{Dict}
use ghaf_device_manager.Device.{UsbDevice, persistent_id}
use ghaf_device_manager.Config.Usb.{usb_rule}
use ghaf_device_manager.State.{State, disconnected}
use ghaf_device_manager.Machine.{Setup, Machine}
use ghaf_device_manager.Machine.Monad.{M, pure, gets, modify, ◌>>=◌, ◌>>◌}

-- The verdicts of a pass, and the names of the devices that are to stay without a host driver.
pub record Routed : Type 0 where
  pub seen : Dict Bool
  pub names : List String

module _ ⦃d : Setup⦄ where
  unfoldable pub verdict : Dict Bool → UsbDevice → Bool
  verdict cache device =
      is_some (usb_rule d.world.matchers d.config device)
      || unwrap_or (Dict.get cache (persistent_id device)) false

  unfoldable pub route : Dict Bool → State → Routed → List UsbDevice → Routed
  route cache state r [] = r
  route cache state r (device ∷ rest) =
      let id = persistent_id device in
      let matched = verdict cache device in
      route cache state
        (record {
          seen = Dict.insert r.seen id matched;
          names =
              if matched && not (disconnected state id) then device.sys_name ∷ r.names else r.names;
        })
        rest

  abbrev pub nothing_routed : Routed
  nothing_routed = record { seen = []; names = [] }

  unfoldable pub usb_routing : List UsbDevice → M (List String)
  usb_routing devices = do
    r ← gets (λ s. route s.usb_routing s.state nothing_routed devices)
    modify (λ s. record s { usb_routing = r.seen })
    pure r.names
