-- ===== src/State.antt =====
-- src/state.rs: what the manager remembers of devices, in memory and in its state file.
pub mod Marks
use ghaf_device_manager.Base.{
  ℕ, String, Bool, not, Option, List, [], ◌∷◌, ◌=s◌, ◌++◌, any, filter, if◌then◌else◌,
}
use ghaf_device_manager.Base.Sorted.{sort}
use ghaf_device_manager.Base.Dict
use ghaf_device_manager.Base.Dict.{Dict}

pub record UsbPortBinding : Type 0 where
  pub vm : String
  pub port : ℕ
  pub socket_generation : String
  pub vid : Option String
  pub pid : Option String
  pub serial : Option String

pub record PersistentState : Type 0 where
  pub selected_vms : Dict String
  pub disconnected_devices : List String
  pub crosvm_usb_ports : Dict UsbPortBinding

-- `PersistentState::default()`.
abbrev pub default_state : PersistentState
default_state = record { selected_vms = []; disconnected_devices = []; crosvm_usb_ports = [] }

pub record State : Type 0 where
  pub persistent : PersistentState
  pub usb_vms : Dict String
  pub pci_vms : Dict String
  pub enabled : Bool
  pub path : String

unfoldable pub disconnected : State → String → Bool
disconnected s id = any (λ item. item =s id) s.persistent.disconnected_devices

-- The list that `set_disconnected` leaves, before it is saved.
unfoldable pub mark : String → Bool → List String → List String
mark id value devices =
    let others = filter (λ item. not (item =s id)) devices in
    if value then sort (others ++ (id ∷ [])) else others

-- `set_disconnected` and `select_vm` without their call of `save`.
abbrev pub with_mark : String → Bool → State → State
with_mark id value s = record s {
  persistent = record s.persistent {
    disconnected_devices = mark id value s.persistent.disconnected_devices;
  };
}

abbrev pub with_selection : String → String → State → State
with_selection id vm s = record s {
  persistent = record s.persistent { selected_vms = Dict.insert s.persistent.selected_vms id vm };
}
