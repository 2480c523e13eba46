-- ===== src/Config/Types.antt =====
-- src/config.rs: the configuration as it is read, and the parameters of rule matching.
use ghaf_device_manager.Base.{ℕ, String, Bool, not, Option, none, some, List, is_some_and}
use ghaf_device_manager.Json.{Value}

pub record UsbAuthorization : Type 0 where
  pub enable : Option Bool
  pub disable : Option Bool
  pub deauthorize_unmatched : Bool
  pub host_allow : List Value

-- `UsbAuthorization::enabled`.
unfoldable pub authorization_enabled : UsbAuthorization → Bool
authorization_enabled a = elim a.enable [ some e ↦ e | none ↦ is_some_and a.disable not ]

pub data VmType : Type 0 where
  crosvm qemu other : VmType

pub record Vm : Type 0 where
  pub name : String
  pub vm_type : VmType
  pub socket : String

pub data ApiTransport : Type 0 where
  unix tcp vsock : ApiTransport

pub record Api : Type 0 where
  pub enable : Bool
  pub transports : List ApiTransport
  pub host : String
  pub tcp_port : ℕ
  pub vsock_port : ℕ
  pub port : Option ℕ
  pub allowed_cids : List ℕ
  pub unix_socket : String
  pub unix_socket_user : Option String
  pub unix_socket_group : Option String
  pub unix_socket_mode : Option String

pub record General : Type 0 where
  pub persistency : Bool
  pub state_path : String
  pub crosvm : String
  pub modprobe : String
  pub modinfo : String
  pub api : Api

-- Its field `driver_cache` is an argument of the lookups in Config/Load.
pub record Config : Type 0 where
  pub usb_passthrough : List Value
  pub usb_authorization : UsbAuthorization
  pub pci_passthrough : List Value
  pub evdev_passthrough : List Value
  pub acpi_passthrough : List Value
  pub vms : List Vm
  pub general : General

pub record RuleMatch : Type 0 where
  pub target_vm : Option String
  pub allowed_vms : List String
  pub skip_on_suspend : Bool
  pub iommu_add_all : Bool
  pub iommu_skip_if_shared : Bool
  pub crosvm_use_root_bus : Bool
  pub tag : Option String
  pub order : ℕ

-- What the rules ask of other programs: the regex crate, case-insensitive (`none` where the pattern
-- does not build), and the paths that modprobe and modinfo report for a modalias, which the cache in
-- the configuration keeps.
pub record Matchers : Type 0 where
  pub build_regex : String → Option (String → Bool)
  pub module_paths : String → List String
