-- ===== src/Device.antt =====
-- src/device.rs: the devices as the scans describe them.
pub mod Descriptors
pub mod Interfaces
pub mod Usb
pub mod Storage
pub mod Pci
use ghaf_device_manager.Base.{
  ℕ, String, Bool, ◌||◌, Option, List, ◌==◌, ◌<>◌, any, is_some_and, unwrap_or,
}

pub record UsbInterface : Type 0 where
  pub class : Option ℕ
  pub subclass : Option ℕ
  pub protocol : Option ℕ

pub record UsbDevice : Type 0 where
  pub sys_name : String
  pub device_node : Option String
  pub bus : Option ℕ
  pub port : Option ℕ
  pub root_port : Option ℕ
  pub vid : Option String
  pub pid : Option String
  pub vendor_name : Option String
  pub product_name : Option String
  pub serial : Option String
  pub removable : Option String
  pub device_class : Option ℕ
  pub device_subclass : Option ℕ
  pub device_protocol : Option ℕ
  pub interfaces_text : Option String
  pub interfaces : List UsbInterface
  pub driver_paths : List String
  pub modaliases : List String

abbrev part : Option String → String
part o = unwrap_or o "None"

unfoldable pub persistent_id : UsbDevice → String
persistent_id d = "usb-" <> (part d.vid <> (":" <> (part d.pid <> (":" <> part d.serial))))

abbrev is_nine : Option ℕ → Bool
is_nine c = is_some_and c (λ n. n == 9)

unfoldable pub is_hub : UsbDevice → Bool
is_hub d = is_nine d.device_class || any (λ (i : UsbInterface). is_nine i.class) d.interfaces

pub record PciDevice : Type 0 where
  pub address : String
  pub driver : Option String
  pub vendor_id : Option ℕ
  pub device_id : Option ℕ
  pub vendor_id_text : Option String
  pub device_id_text : Option String
  pub vendor_name : Option String
  pub device_name : Option String
  pub class : Option ℕ
  pub subclass : Option ℕ
  pub prog_if : Option ℕ
  pub pci_subsystem_vendor_id : Option String
  pub pci_subsystem_id : Option String

unfoldable pub pci_persistent_id : PciDevice → String
pci_persistent_id d = "pci-" <> d.address
