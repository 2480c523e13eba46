-- ===== src/Tests.antt =====
-- A small system: one VM, one routed USB device and a Crosvm that answers with fixed texts.
mod Client
mod Server
mod Witnesses
mod Devices
use ghaf_device_manager.Base.{ℕ, String, Bool, true, false, Option, none, some, List, [], ◌∷◌}
use ghaf_device_manager.Base.Outcome.{Result, ok, err, said}
use ghaf_device_manager.Files.{Files}
use ghaf_device_manager.Json
use ghaf_device_manager.Json.{Value}
use ghaf_device_manager.Device.{UsbDevice, PciDevice}
use ghaf_device_manager.Device.Storage.{BlockDevice}
use ghaf_device_manager.Config.Types.{
  UsbAuthorization, VmType, Vm, ApiTransport, Api, General, Config, RuleMatch, Matchers,
}
use ghaf_device_manager.State.{State, PersistentState, default_state}
use ghaf_device_manager.Machine.{Output, exited, World, Setup, Machine, write}
use ghaf_device_manager.Manager.Claim.{Claimed}

abbrev pub net_vm : Vm
net_vm = record { name = "net-vm"; vm_type = VmType.crosvm; socket = "/run/net.sock" }

-- Every path exists, and none can be read.
abbrev pub bare_files : Files
bare_files = record {
  exists = λ path. true;
  is_file = λ path. false;
  read = λ path. err (said "unreadable");
  read_bytes = λ path. err (said "unreadable");
  read_dir = λ path. ok [];
  read_link = λ path. err (said "no link");
  canonicalize = λ path. err (said "no path");
  metadata = λ path. none;
}

abbrev matchers : Matchers
matchers = record { build_regex = λ pattern. none; module_paths = λ modalias. [] }

-- Crosvm prints `reply`, and every call succeeds.
abbrev pub world : String → World
world reply = record {
  files = λ t. bare_files;
  call = λ t c. none;
  run = λ t program args deadline. ok (record { status = exited 0; stdout = reply; stderr = "" });
  encode = λ p. ok "{}";
  decode = λ text. err (said "no state");
  debug = λ text. text;
  hwdb = none;
  input_devices = λ t. ok [];
  users = λ name. ok none;
  groups = λ name. ok none;
  matchers = matchers;
}

abbrev api : Api
api = record {
  enable = true;
  transports = ApiTransport.unix ∷ [];
  host = "127.0.0.1";
  tcp_port = 2000;
  vsock_port = 2000;
  port = none;
  allowed_cids = 2 ∷ [];
  unix_socket = "/run/devices.sock";
  unix_socket_user = none;
  unix_socket_group = none;
  unix_socket_mode = none;
}

abbrev general : General
general = record {
  persistency = true;
  state_path = "/var/lib/devices.json";
  crosvm = "crosvm";
  modprobe = "modprobe";
  modinfo = "modinfo";
  api = api;
}

-- `{"targetVm": "net-vm", "allow": [{"bus": 1, "port": 2}]}`.
abbrev pub usb_rule_value : Value
usb_rule_value = Json.object (
    Json.field "targetVm" (Json.string "net-vm") (
      Json.field "allow"
        (Json.array (
          Json.item
            (Json.object
              (Json.field "bus" (Json.number 1) (Json.field "port" (Json.number 2) Json.end)))
            Json.nil))
        Json.end))

-- `{"targetVm": "net-vm", "allow": [{"address": "0000:00:1f.3"}]}`.
abbrev pub pci_rule_value : Value
pci_rule_value = Json.object (
    Json.field "targetVm" (Json.string "net-vm") (
      Json.field "allow"
        (Json.array (
          Json.item (Json.object (Json.field "address" (Json.string "0000:00:1f.3") Json.end))
            Json.nil))
        Json.end))

abbrev pub config : Config
config = record {
  usb_passthrough = usb_rule_value ∷ [];
  usb_authorization = record {
    enable = some true;
    disable = none;
    deauthorize_unmatched = true;
    host_allow = [];
  };
  pci_passthrough = pci_rule_value ∷ [];
  evdev_passthrough = [];
  acpi_passthrough = [];
  vms = net_vm ∷ [];
  general = general;
}

abbrev pub system : String → Setup
system reply = record {
  world = world reply;
  config = config;
  usb_root = "/sys/bus/usb/devices";
  pci_root = "/sys/bus/pci/devices";
}

abbrev pub mouse : UsbDevice
mouse = record {
  sys_name = "1-2";
  device_node = some "/dev/bus/usb/001/002";
  bus = some 1;
  port = some 2;
  root_port = some 2;
  vid = some "046d";
  pid = some "c52b";
  vendor_name = none;
  product_name = none;
  serial = none;
  removable = none;
  device_class = some 0;
  device_subclass = none;
  device_protocol = none;
  interfaces_text = none;
  interfaces = [];
  driver_paths = [];
  modaliases = [];
}

abbrev pub sound_card : PciDevice
sound_card = record {
  address = "0000:00:1f.3";
  driver = none;
  vendor_id = none;
  device_id = none;
  vendor_id_text = none;
  device_id_text = none;
  vendor_name = none;
  device_name = none;
  class = none;
  subclass = none;
  prog_if = none;
  pci_subsystem_vendor_id = none;
  pci_subsystem_id = none;
}

abbrev pub net_rule : RuleMatch
net_rule = record {
  target_vm = some "net-vm";
  allowed_vms = [];
  skip_on_suspend = false;
  iommu_add_all = true;
  iommu_skip_if_shared = false;
  crosvm_use_root_bus = false;
  tag = none;
  order = 0;
}

abbrev pub start_state : State
start_state = record {
  persistent = default_state;
  usb_vms = [];
  pci_vms = [];
  enabled = true;
  path = "/var/lib/devices.json";
}

abbrev pub start : Machine
start = record {
  trace = [];
  state = start_state;
  observed_usb = [];
  observed_pci = [];
  pending_usb_selection = [];
  usb_routing = [];
  reported_usb_hubs = [];
  deferred = false;
}

abbrev pub claimed : Claimed
claimed = record { port = 3; stale = none; changed = true; socket_generation = "" }

abbrev pub disk : String → List String → BlockDevice
disk name slaves = record {
  name = name;
  device_id = name;
  sys_path = "/sys/block";
  slaves = slaves;
  has_holders = false;
}
