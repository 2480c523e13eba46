-- ===== src/Cli/Selectors.antt =====
-- src/bin/ghaf-device.rs: the options that select a device, and the selectors of the API.
use ghaf_device_manager.Base.{
  ℕ, String, Bool, true, false, not, ◌&&◌, ◌||◌, ◌≡◌, refl, Option, none, some, is_some, arith,
}
use ghaf_device_manager.Protocol
use ghaf_device_manager.Protocol.{UsbSelector, PciSelector, default_selector, from_usb, from_pci}
use ghaf_device_manager.Manager.Select.{Selector}
pub mod Exact

pub record UsbSelectorArgs : Type 0 where
  pub device_node : Option String
  pub bus : Option ℕ
  pub port : Option ℕ
  pub vid : Option String
  pub pid : Option String
  pub tag : Option String

pub record PciSelectorArgs : Type 0 where
  pub address : Option String
  pub vid : Option String
  pub did : Option String
  pub tag : Option String

-- clap's `conflicts_with_all` and `requires`, on whether options are given.
abbrev conflicts : Bool → Bool → Bool
conflicts given others = given && others

abbrev lacks : Bool → Bool → Bool
lacks given required = given && not required

-- What clap lets through, by the attributes of the options.
unfoldable pub accepts_usb : UsbSelectorArgs → Bool
accepts_usb a =
    let node = is_some a.device_node in
    let bus = is_some a.bus in
    let port = is_some a.port in
    let vid = is_some a.vid in
    let pid = is_some a.pid in
    let tag = is_some a.tag in
    (node || bus || port || vid || pid || tag)
    && not (conflicts node (bus || port || vid || pid || tag))
    && not (lacks bus port)
    && not (conflicts bus (node || vid || pid || tag))
    && not (lacks port bus)
    && not (conflicts port (node || vid || pid || tag))
    && not (lacks vid pid)
    && not (conflicts vid (node || bus || port || tag))
    && not (lacks pid vid)
    && not (conflicts pid (node || bus || port || tag))
    && not (conflicts tag (node || bus || port || vid || pid))

unfoldable pub accepts_pci : PciSelectorArgs → Bool
accepts_pci a =
    let address = is_some a.address in
    let vid = is_some a.vid in
    let did = is_some a.did in
    let tag = is_some a.tag in
    (address || vid || did || tag)
    && not (conflicts address (vid || did || tag))
    && not (lacks vid did)
    && not (conflicts vid (address || tag))
    && not (lacks did vid)
    && not (conflicts did (address || tag))
    && not (conflicts tag (address || vid || did))

-- The conversions panic where no arm takes the options: `none`.
pair_of : Option ℕ → Option ℕ → Option UsbSelector → Option UsbSelector
pair_of (some bus) (some port) rest = some (UsbSelector.bus_port bus port)
pair_of (some bus) none rest = rest
pair_of none port rest = rest

ids_of : Option String → Option String → Option UsbSelector → Option UsbSelector
ids_of (some vid) (some pid) rest = some (UsbSelector.vid_pid vid pid)
ids_of (some vid) none rest = rest
ids_of none pid rest = rest

tag_of : Option String → Option UsbSelector
tag_of none = none
tag_of (some t) = some (UsbSelector.tag t)

unfoldable pub to_usb_selector : UsbSelectorArgs → Option UsbSelector
unfolding pair_of ids_of tag_of
to_usb_selector a =
    let rest = pair_of a.bus a.port (ids_of a.vid a.pid (tag_of a.tag)) in
    elim (a.device_node) [ none ↦ rest | some node ↦ some (UsbSelector.device_node node) ]

pci_ids_of : Option String → Option String → Option PciSelector → Option PciSelector
pci_ids_of (some vid) (some did) rest = some (PciSelector.vid_did vid did)
pci_ids_of (some vid) none rest = rest
pci_ids_of none did rest = rest

pci_tag_of : Option String → Option PciSelector
pci_tag_of none = none
pci_tag_of (some t) = some (PciSelector.tag t)

unfoldable pub to_pci_selector : PciSelectorArgs → Option PciSelector
unfolding pci_ids_of pci_tag_of
to_pci_selector a =
    let rest = pci_ids_of a.vid a.did (pci_tag_of a.tag) in
    elim (a.address) [ none ↦ rest | some address ↦ some (PciSelector.address address) ]
