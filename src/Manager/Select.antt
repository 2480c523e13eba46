-- ===== src/Manager/Select.antt =====
-- src/manager.rs: the devices that a rule routes, those that a request selects, and the listings.
use Prim.Native.String.{compare}
use text.Mathlib.Text.{is_le}
use ghaf_device_manager.Base.{
  ℕ, String, Bool, true, false, not, ◌&&◌, ◌||◌, Option, some, List, [], ◌∷◌, ◌==◌, if◌then◌else◌,
  ltb, is_some_and, is_empty, length, filter, filter_map, join, is_text, eq_ignore_ascii_case,
}
use ghaf_device_manager.Base.Dict
use ghaf_device_manager.Base.Sorted.{sort_by}
use ghaf_device_manager.Json.{and_then}
use ghaf_device_manager.Device.{UsbDevice, PciDevice, persistent_id, pci_persistent_id}
use ghaf_device_manager.Device.Usb.{scan_usb}
use ghaf_device_manager.Device.Pci.{scan_pci}
use ghaf_device_manager.Crosvm.Vfio.{iommu_group}
use ghaf_device_manager.Config.Types.{RuleMatch}
use ghaf_device_manager.Config.Usb.{usb_rule}
use ghaf_device_manager.Config.Pci.{pci_rule, allowed_vms}
use ghaf_device_manager.State.{State, disconnected}
use ghaf_device_manager.Machine.{Setup}
use ghaf_device_manager.Machine.Monad.{M, pure, bail, gets, ◌>>=◌, query, on_option}

pub record Selector : Type 0 where
  pub device_node : Option String
  pub bus : Option ℕ
  pub port : Option ℕ
  pub vid : Option String
  pub pid : Option String
  pub address : Option String
  pub did : Option String
  pub tag : Option String

-- `aggregate`.
unfoldable pub aggregate : List String → M (Unit {0})
aggregate failures = if is_empty failures then pure tt else bail (join "; " failures)

-- `a.as_deref().is_some_and(|value| b == Some(value))`.
abbrev pub meets : Option String → Option String → Bool
meets wanted actual = is_some_and wanted (is_text actual)

abbrev pub meets_number : Option ℕ → Option ℕ → Bool
meets_number wanted actual = is_some_and wanted (λ n. is_some_and actual (λ m. m == n))

abbrev pub meets_caseless : Option String → Option String → Bool
meets_caseless wanted actual =
    is_some_and wanted (λ w. is_some_and actual (λ a. eq_ignore_ascii_case a w))

unfoldable pub usb_selected : Selector → UsbDevice × RuleMatch → Bool
usb_selected s (device, rule) =
    meets s.device_node device.device_node
    || ((meets_number s.bus device.bus && meets_number s.port device.root_port)
        || ((meets_caseless s.vid device.vid && meets_caseless s.pid device.pid)
            || meets s.tag rule.tag))

unfoldable pub pci_selected : Selector → PciDevice × RuleMatch → Bool
pci_selected s (device, rule) =
    meets_caseless s.address (some device.address)
    || ((meets_caseless s.vid device.vendor_id_text && meets_caseless s.did device.device_id_text)
        || meets s.tag rule.tag)

-- The order of `pci_devices`: by the rules, then by the address.
unfoldable pub pci_le : PciDevice × RuleMatch → PciDevice × RuleMatch → Bool
pci_le (a, r) (b, q) =
    if ltb r.order q.order
    then true
    else if r.order == q.order
    then is_le (compare a.address b.address)
    else false

pub record UsbListDevice : Type 0 where
  pub device : UsbDevice
  pub allowed : List String
  pub vm : Option String
  pub disconnected : Bool

pub record PciListDevice : Type 0 where
  pub device : PciDevice
  pub allowed : List String
  pub vm : Option String
  pub disconnected : Bool

abbrev pub same_flag : Bool → Bool → Bool
same_flag true b = b
same_flag false b = not b

-- The two filters of a listing.
unfoldable pub is_listed : Option Bool → Option String → Bool → Option String → Bool
is_listed wanted tag is_disconnected rule_tag =
    not (is_some_and wanted (λ w. not (same_flag w is_disconnected)))
    && not (is_some_and tag (λ t. not (is_text rule_tag t)))

abbrev pub usb_entry : State → UsbDevice → RuleMatch → UsbListDevice
usb_entry state device rule = record {
  device = device;
  allowed = allowed_vms rule;
  vm = and_then device.device_node (Dict.get state.usb_vms);
  disconnected = disconnected state (persistent_id device);
}

unfoldable pub usb_entries :
    Option Bool → Option String → State → List (UsbDevice × RuleMatch) → List UsbListDevice
usb_entries wanted tag state [] = []
usb_entries wanted tag state ((device, rule) ∷ rest) =
    let others = usb_entries wanted tag state rest in
    let entry = usb_entry state device rule in
    if is_listed wanted tag entry.disconnected rule.tag then entry ∷ others else others

abbrev pub pci_entry : State → PciDevice → RuleMatch → PciListDevice
pci_entry state device rule = record {
  device = device;
  allowed = allowed_vms rule;
  vm = Dict.get state.pci_vms device.address;
  disconnected = disconnected state (pci_persistent_id device);
}

unfoldable pub pci_entries :
    Option Bool → Option String → State → List (PciDevice × RuleMatch) → List PciListDevice
pci_entries wanted tag state [] = []
pci_entries wanted tag state ((device, rule) ∷ rest) =
    let others = pci_entries wanted tag state rest in
    let entry = pci_entry state device rule in
    if is_listed wanted tag entry.disconnected rule.tag then entry ∷ others else others

module _ ⦃d : Setup⦄ where
  unfoldable pub scan : M (List UsbDevice)
  scan = query (λ f. scan_usb f d.world.hwdb d.usb_root)

  -- The devices that a rule routes, each with its match.
  unfoldable pub routed_devices : List UsbDevice → List (UsbDevice × RuleMatch)
  routed_devices devices =
      filter_map
        (λ device.
          and_then (usb_rule d.world.matchers d.config device) (λ rule. some (device, rule)))
        devices

  unfoldable pub usb_devices : M (List (UsbDevice × RuleMatch))
  usb_devices = do devices ← scan; pure (routed_devices devices)

  -- `rule.iommu_skip_if_shared && iommu_group(..)?.len() > 1`.
  unfoldable pub is_shared : PciDevice → RuleMatch → M Bool
  is_shared device rule =
      if rule.iommu_skip_if_shared
      then (do
        group ← query (λ f. iommu_group f device.address d.pci_root)
        pure (ltb 1 (length group)))
      else pure false

  abbrev pub add_unless :
      Bool → PciDevice × RuleMatch → List (PciDevice × RuleMatch) → List (PciDevice × RuleMatch)
  add_unless shared pair others = if shared then others else pair ∷ others

  unfoldable pub pci_matching : List PciDevice → M (List (PciDevice × RuleMatch))
  pci_matching [] = pure []
  pci_matching (device ∷ rest) =
      let others = pci_matching rest in
      on_option (pci_rule d.config device) others λ rule. do
        shared ← is_shared device rule
        found ← others
        pure (add_unless shared (device, rule) found)

  unfoldable pub pci_devices : M (List (PciDevice × RuleMatch))
  pci_devices = do
    devices ← query (λ f. scan_pci f d.pci_root)
    found ← pci_matching devices
    pure (sort_by pci_le found)

  unfoldable pub selected_usb : Selector → M (List (UsbDevice × RuleMatch))
  selected_usb selector = do
    devices ← usb_devices
    let result = filter (usb_selected selector) devices
    if is_empty result then bail "no matching USB device found" else pure result

  unfoldable pub selected_pci : Selector → M (List (PciDevice × RuleMatch))
  selected_pci selector = do
    devices ← pci_devices
    let result = filter (pci_selected selector) devices
    if is_empty result then bail "no matching PCI device found" else pure result

  unfoldable pub usb_list : Option Bool → Option String → M (List UsbListDevice)
  usb_list wanted tag = do devices ← usb_devices; gets (λ s. usb_entries wanted tag s.state devices)

  unfoldable pub pci_list : Option Bool → Option String → M (List PciListDevice)
  pci_list wanted tag = do devices ← pci_devices; gets (λ s. pci_entries wanted tag s.state devices)
