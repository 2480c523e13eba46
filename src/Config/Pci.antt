-- ===== src/Config/Pci.antt =====
-- src/config.rs: the rule that a PCI device meets, and the VMs that a rule allows.
use ghaf_device_manager.Base.{
  ℕ, suc, String, Bool, true, false, not, ◌&&◌, Option, none, some, List, [], ◌∷◌, if◌then◌else◌,
  is_some, any, is_text,
}
use ghaf_device_manager.Json.{Value, str_at, array_at}
use ghaf_device_manager.Device.{PciDevice}
use ghaf_device_manager.Config.Types.{Config, RuleMatch}
use ghaf_device_manager.Config.Selectors.{enabled, entries, bool_value, pci_selector_matches}

-- The loop over `allow`: the count of entries looked at, and whether one matched.
abbrev pub allow_scan : ℕ → List Value → PciDevice → ℕ × Bool
allow_scan order [] device = (order, false)
allow_scan order (allow ∷ allows) device =
    let rest = allow_scan (suc order) allows device in
    if pci_selector_matches allow device then (suc order, true) else rest

unfoldable pub pci_match : Value → ℕ → RuleMatch
pci_match rule order = record {
  target_vm = str_at rule "targetVm";
  allowed_vms = [];
  skip_on_suspend = bool_value rule "skipOnSuspend";
  iommu_add_all = bool_value rule "pciIommuAddAll";
  iommu_skip_if_shared = bool_value rule "pciIommuSkipIfShared";
  crosvm_use_root_bus = bool_value rule "crosvmUseRootBus";
  tag = str_at rule "tag";
  order = order;
}

-- Whether a rule gives the device to a VM, once its `allow` list has been looked at.
abbrev pub pci_applies : Value → PciDevice → Bool → Bool
pci_applies rule device hit =
    hit
    && (not (any (λ deny. pci_selector_matches deny device) (entries (array_at rule "deny")))
        && is_some (str_at rule "targetVm"))

unfoldable pub pci_rule_from : ℕ → List Value → PciDevice → Option RuleMatch
pci_rule_from order [] device = none
pci_rule_from order (rule ∷ rules) device =
    let skipped = pci_rule_from order rules device in
    let (order', hit) = allow_scan order (entries (array_at rule "allow")) device in
    let rest = pci_rule_from order' rules device in
    if enabled rule
    then (if pci_applies rule device hit then some (pci_match rule order') else rest)
    else skipped

unfoldable pub pci_rule : Config → PciDevice → Option RuleMatch
unfolding pci_rule_from pci_match
pci_rule c device = pci_rule_from 0 c.pci_passthrough device

unfoldable pub routes_usb : Config → Bool
routes_usb c = any enabled c.usb_passthrough

unfoldable pub has_pci_rules : Config → String → Bool
has_pci_rules c vm =
    any (λ rule. enabled rule && is_text (str_at rule "targetVm") vm) c.pci_passthrough

-- `allowed_vms` of src/manager.rs.
unfoldable pub allowed_vms : RuleMatch → List String
allowed_vms rule = elim rule.target_vm [
  | none ↦ rule.allowed_vms
  | some target ↦ target ∷ rule.allowed_vms
]
