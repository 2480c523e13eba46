-- ===== src/Config/Rules.antt =====
-- `usb_rule`, `pci_rule` and `validate` of src/config.rs: what they promise their callers.
use ghaf_device_manager.Base.{
  ℕ, suc, ◌≤◌, ◌<◌, ◌+◌, String, true, false, not, ◌≡◌, sym, ap, ◌∙◌, some, List, [], ◌∷◌, ◌++◌,
  arith, any, is_empty, ◌=s◌, is_some, length, find, eq_refl, Option-cases, Bool-cases, find_map,
  inl, inr,
}
use ghaf_device_manager.Base.Outcome.{ok, or_error}
use ghaf_device_manager.Base.Dict
use ghaf_device_manager.Base.Dict.{Dict, get-insert}
use ghaf_device_manager.Json.{Value, str_at, array_at}
use ghaf_device_manager.Device.{UsbDevice, PciDevice}
use ghaf_device_manager.Config.Types.{Vm, Config, RuleMatch, Matchers}
use ghaf_device_manager.Config.Selectors.{enabled, rule_matches, entries, string_list}
use ghaf_device_manager.Config.Usb.{usb_rule_match, usb_rule}
use ghaf_device_manager.Config.Pci.{
  allow_scan, pci_match, pci_applies, pci_rule_from, pci_rule, routes_usb, allowed_vms,
}
use ghaf_device_manager.Config.Vms.{vm, check_vms, validate, is_crosvm}

module _ (x : Matchers) (device : UsbDevice) where
  usb_rule_match-enabled :
      (rule : Value) (r : RuleMatch)
      → usb_rule_match x device rule ≡ some r
      → (enabled rule ≡ true) × (is_empty (allowed_vms r) ≡ false)
  unfolding usb_rule_match rule_matches allowed_vms
  usb_rule_match-enabled rule r h = ground (
    arith,
    Bool-cases (enabled rule),
    Option-cases (str_at rule "targetVm"),
    Bool-cases (is_empty (string_list rule "allowedVms")),
  )

  find_map-enabled :
      (rules : List Value) (r : RuleMatch)
      → find_map (usb_rule_match x device) rules ≡ some r
      → (any enabled rules ≡ true) × (is_empty (allowed_vms r) ≡ false)
  find_map-enabled [] r h = cc
  find_map-enabled (rule ∷ rules) r h = elim (Option-cases (usb_rule_match x device rule)) [
    | inl fails ↦ ground (arith, find_map-enabled rules r)
    | inr (q, e) ↦ ground (arith, usb_rule_match-enabled rule q)
  ]

  -- Where a rule routes a USB device, the configuration has an enabled USB rule, and the match
  -- allows one VM at least.
  pub usb_rule-routes_usb :
      (c : Config) (r : RuleMatch)
      → usb_rule x c device ≡ some r
      → (routes_usb c ≡ true) × (is_empty (allowed_vms r) ≡ false)
  unfolding usb_rule routes_usb
  usb_rule-routes_usb c r h = find_map-enabled c.usb_passthrough r h

contains_key-fresh :
    (names : Dict String) (before after : List Vm) (v : Vm)
    → check_vms names (before ++ (v ∷ after)) ≡ ok tt
    → Dict.contains_key names v.name ≡ false
unfolding check_vms
contains_key-fresh names [] after v h = ground (arith, Bool-cases (Dict.contains_key names v.name))
contains_key-fresh names (w ∷ before) after v h = ground (
  arith,
  contains_key-fresh (Dict.insert names w.name w.socket) before after v,
  get-insert names w.name w.socket v.name,
)

find-checked :
    (names : Dict String) (before after : List Vm) (v : Vm)
    → check_vms names (before ++ (v ∷ after)) ≡ ok tt
    → find (λ (w : Vm). w.name =s v.name) (before ++ (v ∷ after)) ≡ some v
unfolding check_vms
find-checked names [] after v h = ground (arith, eq_refl v.name)
find-checked names (w ∷ before) after v h = ground (
  arith,
  find-checked (Dict.insert names w.name w.socket) before after v,
  contains_key-fresh (Dict.insert names w.name w.socket) before after v,
  get-insert names w.name w.socket v.name,
)

validate-check_vms : (c : Config) → validate c ≡ ok tt → check_vms [] c.vms ≡ ok tt
unfolding validate
validate-check_vms c h =
    ground (arith, Bool-cases (any (λ (v : Vm). not (is_crosvm v.vm_type)) c.vms))

-- In a configuration that `validate` accepts each VM is the one that its name finds.
pub validate-vm :
    (c : Config) (before after : List Vm) (v : Vm)
    → validate c ≡ ok tt
    → c.vms ≡ before ++ (v ∷ after)
    → vm c v.name ≡ ok v
unfolding vm
validate-vm c before after v h split =
    let checked = ap (check_vms []) (sym split) ∙ validate-check_vms c h in
    let found =
      ap (find (λ (w : Vm). w.name =s v.name)) split ∙ find-checked [] before after v checked in
    ap (or_error _) found

allow_scan-bounds :
    (order : ℕ) (allows : List Value) (device : PciDevice)
    → (order ≤ (allow_scan order allows device).0)
      × (((allow_scan order allows device).0 ≤ order + length allows)
          × ((allow_scan order allows device).1 ≡ true
              → order < (allow_scan order allows device).0))
allow_scan-bounds order [] device = ground arith
allow_scan-bounds order (a ∷ allows) device =
    ground (arith, allow_scan-bounds (suc order) allows device)

pci_rule_from-bounds :
    (order : ℕ) (rules : List Value) (device : PciDevice) (r : RuleMatch)
    → pci_rule_from order rules device ≡ some r
    → (order < r.order) × (is_some r.target_vm ≡ true)
unfolding pci_rule_from pci_match
pci_rule_from-bounds order [] device r h = cc
pci_rule_from-bounds order (rule ∷ rules) device r h =
    let scanned = allow_scan order (entries (array_at rule "allow")) device in
    ground (
      arith,
      Bool-cases (enabled rule),
      Bool-cases (pci_applies rule device scanned.1),
      Bool-cases scanned.1,
      allow_scan-bounds order (entries (array_at rule "allow")) device,
      pci_rule_from-bounds order rules device r,
      pci_rule_from-bounds scanned.0 rules device r,
    )

-- The rule that a PCI device meets names the VM that gets it, and its order counts from 1.
pub pci_rule-bounds :
    (c : Config) (device : PciDevice) (r : RuleMatch)
    → pci_rule c device ≡ some r
    → (0 < r.order) × (is_some r.target_vm ≡ true)
unfolding pci_rule
pci_rule-bounds c device r h = pci_rule_from-bounds 0 c.pci_passthrough device r h
