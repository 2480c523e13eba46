-- ===== src/Config/Selectors.antt =====
-- src/config.rs: the tests on one JSON selector.
use ghaf_device_manager.Base.{
  ℕ, String, Bool, true, false, not, ◌&&◌, Option, none, some, List, [], ◌==◌, ◌<>◌, if◌then◌else◌,
  is_some, is_some_and, unwrap_or, any, filter_map, eq_ignore_ascii_case, from_str_radix, trim_hex,
  ◌^◌, ◌-◌,
}
use ghaf_device_manager.Json
use ghaf_device_manager.Json.{Value, get, as_str, str_at, u64_at, bool_at, array_at, and_then}
use ghaf_device_manager.Device.{UsbDevice, UsbInterface, PciDevice}

abbrev pub is_object : Value → Bool
is_object (Json.object fs) = true
is_object v = false

unfoldable pub enabled : Value → Bool
enabled value =
    if is_object value
    then elim (get value "disable") [
      | some disable ↦ not (unwrap_or (Json.as_bool disable) false)
      | none ↦ unwrap_or (bool_at value "enable") true
    ]
    else false

-- `into_iter().flatten()` over an optional list.
abbrev pub entries : Option (List Value) → List Value
entries none = []
entries (some vs) = vs

unfoldable pub string_list : Value → String → List String
string_list value key = filter_map as_str (entries (array_at value key))

unfoldable pub bool_value : Value → String → Bool
bool_value value key = unwrap_or (bool_at value key) false

unfoldable pub case_eq : Option String → Option String → Bool
case_eq none b = false
case_eq (some a) none = false
case_eq (some a) (some b) = eq_ignore_ascii_case a b

abbrev pub anchored : String → String
anchored pattern = "^(?:" <> (pattern <> ")")

abbrev pub same_number : Option ℕ → Option ℕ → Bool
same_number none none = true
same_number none (some n) = false
same_number (some m) none = false
same_number (some m) (some n) = m == n

-- `is_none_or(|v| Some(v) == field)`.
abbrev pub unless_given : Option ℕ → Option ℕ → Bool
unless_given none field = true
unless_given (some v) field = same_number (some v) field

-- `u32::from_str_radix(text.trim_start_matches("0x"), 16).ok()`.
unfoldable pub hex : Option String → Option ℕ
hex value = and_then value (λ text. from_str_radix 16 (2 ^ 32 - 1) (trim_hex text))

-- The `removable` list of a selector, where it has one, does not name the device's attribute.
unfoldable pub removable_excludes : Value → UsbDevice → Bool
removable_excludes selector device = is_some_and (array_at selector "removable") λ values. not (
    any (λ value. is_some_and device.removable (λ actual. eq_ignore_ascii_case actual value))
      (filter_map as_str values))

unfoldable pub interface_matches : Value → UsbInterface → Bool
interface_matches selector interface =
    let class = u64_at selector "interfaceClass" in
    is_some class
    && (same_number class interface.class
        && (unless_given (u64_at selector "interfaceSubclass") interface.subclass
            && unless_given (u64_at selector "interfaceProtocol") interface.protocol))

unfoldable pub pci_selector_matches : Value → PciDevice → Bool
pci_selector_matches selector device =
    if not (enabled selector)
    then false
    else if case_eq (str_at selector "address") (some device.address)
    then true
    else if same_number (hex (str_at selector "vendorId")) device.vendor_id
        && (same_number (hex (str_at selector "deviceId")) device.device_id
            && (is_some (get selector "vendorId") && is_some (get selector "deviceId")))
    then true
    else let class = u64_at selector "deviceClass" in
      if is_some class && same_number class device.class
      then unless_given (u64_at selector "deviceSubclass") device.subclass
        && unless_given (u64_at selector "deviceProgIf") device.prog_if
      else false

unfoldable pub rule_matches : {T : Type 0} → Value → T → (Value → T → Bool) → Bool
rule_matches rule device selector =
    if not (enabled rule)
    then false
    else let allowed =
        is_some_and (array_at rule "allow") (any (λ (item : Value). selector item device)) in
      let denied =
        is_some_and (array_at rule "deny") (any (λ (item : Value). selector item device)) in
      allowed && not denied
