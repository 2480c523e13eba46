-- ===== src/Manager/Evdev.antt =====
-- `evdev_args` of src/manager.rs: the input devices that a VM gets.
use ghaf_device_manager.Base.{
  String, Bool, true, false, not, ◌&&◌, ◌||◌, Option, none, some, List, [], ◌∷◌, ◌<>◌,
  if◌then◌else◌, is_some_and, unwrap_or, is_text, any, contains_text, eq_ignore_ascii_case, ◌<|>◌,
}
use ghaf_device_manager.Json.{Value, get, as_bool, as_str, str_at, bool_at, array_at, and_then}
use ghaf_device_manager.Config.Types.{Matchers}
use ghaf_device_manager.Config.Selectors.{entries, anchored}
use ghaf_device_manager.Machine.{InputDevice, looked, Setup}
use ghaf_device_manager.Machine.Monad.{M, pure, ◌>>=◌, record_event}

unfoldable pub json_enabled : Value → Bool
json_enabled value = elim (get value "disable") [
  | some disable ↦ not (unwrap_or (as_bool disable) false)
  | none ↦ unwrap_or (bool_at value "enable") true
]

unfoldable pub regex_value : Matchers → Option Value → Option String → Bool
regex_value m pattern value =
    is_some_and (and_then pattern as_str)
      λ p. is_some_and value λ v. is_some_and (m.build_regex (anchored p)) λ r. r v

-- The property that a selector names, against the value that it asks for.
unfoldable pub property_matches : Value → InputDevice → Bool
property_matches selector device = is_some_and (str_at selector "property") λ property.
    is_some_and (str_at selector "value") λ expected.
      is_some_and (device.property property) λ actual. eq_ignore_ascii_case actual expected

unfoldable pub evdev_selector_matches : Matchers → Value → InputDevice → Bool
evdev_selector_matches m selector device =
    if not (json_enabled selector)
    then false
    else regex_value m (get selector "name")
        (device.name <|> device.parent_name <|> device.property "NAME")
      || (regex_value m (get selector "pathTag") (device.property "ID_PATH_TAG")
          || property_matches selector device)

unfoldable pub evdev_rule_matches : Matchers → String → InputDevice → Value → Bool
evdev_rule_matches m vm_name device rule =
    if not (json_enabled rule) || not (is_text (str_at rule "targetVm") vm_name)
    then false
    else let allowed =
        any (λ (allow : Value). evdev_selector_matches m allow device)
          (entries (array_at rule "allow")) in
      let denied =
        any (λ (deny : Value). evdev_selector_matches m deny device)
          (entries (array_at rule "deny")) in
      allowed && not denied

-- A node of evdev that is not on the USB bus.
abbrev pub is_candidate : InputDevice → String → Bool
is_candidate device node =
    contains_text "/event" node && not (is_text (device.property "ID_BUS") "usb")

unfoldable pub evdev_list : Matchers → List Value → String → List InputDevice → List String
evdev_list m rules vm_name [] = []
evdev_list m rules vm_name (device ∷ rest) =
    let others = evdev_list m rules vm_name rest in
    elim device.node [
      | none ↦ others
      | some node ↦
          if is_candidate device node && any (evdev_rule_matches m vm_name device) rules
          then "--input" ∷ ("evdev[path=" <> (node <> "]")) ∷ others
          else others
    ]

module _ ⦃d : Setup⦄ where
  -- The enumerator's scan is one look.
  unfoldable pub scan_inputs : M (List InputDevice)
  scan_inputs s = (d.world.input_devices s.trace, record_event looked s)

  unfoldable pub evdev_args : List Value → String → M (List String)
  evdev_args rules vm_name = do
    devices ← scan_inputs
    pure (evdev_list d.world.matchers rules vm_name devices)
