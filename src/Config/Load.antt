-- ===== src/Config/Load.antt =====
-- src/config.rs: loading the configuration, and the modules that would drive a device.
pub mod Cached
pub mod Answers
use ghaf_device_manager.Base.{
  String, ◌<>◌, Bool, not, true, false, any, Option, none, some, List, [], ◌∷◌, ◌≡◌, refl, lines,
  trim, is_empty_text, if◌then◌else◌,
}
use ghaf_device_manager.Base.Outcome.{Result, ok, err, with_context, ◌>>=◌}
use ghaf_device_manager.Base.Dict
use ghaf_device_manager.Base.Dict.{Dict, get-insert}
use ghaf_device_manager.Json.{Value, str_at}
use ghaf_device_manager.Device.{UsbDevice, UsbInterface}
use ghaf_device_manager.Config.Types.{Config, Matchers}
use ghaf_device_manager.Config.Selectors.{anchored}
use ghaf_device_manager.Config.Usb.{usb_fields_match, valid_class}
use ghaf_device_manager.Config.Vms.{validate}

-- `Config::load`, on the text of the file and serde_json's reading of it.
unfoldable pub load : (String → Result Config) → String → Result String → Result Config
load from_str path input = with_context ("failed to read configuration " <> path) input >>= λ text.
    with_context ("failed to parse configuration " <> path) (from_str text) >>= λ config.
    validate config >>= λ u. ok config

-- The modules of a device alias, found by two programs, with a cache of the aliases asked for.
-- A run gives the output of a program that starts and succeeds.
module _ {S : Type 0} (run : String → List String → S → Option String × S)
    (modprobe modinfo : String) where
  -- `None` and what is no file path are dropped.
  abbrev kept : Option String → List String → List String
  kept none rest = rest
  kept (some text) rest = if is_empty_text (trim text) then rest else trim text ∷ rest

  unfoldable pub paths_of : List String → S → List String × S
  paths_of [] s = ([], s)
  paths_of (name ∷ modules) s =
      let (output, s') = run modinfo ("-n" ∷ name ∷ []) s in
      let (rest, s'') = paths_of modules s' in (kept output rest, s'')

  abbrev text_or_empty : Option String → String
  text_or_empty none = ""
  text_or_empty (some text) = text

  -- The paths, the cache and the surroundings after.
  abbrev pub Found : Type 0
  Found = List String × Dict (List String) × S

  unfoldable pub looked_up : String → Dict (List String) → S → Found
  looked_up modalias cache s =
      let (modules, s') = run modprobe ("-R" ∷ modalias ∷ []) s in
      let (paths, s'') = paths_of (lines (text_or_empty modules)) s' in
      (paths, Dict.insert cache modalias paths, s'')

  unfoldable pub module_paths :
      String → Dict (List String) → S → List String × Dict (List String) × S
  module_paths modalias cache s = elim (Dict.get cache modalias) [
    | some cached ↦ (cached, cache, s)
    | none ↦ looked_up modalias cache s
  ]

  -- The paths of the aliases in their order, asked for until one matches.
  unfoldable pub any_module :
      (String → Bool) → List String → Dict (List String) → S → Bool × Dict (List String) × S
  any_module is_match [] cache s = (false, cache, s)
  any_module is_match (modalias ∷ rest) cache s =
      let (paths, cache', s') = module_paths modalias cache s in
      elim (any is_match paths) [
        | true ↦ (true, cache', s')
        | false ↦ any_module is_match rest cache' s'
      ]

  -- The drivers that the device has, and then those of the modules that would drive it.
  unfoldable pub any_driver :
      (String → Bool) → UsbDevice → Dict (List String) → S → Bool × Dict (List String) × S
  any_driver is_match device cache s = elim (any is_match device.driver_paths) [
    | true ↦ (true, cache, s)
    | false ↦ any_module is_match device.modaliases cache s
  ]

  abbrev pub on_regex :
      Option (String → Bool) → UsbDevice → Dict (List String) → S → Bool × Dict (List String) × S
  on_regex none device cache s = (false, cache, s)
  on_regex (some is_match) device cache s = any_driver is_match device cache s

  abbrev pub on_pattern :
      Matchers → Option String → UsbDevice → Dict (List String) → S → Bool × Dict (List String) × S
  on_pattern x none device cache s = (false, cache, s)
  on_pattern x (some pattern) device cache s =
      on_regex (x.build_regex (anchored pattern)) device cache s

  -- `Config::usb_selector_matches` with the runs that it makes and the cache.
  unfoldable pub cached_selector_matches :
      Matchers → Value → UsbDevice → Dict (List String) → S → Bool × Dict (List String) × S
  cached_selector_matches x selector device cache s =
      if usb_fields_match x selector device
      then (true, cache, s)
      else if any (λ (i : UsbInterface). valid_class x i.class) device.interfaces
      then (false, cache, s)
      else on_pattern x (str_at selector "driverPath") device cache s
