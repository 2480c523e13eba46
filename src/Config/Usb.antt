-- ===== src/Config/Usb.antt =====
-- src/config.rs: USB selectors with their fallbacks, and the rule that a USB device meets.
use ghaf_device_manager.Base.{
  ℕ, String, Bool, true, false, not, ◌&&◌, ◌||◌, Option, none, some, ◌++◌, ◌==◌, if◌then◌else◌,
  is_some, is_some_and, is_empty, any, find_map, flat_map,
}
use ghaf_device_manager.Json.{Value, get, str_at, u64_at}
use ghaf_device_manager.Device.{UsbDevice, UsbInterface}
use ghaf_device_manager.Config.Types.{authorization_enabled, Config, RuleMatch, Matchers}
use ghaf_device_manager.Config.Selectors.{
  enabled, string_list, bool_value, case_eq, anchored, same_number, unless_given,
  removable_excludes, interface_matches, rule_matches,
}

module _ (x : Matchers) where
  unfoldable pub regex_match : Option String → Option String → Bool
  regex_match none value = false
  regex_match (some pattern) none = false
  regex_match (some pattern) (some value) =
      is_some_and (x.build_regex (anchored pattern)) (λ is_match. is_match value)

  -- The free function `usb_selector_matches`.
  unfoldable pub usb_fields_match : Value → UsbDevice → Bool
  unfolding removable_excludes interface_matches
  usb_fields_match selector device =
      if not (enabled selector)
      then false
      else if removable_excludes selector device
      then false
      else if case_eq (str_at selector "vendorId") device.vid
          && case_eq (str_at selector "productId") device.pid
      then true
      else if regex_match (str_at selector "vendorName") device.vendor_name
          || regex_match (str_at selector "productName") device.product_name
      then true
      else if same_number (u64_at selector "bus") device.bus
          && (same_number (u64_at selector "port") device.root_port
              && (is_some (get selector "bus") && is_some (get selector "port")))
      then true
      else let class = u64_at selector "deviceClass" in
        if is_some class && same_number class device.device_class
        then unless_given (u64_at selector "deviceSubclass") device.device_subclass
          && unless_given (u64_at selector "deviceProtocol") device.device_protocol
        else any (interface_matches selector) device.interfaces

  abbrev pub valid_class : Option ℕ → Bool
  valid_class none = false
  valid_class (some c) = not (c == 0) && not (c == 0xff)

  -- The method `Config::usb_selector_matches`, where the paths of a modalias are given. With their lookup and
  -- its cache it is `cached_selector_matches` of Config/Load.
  unfoldable pub usb_selector_matches : Value → UsbDevice → Bool
  usb_selector_matches selector device =
      if usb_fields_match selector device
      then true
      else if any (λ (i : UsbInterface). valid_class i.class) device.interfaces
      then false
      else is_some_and (str_at selector "driverPath") λ pattern.
        is_some_and (x.build_regex (anchored pattern)) λ is_match.
          any is_match (device.driver_paths ++ flat_map x.module_paths device.modaliases)

  -- One step of `Config::usb_rule`: the match that this rule gives, if it applies.
  unfoldable pub usb_rule_match : UsbDevice → Value → Option RuleMatch
  usb_rule_match device rule =
      let target_vm = str_at rule "targetVm" in
      let allowed_vms = string_list rule "allowedVms" in
      if rule_matches rule device usb_selector_matches
        && (is_some target_vm || not (is_empty allowed_vms))
      then some (record {
        target_vm = target_vm;
        allowed_vms = allowed_vms;
        skip_on_suspend = bool_value rule "skipOnSuspend";
        iommu_add_all = false;
        iommu_skip_if_shared = false;
        crosvm_use_root_bus = false;
        tag = str_at rule "tag";
        order = 0;
      })
      else none

  unfoldable pub usb_rule : Config → UsbDevice → Option RuleMatch
  unfolding usb_rule_match
  usb_rule c device = find_map (usb_rule_match device) c.usb_passthrough

  unfoldable pub usb_authorization_host_allowed : Config → UsbDevice → Bool
  usb_authorization_host_allowed c device =
      authorization_enabled c.usb_authorization
      && any (λ selector. usb_selector_matches selector device) c.usb_authorization.host_allow
