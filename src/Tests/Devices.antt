-- ===== src/Tests/Devices.antt =====
-- The theorems on the configuration, the devices and the commands, at concrete inputs.
use ghaf_device_manager.Base.{
  ◌≤◌, ℕ, String, Bool, true, false, ◌≡◌, refl, Option, none, some, List, [], ◌∷◌, ◌++◌, any,
  is_empty, ◌<◌, ◌+◌, is_some, arith,
}
use ghaf_device_manager.Base
use ghaf_device_manager.Base.Outcome.{ok}
use ghaf_device_manager.Base.Dict
use ghaf_device_manager.Json.{get}
use ghaf_device_manager.Config.Selectors.{
  enabled, rule_matches, case_eq, string_list, bool_value, pci_selector_matches,
}
use ghaf_device_manager.Config.Types.{RuleMatch}
use ghaf_device_manager.Config.Vms.{vm, validate, check_vms, is_crosvm}
use ghaf_device_manager.Config.Usb.{usb_rule, usb_selector_matches, usb_fields_match, regex_match}
use ghaf_device_manager.Config.Pci.{pci_rule, routes_usb, allowed_vms}
use ghaf_device_manager.Config.Rules.{validate-vm, usb_rule-routes_usb, pci_rule-bounds}
use ghaf_device_manager.Device.Storage.{direct, backs_active, linux_major, linux_minor, BlockDevice}
use ghaf_device_manager.Device.Storage.Closure.{IsClear, backs_active-IsClear}
use ghaf_device_manager.Device.Storage.Numbers.{make_device, linux_major-make_device}
use ghaf_device_manager.Machine.{Setup}
use ghaf_device_manager.Machine.Monad
use ghaf_device_manager.Machine.Monad.{◌>>=◌}
use ghaf_device_manager.Crosvm.Replies.{read_vfio_list, is_pci_path}
use ghaf_device_manager.Crosvm.Commands.{
  pci_path, command, vfio_list, vfio_add, vfio_remove, usb_attach,
}
use ghaf_device_manager.Crosvm.Settled.{IsListed, vfio_add-IsListed, vfio_remove-IsListed}
use ghaf_device_manager.Crosvm.Rounds.{attaches, usb_attach-rounds}
use ghaf_device_manager.Manager.VmmArgs.{first_seen}
use ghaf_device_manager.Manager.VmmArgs.Once.{occurrences, occurrences-first_seen}
use ghaf_device_manager.Tests.{net_vm, world, config, system, mouse, sound_card, disk, start}

validate-vm_example : vm config "net-vm" ≡ ok net_vm
unfolding validate is_crosvm check_vms Dict.get Dict.insert
validate-vm_example = validate-vm config [] [] net_vm refl refl

abbrev mouse_match : RuleMatch
mouse_match = record {
  target_vm = some "net-vm";
  allowed_vms = [];
  skip_on_suspend = false;
  iommu_add_all = false;
  iommu_skip_if_shared = false;
  crosvm_use_root_bus = false;
  tag = none;
  order = 0;
}

usb_rule-routes_usb_example :
    (routes_usb config ≡ true) × (is_empty (allowed_vms mouse_match) ≡ false)
unfolding usb_rule rule_matches enabled get usb_selector_matches usb_fields_match case_eq
    regex_match string_list bool_value
usb_rule-routes_usb_example = usb_rule-routes_usb (world "").matchers mouse config mouse_match refl

abbrev card_match : RuleMatch
card_match = record mouse_match { order = 1 }

pci_rule-bounds_example : (0 < card_match.order) × (is_some card_match.target_vm ≡ true)
unfolding pci_rule enabled get pci_selector_matches case_eq Base.eq_ignore_ascii_case bool_value
pci_rule-bounds_example = pci_rule-bounds config sound_card card_match refl

-- A device descriptor of two bytes, then an interface of nine.
abbrev blob : List ℕ
blob = 2 ∷ 1 ∷ 9 ∷ 4 ∷ 0 ∷ 0 ∷ 2 ∷ 3 ∷ 1 ∷ 2 ∷ 0 ∷ []

abbrev disks : List BlockDevice
disks = disk "sda" [] ∷ disk "dm-0" ("sda" ∷ []) ∷ []

backs_active-IsClear_example :
    (any (λ (b : BlockDevice). b.has_holders) (direct disks "/sys/block") ≡ false)
    × IsClear disks "/sys/block" ("8:1" ∷ [])
unfolding backs_active direct Base.lies_under
backs_active-IsClear_example = backs_active-IsClear disks "/sys/block" ("8:1" ∷ []) refl

linux_major-make_device_example :
    (linux_major (make_device 259 5) ≡ 259) × (linux_minor (make_device 259 5) ≡ 5)
linux_major-make_device_example = linux_major-make_device 259 5 (omega arith) (omega arith)

abbrev listed : Setup
listed = system "devices /sys/bus/pci/devices/0000:00:1f.3"

vfio_add-IsListed_example :
    IsListed ⦃d = listed⦄ "/run/net.sock"
      (pci_path "0000:00:1f.3")
      true
      (vfio_add ⦃d = listed⦄ "/run/net.sock" "0000:00:1f.3" start).1
unfolding vfio_add ◌>>=◌ vfio_list command Monad.run read_vfio_list Base.split_whitespace
    is_pci_path Base.strip_prefix
vfio_add-IsListed_example = vfio_add-IsListed ⦃d = listed⦄ "/run/net.sock" "0000:00:1f.3" start refl

vfio_remove-IsListed_example :
    IsListed ⦃d = listed⦄ "/run/net.sock"
      (pci_path "0000:00:1f.0")
      false
      (vfio_remove ⦃d = listed⦄ "/run/net.sock" "0000:00:1f.0" start).1
unfolding vfio_remove ◌>>=◌ vfio_list command Monad.run read_vfio_list Base.split_whitespace
    is_pci_path Base.strip_prefix
vfio_remove-IsListed_example =
    vfio_remove-IsListed ⦃d = listed⦄ "/run/net.sock" "0000:00:1f.0" start refl

usb_attach-rounds_example :
    attaches
      (usb_attach ⦃d = system "no_available_port"⦄ "/run/net.sock" "/dev/bus/usb/001/002"
        start).1.trace
    ≤ attaches [] + 6
usb_attach-rounds_example =
    usb_attach-rounds ⦃d = system "no_available_port"⦄ "/run/net.sock" "/dev/bus/usb/001/002" start

occurrences-first_seen_example :
    occurrences
      (first_seen ("0000:00:1f.0" ∷ []) ("0000:00:1f.3" ∷ "0000:00:1f.3" ∷ []))
      "0000:00:1f.3"
    ≡ 1
occurrences-first_seen_example =
    occurrences-first_seen ("0000:00:1f.0" ∷ []) ("0000:00:1f.3" ∷ "0000:00:1f.3" ∷ [])
      "0000:00:1f.3"
