-- ===== src/Device/Pci.antt =====
-- `scan_pci` of src/device.rs.
use Prim.Native.String.{compare}
use text.Mathlib.Text.{is_le}
use ghaf_device_manager.Base.{
  ℕ, ◌/◌, ◌%◌, ◌^◌, String, Option, none, some, List, [], ◌∷◌, ◌<>◌, ◌/s◌, hexadecimal, file_name,
}
use ghaf_device_manager.Base.Outcome.{Result, ok, err, with_context, ◌>>=◌}
use ghaf_device_manager.Base.Sorted.{sort_by}
use ghaf_device_manager.Files.{Files}
use ghaf_device_manager.Json.{and_then}
use ghaf_device_manager.Device.{PciDevice}
use ghaf_device_manager.Device.Usb.{read_hex}

-- `{value:04x}`.
abbrev hex4 : Option ℕ → Option String
hex4 value = and_then value (λ n. some (hexadecimal 4 n))

module _ (f : Files) (root : String) where
  unfoldable pub describe_pci : String → PciDevice
  describe_pci address =
      let path = root /s address in
      let vendor_id = read_hex f (path /s "vendor") in
      let device_id = read_hex f (path /s "device") in
      let class_code = read_hex f (path /s "class") in
      record {
        address = address;
        driver = elim (f.read_link (path /s "driver")) [
          | err e ↦ none
          | ok target ↦ file_name target
        ];
        vendor_id = vendor_id;
        device_id = device_id;
        vendor_id_text = hex4 vendor_id;
        device_id_text = hex4 device_id;
        vendor_name = and_then vendor_id (λ n. some ("PCI vendor " <> hexadecimal 4 n));
        device_name = and_then device_id (λ n. some ("PCI device " <> hexadecimal 4 n));
        class = and_then class_code (λ n. some (n / 2 ^ 16 % 2 ^ 8));
        subclass = and_then class_code (λ n. some (n / 2 ^ 8 % 2 ^ 8));
        prog_if = and_then class_code (λ n. some (n % 2 ^ 8));
        pci_subsystem_vendor_id = hex4 (read_hex f (path /s "subsystem_vendor"));
        pci_subsystem_id = hex4 (read_hex f (path /s "subsystem_device"));
      }

  scan_addresses : List (Result String) → Result (List PciDevice)
  scan_addresses [] = ok []
  scan_addresses (entry ∷ entries) = do
    address ← entry
    rest ← scan_addresses entries
    ok (describe_pci address ∷ rest)

  unfoldable pub scan_pci : Result (List PciDevice)
  unfolding scan_addresses
  scan_pci = do
    entries ← with_context ("failed to scan " <> root) (f.read_dir root)
    devices ← scan_addresses entries
    ok (sort_by (λ (a b : PciDevice). is_le (compare a.address b.address)) devices)
