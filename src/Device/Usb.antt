-- ===== src/Device/Usb.antt =====
-- `scan_usb` of src/device.rs: the USB devices that one look at sysfs finds.
use Prim.Native.String.{compare}
use text.Mathlib.Text.{is_le}
use ghaf_device_manager.Base.{
  ℕ, String, Bool, false, not, ◌&&◌, Option, none, some, List, [], ◌∷◌, ◌=s◌, ◌<>◌, ◌/s◌,
  if◌then◌else◌, is_some, is_empty, ◌<|>◌, filter, filter_map, trim, from_str_radix, trim_hex,
  padded, strip_prefix, split_once, rsplit_once, until,
}
use ghaf_device_manager.Base.Outcome.{Result, ok, err, with_context, to_option, ◌>>=◌}
use ghaf_device_manager.Base.Sorted.{sort_by}
use ghaf_device_manager.Files.{Files}
use ghaf_device_manager.Json.{and_then}
use ghaf_device_manager.Device.{UsbDevice, UsbInterface}
use ghaf_device_manager.Device.Descriptors.{descriptor_interfaces}
use ghaf_device_manager.Device.Storage.{usb_backs_host_storage}
use ghaf_device_manager.Device.Interfaces.{
  max_u32, Hwdb, distinct, add_modaliases, hwdb_names, interfaces_text, identity, zip_with,
}

module _ (f : Files) where
  unfoldable pub read : String → Option String
  read path = elim (f.read path) [ ok text ↦ some (trim text) | err e ↦ none ]

  unfoldable pub read_decimal : String → Option ℕ
  unfolding read
  read_decimal path = and_then (read path) (from_str_radix 10 max_u32)

  unfoldable pub read_hex : String → Option ℕ
  unfolding read
  read_hex path = and_then (read path) (λ text. from_str_radix 16 max_u32 (trim_hex text))

  unfoldable pub cached_interfaces : String → List (ℕ × UsbInterface)
  cached_interfaces path = elim (f.read_bytes (path /s "descriptors")) [
    | err e ↦ []
    | ok bytes ↦ descriptor_interfaces bytes
  ]

-- What the interface directories of a device show.
pub record Children : Type 0 where
  pub numbered : List (ℕ × UsbInterface)
  pub driver_paths : List String
  pub modaliases : List String

-- The number behind the last dot of an interface's name.
unfoldable pub interface_number : String → Option ℕ
interface_number name =
    and_then (rsplit_once b'.' name) (λ (p : String × String). from_str_radix 10 255 p.1)

abbrev push_some {ℓ} : {A : Type ℓ} → Option A → List A → List A
push_some none xs = xs
push_some (some x) xs = x ∷ xs

module _ (f : Files) (root : String) where
  child_interface : String → UsbInterface
  child_interface path = record {
    class = read_hex f (path /s "bInterfaceClass");
    subclass = read_hex f (path /s "bInterfaceSubClass");
    protocol = read_hex f (path /s "bInterfaceProtocol");
  }

  children_of : List String → Children
  unfolding child_interface
  children_of [] = record { numbered = []; driver_paths = []; modaliases = [] }
  children_of (name ∷ names) =
      let rest = children_of names in
      let path = root /s name in
      record {
        numbered =
            push_some (and_then (interface_number name) (λ n. some (n, child_interface path)))
              rest.numbered;
        driver_paths = push_some (to_option (f.canonicalize (path /s "driver"))) rest.driver_paths;
        modaliases = push_some (read f (path /s "modalias")) rest.modaliases;
      }

  unfoldable pub children : String → Children
  unfolding children_of
  children sys_name = elim (f.read_dir root) [
    | err e ↦ children_of []
    | ok entries ↦ children_of (
        filter (λ name. is_some (strip_prefix (sys_name <> ":") name))
          (filter_map to_option entries))
  ]

module _ (f : Files) (hwdb : Option Hwdb) (root : String) where
  -- The body of the loop over the entries, for an entry that is a device.
  unfoldable pub describe : String → UsbDevice
  describe sys_name =
      let path = root /s sys_name in
      let bus = read_decimal f (path /s "busnum") in
      let port = read_decimal f (path /s "devnum") in
      let found = children f root sys_name in
      let from_cache = cached_interfaces f path in
      let cached = not (is_empty from_cache) in
      let numbered = if cached then from_cache else found.numbered in
      let interfaces = distinct cached [] numbered in
      let vid = read f (path /s "idVendor") in
      let pid = read f (path /s "idProduct") in
      let class = read_hex f (path /s "bDeviceClass") in
      let subclass = read_hex f (path /s "bDeviceSubClass") in
      let protocol = read_hex f (path /s "bDeviceProtocol") in
      let names = hwdb_names hwdb vid pid in
      record {
        sys_name = sys_name;
        device_node =
            zip_with (λ b p. "/dev/bus/usb/" <> (padded 3 b <> ("/" <> padded 3 p))) bus port;
        bus = bus;
        port = port;
        root_port =
            and_then (split_once b'-' sys_name)
              (λ (p : String × String). from_str_radix 10 max_u32 (until b'.' p.1));
        vid = vid;
        pid = pid;
        vendor_name = names.0 <|> read f (path /s "manufacturer");
        product_name =
            names.1
            <|> read f (path /s "product")
            <|> zip_with (λ v p. "USB device " <> (v <> (":" <> p))) vid pid;
        serial = read f (path /s "serial");
        removable = read f (path /s "removable");
        device_class = class;
        device_subclass = subclass;
        device_protocol = protocol;
        interfaces_text = interfaces_text interfaces;
        interfaces = interfaces;
        driver_paths = found.driver_paths;
        modaliases =
            elim (identity vid pid (read_hex f (path /s "bcdDevice")) class subclass protocol) [
              | none ↦ found.modaliases
              | some id ↦ add_modaliases id found.modaliases numbered
            ];
      }

  abbrev is_device : String → Bool
  is_device path = f.exists (path /s "idVendor") && f.exists (path /s "busnum")

  -- Storage that the host is using is left out, on the real sysfs only.
  protected : String → Result Bool
  protected path =
      if root =s "/sys/bus/usb/devices" then usb_backs_host_storage f path else ok false

  scan_entries : List (Result String) → Result (List UsbDevice)
  unfolding protected
  scan_entries [] = ok []
  scan_entries (entry ∷ entries) = do
    name ← entry
    if not (is_device (root /s name)) then scan_entries entries else do
      skip ← protected (root /s name)
      rest ← scan_entries entries
      ok (if skip then rest else describe name ∷ rest)

  unfoldable pub scan_usb : Result (List UsbDevice)
  unfolding scan_entries
  scan_usb = do
    entries ← with_context ("failed to scan " <> root) (f.read_dir root)
    devices ← scan_entries entries
    ok (sort_by (λ (a b : UsbDevice). is_le (compare a.sys_name b.sys_name)) devices)
