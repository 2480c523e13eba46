-- ===== src/Cli/Print.antt =====
-- src/bin/ghaf-device.rs: what a listing and an error print.
use Prim.Native.String.{count}
use ghaf_device_manager.Base.{
  ℕ, zero, suc, ◌-◌, String, ◌<>◌, Bool, Option, none, some, List, [], ◌∷◌, if◌then◌else◌, concat,
}
use ghaf_device_manager.Base.Outcome.{Error, said, context}
use ghaf_device_manager.Json.{Value, Fields, end, field, object, as_str}
use ghaf_device_manager.Device.{UsbDevice, PciDevice}
use ghaf_device_manager.Manager.Select.{UsbListDevice, PciListDevice}
use ghaf_device_manager.Cli.Escape.{escape_control, escape_field}
pub mod Lines

-- serde_json: the value of a device, and the text of a value.
pub record Serde : Type 0 where
  pub usb_value : UsbListDevice → Value
  pub pci_value : PciListDevice → Value
  pub to_string : Value → String

unfoldable pub opt_text : Option String → String
opt_text none = "None"
opt_text (some t) = t

spaces : ℕ → String
spaces zero = ""
spaces (suc n) = " " <> spaces n

-- `{key:<16}`.
unfoldable pub padded_key : String → String
unfolding spaces
padded_key key = key <> spaces (16 - count key)

-- `{error:#}`: the contexts, the outermost first, and the root cause.
unfoldable pub chain : Error → String
chain (said m) = m
chain (context m e) = m <> (": " <> chain e)

unfoldable pub error_line : Error → String
error_line e = "ERROR " <> escape_control (chain e)

-- The text of a line, and the line's end.
abbrev pub println : String → String → String
println line rest = line <> ("\n" <> rest)

-- The line of a device, less its end.
unfoldable pub usb_line : UsbDevice → String
usb_line device = concat (
    escape_field (opt_text device.vid)
    ∷ ":"
    ∷ escape_field (opt_text device.pid)
    ∷ " "
    ∷ escape_field (opt_text device.vendor_name)
    ∷ " "
    ∷ escape_field (opt_text device.product_name)
    ∷ [])

unfoldable pub pci_line : PciDevice → String
pci_line device = concat (
    escape_field device.address
    ∷ " "
    ∷ escape_field (opt_text device.vendor_id_text)
    ∷ ":"
    ∷ escape_field (opt_text device.device_id_text)
    ∷ " "
    ∷ escape_field (opt_text device.vendor_name)
    ∷ " "
    ∷ escape_field (opt_text device.device_name)
    ∷ [])

module _ (serde : Serde) where
  unfoldable pub detail : Value → String
  detail v = elim (as_str v) [ none ↦ escape_control (serde.to_string v) | some t ↦ escape_field t ]

  unfoldable pub print_fields : Fields → String → String
  print_fields end rest = rest
  print_fields (field key v fs) rest =
      println (concat ("  " ∷ padded_key key ∷ ": " ∷ detail v ∷ [])) (print_fields fs rest)

  unfoldable pub print_details : Value → String → String
  print_details (object fs) rest = print_fields fs (println "" rest)
  print_details _ rest = rest

  unfoldable pub print_usb : List UsbListDevice → Bool → String
  print_usb [] short = ""
  print_usb (device ∷ devices) short =
      let rest = print_usb devices short in
      println (usb_line device.device)
        (if short then rest else print_details (serde.usb_value device) rest)

  unfoldable pub print_pci : List PciListDevice → Bool → String
  print_pci [] short = ""
  print_pci (device ∷ devices) short =
      let rest = print_pci devices short in
      println (pci_line device.device)
        (if short then rest else print_details (serde.pci_value device) rest)
