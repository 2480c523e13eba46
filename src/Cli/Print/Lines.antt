-- ===== src/Cli/Print/Lines.antt =====
-- A listing is lines of safe text, whatever the devices call themselves.
use Prim.Native.String.{count}
use ghaf_device_manager.Base.{
  ℕ, zero, suc, ◌-◌, String, ◌≡◌, refl, Bool, true, false, ◌&&◌, List, [], ◌∷◌, All, if◌then◌else◌,
  concat, arith,
}
use ghaf_device_manager.Base.Outcome.{Error}
use ghaf_device_manager.Json.{
  Value, Fields, null, boolean, number, other_number, string, array, end, field, object,
}
use ghaf_device_manager.Device.{UsbDevice, PciDevice}
use ghaf_device_manager.Manager.Select.{UsbListDevice, PciListDevice}
use ghaf_device_manager.Cli.Escape.{escape_control, escape_field}
use ghaf_device_manager.Cli.Escape.Safe.{is_safe, is_safe-append, escape_control-IsSafe}
use ghaf_device_manager.Cli.Escape.Field.{escape_field-IsSafe}
use ghaf_device_manager.Cli.Print.{
  Serde, opt_text, spaces, padded_key, error_line, chain, println, detail, print_fields,
  print_details, usb_line, pci_line, print_usb, print_pci,
}

-- Lines of safe text, each with its end: the only control characters are the ends of the lines.
pub data IsLines : String → Type 0 where
  none : IsLines ""
  line : (l rest : String) → is_safe l ≡ true → IsLines rest → IsLines (println l rest)

-- serde names the fields of a device by the identifiers of its structures.
unfoldable pub safe_names : Fields → Bool
safe_names end = true
safe_names (field key v fs) = is_safe key && safe_names fs

abbrev pub has_safe_names : Value → Bool
has_safe_names (object fs) = safe_names fs
has_safe_names _ = true

abbrev Clean : String → Type 0
Clean t = is_safe t ≡ true

and_split : (a b : Bool) → (a && b) ≡ true → (a ≡ true) × (b ≡ true)
and_split a b h = ground (arith)

is_safe-concat : (parts : List String) → All Clean parts → Clean (concat parts)
unfolding is_safe
is_safe-concat [] h = refl
is_safe-concat (x ∷ xs) (h, k) = is_safe-append x (concat xs) h (is_safe-concat xs k)

is_safe-spaces : (n : ℕ) → Clean (spaces n)
unfolding spaces is_safe
is_safe-spaces zero = refl
is_safe-spaces (suc n) = is_safe-append " " (spaces n) refl (is_safe-spaces n)

is_safe-padded_key : (key : String) → Clean key → Clean (padded_key key)
unfolding padded_key
is_safe-padded_key key h =
    is_safe-append key (spaces (16 - count key)) h (is_safe-spaces (16 - count key))

usb_line-IsSafe : (device : UsbDevice) → Clean (usb_line device)
unfolding usb_line is_safe
usb_line-IsSafe d =
    is_safe-concat
      (escape_field (opt_text d.vid)
        ∷ ":"
        ∷ escape_field (opt_text d.pid)
        ∷ " "
        ∷ escape_field (opt_text d.vendor_name)
        ∷ " "
        ∷ escape_field (opt_text d.product_name)
        ∷ [])
      (
        escape_field-IsSafe (opt_text d.vid),
        (
          refl,
          (
            escape_field-IsSafe (opt_text d.pid),
            (
              refl,
              (
                escape_field-IsSafe (opt_text d.vendor_name),
                (refl, (escape_field-IsSafe (opt_text d.product_name), tt)),
              ),
            ),
          ),
        ),
      )

pci_line-IsSafe : (device : PciDevice) → Clean (pci_line device)
unfolding pci_line is_safe
pci_line-IsSafe d =
    is_safe-concat
      (escape_field d.address
        ∷ " "
        ∷ escape_field (opt_text d.vendor_id_text)
        ∷ ":"
        ∷ escape_field (opt_text d.device_id_text)
        ∷ " "
        ∷ escape_field (opt_text d.vendor_name)
        ∷ " "
        ∷ escape_field (opt_text d.device_name)
        ∷ [])
      (
        escape_field-IsSafe d.address,
        (
          refl,
          (
            escape_field-IsSafe (opt_text d.vendor_id_text),
            (
              refl,
              (
                escape_field-IsSafe (opt_text d.device_id_text),
                (
                  refl,
                  (
                    escape_field-IsSafe (opt_text d.vendor_name),
                    (refl, (escape_field-IsSafe (opt_text d.device_name), tt)),
                  ),
                ),
              ),
            ),
          ),
        ),
      )

-- The fatal error line is safe, whatever an error quotes.
pub error_line-IsSafe : (e : Error) → is_safe (error_line e) ≡ true
unfolding error_line is_safe
error_line-IsSafe e =
    is_safe-append "ERROR " (escape_control (chain e)) refl (escape_control-IsSafe (chain e))

module _ (serde : Serde) where
  detail-IsSafe : (v : Value) → Clean (detail serde v)
  unfolding detail
  detail-IsSafe (string t) = escape_field-IsSafe t
  detail-IsSafe null = escape_control-IsSafe (serde.to_string null)
  detail-IsSafe (boolean b) = escape_control-IsSafe (serde.to_string (boolean b))
  detail-IsSafe (number n) = escape_control-IsSafe (serde.to_string (number n))
  detail-IsSafe other_number = escape_control-IsSafe (serde.to_string other_number)
  detail-IsSafe (array vs) = escape_control-IsSafe (serde.to_string (array vs))
  detail-IsSafe (object fs) = escape_control-IsSafe (serde.to_string (object fs))

  print_fields-IsLines :
      (fs : Fields) (rest : String)
      → safe_names fs ≡ true
      → IsLines rest
      → IsLines (print_fields serde fs rest)
  unfolding print_fields safe_names is_safe
  print_fields-IsLines end rest h r = r
  print_fields-IsLines (field key v fs) rest h r =
      let both = and_split (is_safe key) (safe_names fs) h in
      IsLines.line _ _
        (is_safe-concat ("  " ∷ padded_key key ∷ ": " ∷ detail serde v ∷ [])
          (refl, (is_safe-padded_key key (both.0), (refl, (detail-IsSafe v, tt)))))
        (print_fields-IsLines fs rest (both.1) r)

  print_details-IsLines :
      (v : Value) (rest : String)
      → has_safe_names v ≡ true
      → IsLines rest
      → IsLines (print_details serde v rest)
  unfolding print_details is_safe
  print_details-IsLines (object fs) rest h r =
      print_fields-IsLines fs (println "" rest) h (IsLines.line _ _ refl r)
  print_details-IsLines null rest h r = r
  print_details-IsLines (boolean b) rest h r = r
  print_details-IsLines (number n) rest h r = r
  print_details-IsLines other_number rest h r = r
  print_details-IsLines (string t) rest h r = r
  print_details-IsLines (array vs) rest h r = r

  if-IsLines : (b : Bool) (x y : String) → IsLines x → IsLines y → IsLines (if b then x else y)
  if-IsLines true x y h k = h
  if-IsLines false x y h k = k

  -- Where the names of a device's fields are safe, a USB listing is lines of safe text: whatever the
  -- devices and the daemon supply, no control character but the ends of the lines reaches the terminal.
  pub print_usb-IsLines :
      ((device : UsbListDevice) → has_safe_names (serde.usb_value device) ≡ true)
      → (devices : List UsbListDevice) (short : Bool) → IsLines (print_usb serde devices short)
  unfolding print_usb
  print_usb-IsLines names [] short = IsLines.none
  print_usb-IsLines names (d ∷ ds) short =
      let rest = print_usb-IsLines names ds short in
      IsLines.line _ _ (usb_line-IsSafe d.device)
        (if-IsLines short _ _ rest (print_details-IsLines (serde.usb_value d) _ (names d) rest))

  -- The same of a PCI listing.
  pub print_pci-IsLines :
      ((device : PciListDevice) → has_safe_names (serde.pci_value device) ≡ true)
      → (devices : List PciListDevice) (short : Bool) → IsLines (print_pci serde devices short)
  unfolding print_pci
  print_pci-IsLines names [] short = IsLines.none
  print_pci-IsLines names (d ∷ ds) short =
      let rest = print_pci-IsLines names ds short in
      IsLines.line _ _ (pci_line-IsSafe d.device)
        (if-IsLines short _ _ rest (print_details-IsLines (serde.pci_value d) _ (names d) rest))
