-- ===== src/Crosvm/Replies.antt =====
-- src/crosvm.rs: reading what Crosvm prints.
use ghaf_device_manager.Base.{
  ◌≡◌, refl, ℕ, ◌-◌, ◌%◌, String, Bool, true, false, not, ◌&&◌, ◌||◌, Option, none, some, List, [],
  ◌∷◌, ◌==◌, ◌<>◌, if◌then◌else◌, length, any, first, is_text, leb, code, trim, from_str_radix,
  split_whitespace, strip_prefix, decimal, filter, map,
}
use ghaf_device_manager.Base.Outcome.{Result, ok, err, said, context, or_error, ◌>>=◌}
use ghaf_device_manager.Machine.{ExitStatus, exited, killed}

-- A port with the vendor and product id of the device on it.
pub record UsbEntry : Type 0 where
  pub port : ℕ
  pub vid : String
  pub pid : String

-- `parse::<u8>()`.
unfoldable pub parse_port : String → Option ℕ
parse_port = from_str_radix 10 255

unfoldable pub usb_entries : List String → Result (List UsbEntry)
usb_entries (port ∷ vid ∷ pid ∷ rest) = do
  number ← or_error (context "invalid Crosvm USB port" (said "ParseIntError")) (parse_port port)
  entries ← usb_entries rest
  ok (record { port = number; vid = vid; pid = pid } ∷ entries)
usb_entries _ = ok []

abbrev pub tail : List String → List String
tail [] = []
tail (x ∷ xs) = xs

-- `usb_list`, from the text that the command prints.
unfoldable pub read_usb_list : String → Result (List UsbEntry)
read_usb_list output =
    let fields = split_whitespace output in
    if not (is_text (first fields) "devices") || not ((length fields - 1) % 3 == 0)
    then err (said ("malformed Crosvm USB list response: " <> trim output))
    else usb_entries (tail fields)

unfoldable pub is_hex_code : ℕ → Bool
is_hex_code c =
    (leb b'0' c && leb c b'9') || ((leb b'A' c && leb c b'F') || (leb b'a' c && leb c b'f'))

-- A pattern of hexadecimal digits, `h`, a digit up to 7, `o`, and characters that stand for
-- themselves.
unfoldable pub matches : String → String → Bool
unfolding is_hex_code
matches String.[] String.[] = true
matches String.[] (String.◌∷◌ c s) = false
matches (String.◌∷◌ p ps) String.[] = false
matches (String.◌∷◌ p ps) (String.◌∷◌ c s) =
    (if code p == b'h'
      then is_hex_code (code c)
      else if code p == b'o'
      then leb b'0' (code c) && leb (code c) b'7'
      else code p == code c)
    && matches ps s

-- `^/sys/bus/pci/devices/[0-9A-Fa-f]{4}:[0-9A-Fa-f]{2}:[0-9A-Fa-f]{2}\.[0-7]$`.
unfoldable pub is_pci_path : String → Bool
unfolding matches
is_pci_path entry = elim (strip_prefix "/sys/bus/pci/devices/" entry) [
  | none ↦ false
  | some address ↦ matches "hhhh:hh:hh.o" address
]

unfoldable pub read_vfio_list : String → Result (List String)
read_vfio_list output =
    let fields = split_whitespace output in
    if not (is_text (first fields) "devices")
    then err (said ("malformed Crosvm VFIO list response: " <> trim output))
    else if any (λ entry. not (is_pci_path entry)) (tail fields)
    then err (said "unexpected entry in Crosvm VFIO list response")
    else ok (tail fields)

abbrev pub status_text : ExitStatus → String
status_text (exited n) = decimal n
status_text killed = "-1"

abbrev pub is_success : ExitStatus → Bool
is_success (exited n) = n == 0
is_success killed = false

-- The ports of the second list that the first does not have.
unfoldable pub added_ports : List UsbEntry → List UsbEntry → List ℕ
added_ports before after =
    map (λ (e : UsbEntry). e.port)
      (filter (λ (e : UsbEntry). not (any (λ (b : UsbEntry). b.port == e.port) before)) after)

unfoldable pub only_port : List ℕ → Result ℕ
only_port (port ∷ []) = ok port
only_port _ = err (said "Crosvm attached USB but did not identify one new port")

read_usb_list_runs :
    read_usb_list "devices 3 046d c52b 10 1d6b 0002\n"
    ≡ ok (
        record { port = 3; vid = "046d"; pid = "c52b" }
        ∷ record { port = 10; vid = "1d6b"; pid = "0002" }
        ∷ [])
unfolding read_usb_list usb_entries parse_port from_str_radix split_whitespace
read_usb_list_runs = refl

is_pci_path_runs : is_pci_path "/sys/bus/pci/devices/0000:00:1f.3" ≡ true
unfolding is_pci_path strip_prefix
is_pci_path_runs = refl
