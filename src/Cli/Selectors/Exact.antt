-- ===== src/Cli/Selectors/Exact.antt =====
-- No option that selects a device is lost between the command line and the manager.
use ghaf_device_manager.Base.{ℕ, String, true, ◌≡◌, refl, Option, none, some, arith}
use ghaf_device_manager.Protocol.{UsbSelector, PciSelector, default_selector, from_usb, from_pci}
use ghaf_device_manager.Manager.Select.{Selector}
use ghaf_device_manager.Cli.Selectors.{
  UsbSelectorArgs, PciSelectorArgs, accepts_usb, accepts_pci, to_usb_selector, to_pci_selector,
}

-- The manager's selector with the fields that the options name.
unfoldable pub usb_named : UsbSelectorArgs → Selector
usb_named a = record default_selector {
  device_node = a.device_node;
  bus = a.bus;
  port = a.port;
  vid = a.vid;
  pid = a.pid;
  tag = a.tag;
}

unfoldable pub pci_named : PciSelectorArgs → Selector
pci_named a = record default_selector { address = a.address; vid = a.vid; did = a.did; tag = a.tag }

-- The options make a selector, and it asks the manager for what they name.
abbrev pub IsUsbSelector : UsbSelectorArgs → Type 0
IsUsbSelector a =
    (sel : UsbSelector) × (to_usb_selector a ≡ some sel) × (from_usb sel ≡ usb_named a)

abbrev pub IsPciSelector : PciSelectorArgs → Type 0
IsPciSelector a =
    (sel : PciSelector) × (to_pci_selector a ≡ some sel) × (from_pci sel ≡ pci_named a)

given :
    Option String
    → Option ℕ
    → Option ℕ
    → Option String
    → Option String
    → Option String
    → UsbSelectorArgs
given n b p v i t = record { device_node = n; bus = b; port = p; vid = v; pid = i; tag = t }

given-IsUsbSelector :
    (n : Option String) (b p : Option ℕ) (v i t : Option String)
    → accepts_usb (given n b p v i t) ≡ true
    → IsUsbSelector (given n b p v i t)
unfolding accepts_usb to_usb_selector from_usb usb_named given
given-IsUsbSelector (some n) none none none none none h = (UsbSelector.device_node n, refl, refl)
given-IsUsbSelector none (some b) (some p) none none none h = (UsbSelector.bus_port b p, refl, refl)
given-IsUsbSelector none none none (some v) (some i) none h = (UsbSelector.vid_pid v i, refl, refl)
given-IsUsbSelector none none none none none (some t) h = (UsbSelector.tag t, refl, refl)
given-IsUsbSelector (some n) (some b) p v i t h = absurd (ground (arith))
given-IsUsbSelector (some n) none (some p) v i t h = absurd (ground (arith))
given-IsUsbSelector (some n) none none (some v) i t h = absurd (ground (arith))
given-IsUsbSelector (some n) none none none (some i) t h = absurd (ground (arith))
given-IsUsbSelector (some n) none none none none (some t) h = absurd (ground (arith))
given-IsUsbSelector none (some b) none v i t h = absurd (ground (arith))
given-IsUsbSelector none (some b) (some p) (some v) i t h = absurd (ground (arith))
given-IsUsbSelector none (some b) (some p) none (some i) t h = absurd (ground (arith))
given-IsUsbSelector none (some b) (some p) none none (some t) h = absurd (ground (arith))
given-IsUsbSelector none none (some p) v i t h = absurd (ground (arith))
given-IsUsbSelector none none none (some v) none t h = absurd (ground (arith))
given-IsUsbSelector none none none (some v) (some i) (some t) h = absurd (ground (arith))
given-IsUsbSelector none none none none (some i) t h = absurd (ground (arith))
given-IsUsbSelector none none none none none none h = absurd (ground (arith))

-- USB options that clap lets through always make a selector, so the conversion's `unreachable!` is not
-- reached; and from that selector the daemon makes the manager's selector with exactly the fields that
-- the options name: no option is ignored or mixed up on the way.
pub to_usb_selector-IsExact : (a : UsbSelectorArgs) → accepts_usb a ≡ true → IsUsbSelector a
unfolding given
to_usb_selector-IsExact a h = given-IsUsbSelector a.device_node a.bus a.port a.vid a.pid a.tag h

given_pci : Option String → Option String → Option String → Option String → PciSelectorArgs
given_pci a v d t = record { address = a; vid = v; did = d; tag = t }

given_pci-IsPciSelector :
    (a v d t : Option String)
    → accepts_pci (given_pci a v d t) ≡ true
    → IsPciSelector (given_pci a v d t)
unfolding accepts_pci to_pci_selector from_pci pci_named given_pci
given_pci-IsPciSelector (some a) none none none h = (PciSelector.address a, refl, refl)
given_pci-IsPciSelector none (some v) (some d) none h = (PciSelector.vid_did v d, refl, refl)
given_pci-IsPciSelector none none none (some t) h = (PciSelector.tag t, refl, refl)
given_pci-IsPciSelector (some a) (some v) d t h = absurd (ground (arith))
given_pci-IsPciSelector (some a) none (some d) t h = absurd (ground (arith))
given_pci-IsPciSelector (some a) none none (some t) h = absurd (ground (arith))
given_pci-IsPciSelector none (some v) none t h = absurd (ground (arith))
given_pci-IsPciSelector none (some v) (some d) (some t) h = absurd (ground (arith))
given_pci-IsPciSelector none none (some d) t h = absurd (ground (arith))
given_pci-IsPciSelector none none none none h = absurd (ground (arith))

-- The same of PCI options.
pub to_pci_selector-IsExact : (a : PciSelectorArgs) → accepts_pci a ≡ true → IsPciSelector a
unfolding given_pci
to_pci_selector-IsExact a h = given_pci-IsPciSelector a.address a.vid a.did a.tag h
