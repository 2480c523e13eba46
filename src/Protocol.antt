-- ===== src/Protocol.antt =====
-- src/protocol.rs: the messages of the API.
use ghaf_device_manager.Base.{ℕ, String, Bool, Option, none, some, List}
use ghaf_device_manager.Base.Outcome.{Result, err, said, shown}
use ghaf_device_manager.Manager.Select.{Selector, UsbListDevice, PciListDevice}

pub data UsbSelector : Type 0 where
  device_node : String → UsbSelector
  bus_port : ℕ → ℕ → UsbSelector
  vid_pid : String → String → UsbSelector
  tag : String → UsbSelector

pub data PciSelector : Type 0 where
  address : String → PciSelector
  vid_did : String → String → PciSelector
  tag : String → PciSelector

pub data Action : Type 0 where
  enable_notifications : Action
  usb_list : Option Bool → Option String → Action
  usb_attach : UsbSelector → Option String → Action
  usb_detach : UsbSelector → Action
  usb_suspend : Option String → Action
  usb_resume : Option String → Action
  pci_list : Option Bool → Option String → Action
  pci_attach : PciSelector → Option String → Action
  pci_detach : PciSelector → Action
  pci_suspend : Option String → Action
  pci_resume : Option String → Action
  -- The VM, the bus prefix and start index, which no code reads, and `require_pci`.
  vmm_args : String → Option String → Option ℕ → Bool → Action

pub data ResponsePayload : Type 0 where
  usb_list : List UsbListDevice → ResponsePayload
  pci_list : List PciListDevice → ResponsePayload
  vmm_args : List String → ResponsePayload
  empty : ResponsePayload

pub data Response : Type 0 where
  ok : ResponsePayload → Response
  failed : String → Response

-- `Selector::default`.
abbrev pub default_selector : Selector
default_selector = record {
  device_node = none;
  bus = none;
  port = none;
  vid = none;
  pid = none;
  address = none;
  did = none;
  tag = none;
}

unfoldable pub from_usb : UsbSelector → Selector
from_usb (UsbSelector.device_node node) = record default_selector { device_node = some node }
from_usb (UsbSelector.bus_port bus port) = record default_selector {
  bus = some bus;
  port = some port;
}
from_usb (UsbSelector.vid_pid vid pid) = record default_selector { vid = some vid; pid = some pid }
from_usb (UsbSelector.tag t) = record default_selector { tag = some t }

unfoldable pub from_pci : PciSelector → Selector
from_pci (PciSelector.address a) = record default_selector { address = some a }
from_pci (PciSelector.vid_did vid did) = record default_selector { vid = some vid; did = some did }
from_pci (PciSelector.tag t) = record default_selector { tag = some t }

-- `From<Result<ResponsePayload>>`.
unfoldable pub to_response : Result ResponsePayload → Response
to_response (Result.ok payload) = Response.ok payload
to_response (err e) = Response.failed (shown e)

-- `TryInto<ResponsePayload>`.
unfoldable pub try_into : Response → Result ResponsePayload
try_into (Response.ok payload) = Result.ok payload
try_into (Response.failed e) = err (said e)
