-- ===== src/Machine.antt =====
-- The manager as a state machine: its fields, and the calls it makes of the operating system.
-- Every look at the file system and every call is an event, and what the system answers is any
-- function of the events before it; so a device may come or go, and a VM may stop, between any two.
pub mod Monad
pub mod Binds
pub mod Rules
pub mod Outcomes
use ghaf_device_manager.Base.{ℕ, String, Bool, Option, List, ◌<>◌}
use ghaf_device_manager.Base.Outcome.{Result}
use ghaf_device_manager.Base.Dict.{Dict}
use ghaf_device_manager.Files.{Files}
use ghaf_device_manager.Device.{UsbDevice, PciDevice}
use ghaf_device_manager.Device.Interfaces.{Hwdb}
use ghaf_device_manager.Config.Types.{Config, Matchers}
use ghaf_device_manager.State.{State, PersistentState}

pub data FileCall : Type 0 where
  write : String → String → FileCall
  create_dir_all : String → FileCall
  -- Created or truncated, with a mode.
  open_truncated : String → ℕ → FileCall
  append : String → String → FileCall
  sync_all : String → FileCall
  rename : String → String → FileCall
  chown : String → Option ℕ → Option ℕ → FileCall

-- The code of a process, or none if a signal ended it; `Output::status` has -1 there.
pub data ExitStatus : Type 0 where
  exited : ℕ → ExitStatus
  killed : ExitStatus

pub record Output : Type 0 where
  pub status : ExitStatus
  pub stdout : String
  pub stderr : String

-- The JSON values that the manager broadcasts.
pub data Notification : Type 0 where
  usb_select_vm : UsbDevice → List String → Notification
  usb_attached : UsbDevice → String → Notification
  usb_detached : String → String → Notification
  usb_connected : UsbDevice → Notification
  usb_disconnected : Option String → Notification
  pci_attached : PciDevice → String → Notification
  pci_detached : PciDevice → String → Notification
  pci_connected : PciDevice → Notification
  pci_disconnected : String → Notification

pub data Event : Type 0 where
  looked : Event
  called : FileCall → Event
  -- A program that the command runner is given, with its arguments and the deadline in seconds.
  ran : String → List String → ℕ → Event
  slept : ℕ → Event
  notified : Notification → Event

-- The newest event first.
abbrev pub Trace : Type 0
Trace = List Event

-- An input device as udev's enumerator gives it.
pub record InputDevice : Type 0 where
  pub node : Option String
  pub property : String → Option String
  pub name : Option String
  pub parent_name : Option String

pub record World : Type 0 where
  pub files : Trace → Files
  -- The error's text, if the call fails.
  pub call : Trace → FileCall → Option String
  pub run : Trace → String → List String → ℕ → Result Output
  -- `serde_json::to_writer_pretty`, `serde_json::from_str` and a text's `Debug` form.
  pub encode : PersistentState → Result String
  pub decode : String → Result PersistentState
  pub debug : String → String
  pub hwdb : Option Hwdb
  -- The enumerator's scan of the subsystem `input`, and the users and groups of the system.
  pub input_devices : Trace → Result (List InputDevice)
  pub users : String → Result (Option ℕ)
  pub groups : String → Result (Option ℕ)
  pub matchers : Matchers

-- The fields of `DeviceManager` that never change.
pub record Setup : Type 0 where
  pub world : World
  pub config : Config
  pub usb_root : String
  pub pci_root : String

-- The fields that change, and the events so far.
pub record Machine : Type 0 where
  pub trace : Trace
  pub state : State
  pub observed_usb : Dict UsbDevice
  pub observed_pci : Dict PciDevice
  pub pending_usb_selection : List String
  pub usb_routing : Dict Bool
  pub reported_usb_hubs : List String
  pub deferred : Bool
