-- ===== src/Lib.antt =====
-- A model of ghaf-device-manager, the daemon that gives USB and PCI devices to Crosvm virtual
-- machines, with the theorems that hold of it.
--
-- The daemon scans sysfs for devices (src/device.rs), finds for each the rule of its configuration
-- that routes it (src/config.rs), and attaches it to a VM over Crosvm's control socket (src/crosvm.rs).
-- Host drivers are kept off routed USB devices by the gate (src/usb_gate.rs). What it has
-- attached, and what the user has detached for good, is kept in memory and in a state file
-- (src/state.rs). `DeviceManager` (src/manager.rs) holds it together: `reconcile` runs as a pass again and
-- again, and clients ask for single operations over the API (src/protocol.rs, src/api.rs).
--
-- Files and what they model:
--   Config/*         src/config.rs: selectors, usb_rule, pci_rule, validate, and allowed_vms of src/manager.rs
--   Config/Load/*    src/config.rs: loading, the cache of module paths, and a USB selector that is matched with it
--   Device/*         src/device.rs: scan_usb, scan_pci, descriptor_interfaces, usb_backs_host_storage
--   UsbGate          src/usb_gate.rs
--   Crosvm/*         src/crosvm.rs, and iommu_group of src/device.rs
--   State, Manager/Store   src/state.rs: the state, and loading and saving it
--   Machine, Machine/Monad   the fields of DeviceManager and the calls that it makes
--   Manager/Select, Attach, Detach, Pci, Routing, Gate, Passes, Observe, VmmArgs, Evdev
--                    src/manager.rs, one file for each group of methods
--   Manager/Store/*  the order of a save's calls, and a disk that loses its power in the middle of it
--   Manager/Pci/*    the addresses of an IOMMU group that are bound, attached and detached
--   Protocol, Api    src/protocol.rs, and handle of src/api.rs
--   Api/Connection, Api/Listeners, Api/Sockets
--                    src/api.rs: a client's connection, the loops that accept clients, and their sockets
--   Daemon           src/bin/ghaf-device-manager.rs: the start, the passes, and the last step
--   Client           src/client.rs: the exchange of messages over a stream of lines
--   Cli/*            src/bin/ghaf-device.rs: the command line, the repeated request, and what is printed
--   Invariant/*      the rules by which an invariant of single calls is one of every method
--   Base/*, Json, Files   lists, texts, maps, results, JSON values, and a look at the file system
--   Tests/*          a small system, and the theorems at concrete inputs
-- A function has the name of its source. A longer one is split, and its parts stand beside it.
--
-- An action takes a `Machine` and returns a result and a machine; what was done before an error stays
-- done. A machine has the fields of DeviceManager and the trace of its events: looks at the file system, writes and
-- other calls, commands run, sleeps, notifications. What the system answers is a function of the events
-- so far, and any such function: a device may come or go and a VM may stop between any two events. A
-- scan, which reads many files, is one look.
--
-- Bounds and fuel: the storage loop runs at most once for each block, the descriptor walk once for each byte,
-- and the theorems on them say that this is enough. The client's repeated request runs on fuel, and a theorem
-- says that a round for each second of its deadline and two more are enough. Crosvm is asked six times at most, as in the source.
-- A decimal number has 20 digits at most and a hexadecimal one 8, which the widths in the source allow.
--
-- A connection, the listeners and the daemon's loop are step relations: what other tasks do comes between any
-- two steps. An operation of the manager is one step, though `observe` and the gate of a pass hold no
-- lock in the source, and a request can come between their awaits. Of a disk the model says that calls take effect in their order, that a rename is atomic, and
-- that a content which was not synced may be anything after a loss of power.
--
-- Parameters: the file system, the processes that are run, serde's reading and writing of the configuration, the
-- state and the messages, the regex crate, modprobe and modinfo, udev's hardware database and its
-- enumerator, the users and groups; and of the client clap's parsing of words, its clock and sleeps,
-- the requests themselves, and what standard output takes. Of an `f64` timeout the model keeps whether it is finite, whether it is
-- below zero, and its nanoseconds.
--
-- The rules take the paths of a modalias as given, and so their runs of modprobe and modinfo are no events of a
-- machine. Config/Load has these runs and the cache `driver_cache`, which is an argument there and
-- no field of the configuration.
--
-- Not modelled: logging, and what is written to standard error; signals, the udev monitor and the timers, so that
-- a pass may come at any time; the abort of a pass that is under way when the daemon stops, and the wait for it;
-- the separate writes in which serde_json writes the state, which are one append; the line codec and its limit
-- of a message; connecting to a socket, and the timeout round it; the JSON form of messages. The tasks
-- of a connection may outlive the daemon's loop, and what they do after the gate is opened again is not
-- modelled. A HashMap is an association list, and its order of iteration is the list's.
pub mod Base
pub mod Files
pub mod Json
pub mod Device
pub mod Config
pub mod State
pub mod Machine
pub mod UsbGate
pub mod Crosvm
pub mod Manager
pub mod Protocol
pub mod Api
pub mod Cli
pub mod Client
pub mod Daemon
pub mod Invariant
pub mod Tests
