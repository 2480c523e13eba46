-- ===== src/Invariant.antt =====
-- Invariants of the whole manager: a predicate that every primitive step keeps is kept by every
-- method. The steps are those that src/manager.rs makes; `Target` says to which VMs it may attach.
pub mod Steps
pub mod Commands
pub mod Detach
pub mod Usb
pub mod Pci
pub mod Gate
pub mod Passes
pub mod Api
pub mod Sockets
use ghaf_device_manager.Base.{
  ℕ, String, Bool, true, false, ◌≡◌, refl, Option, none, some, List, [], ◌∷◌, ◌=s◌, ◌&&◌, arith,
  Option-cases, eq_iff, find, if◌then◌else◌,
}
use ghaf_device_manager.Base.Outcome.{Result, ok, err}
use ghaf_device_manager.Base.Dict.{Values}
use ghaf_device_manager.Config.Types.{Vm, Config}
use ghaf_device_manager.Config.Vms.{vm}
use ghaf_device_manager.State.{State}
use ghaf_device_manager.Crosvm.Commands.{deadline}
use ghaf_device_manager.Machine.{
  FileCall, Notification, looked, called, ran, slept, notified, Setup, Machine,
}
use ghaf_device_manager.Machine.Monad.{record_event}
use ghaf_device_manager.Manager.Store.{update_state}

abbrev pub last : List String → Option String
last [] = none
last (x ∷ []) = some x
last (x ∷ y ∷ xs) = last (y ∷ xs)

-- The arguments of `usb attach`.
abbrev pub is_attach : List String → Bool
is_attach (global ∷ family ∷ verb ∷ rest) = family =s "usb" && verb =s "attach"
is_attach _ = false

find-name :
    (vms : List Vm) (name : String) (v : Vm)
    → find (λ (w : Vm). w.name =s name) vms ≡ some v
    → v.name ≡ name
find-name [] name v h = cc
find-name (w ∷ vms) name v h = ground (arith, eq_iff w.name name, find-name vms name v)

-- The VM that a name finds has that name.
pub vm-name : (c : Config) (name : String) (v : Vm) → vm c name ≡ ok v → v.name ≡ name
unfolding vm
vm-name c name v h = ground (arith, find-name c.vms name v)

module _ ⦃d : Setup⦄ where
  -- The VM is one of the configuration's.
  abbrev pub IsVm : Vm → Type 0
  IsVm v = (name : String) × (vm d.config name ≡ ok v)

  abbrev pub IsConfigured : String → Type 0
  IsConfigured name = (v : Vm) × (vm d.config name ≡ ok v)

  -- A change of the state that records no VM but a configured one.
  pub record IsMild (f : State → State) : Type 0 where
    pub usb : (s : State) → Values IsConfigured s.usb_vms → Values IsConfigured (f s).usb_vms
    pub pci : (s : State) → Values IsConfigured s.pci_vms → Values IsConfigured (f s).pci_vms

  pub record Closed (Target : Vm → Type 0) (P : Machine → Type 0) : Type 0 where
    pub at_look : (s : Machine) → P s → P (record_event looked s)
    pub at_call : (c : FileCall) (s : Machine) → P s → P (record_event (called c) s)
    pub at_sleep : (millis : ℕ) (s : Machine) → P s → P (record_event (slept millis) s)
    pub at_notify : (n : Notification) (s : Machine) → P s → P (record_event (notified n) s)
    -- A Crosvm command other than an attach, to the socket of a configured VM.
    pub at_command :
        (args : List String) (v : Vm) (s : Machine)
        → IsVm v
        → last args ≡ some v.socket
        → is_attach args ≡ false
        → P s
        → P (record_event (ran d.config.general.crosvm args deadline) s)
    -- An attach, to a VM that is a target.
    pub at_attach :
        (node : String) (v : Vm) (s : Machine)
        → IsVm v
        → Target v
        → P s
        → P (
            record_event
              (ran d.config.general.crosvm
                ("--no-syslog" ∷ "usb" ∷ "attach" ∷ "00:00:00:00" ∷ node ∷ v.socket ∷ [])
                deadline)
              s)
    pub at_state : (f : State → State) (s : Machine) → IsMild f → P s → P (update_state f s)
    -- A change of the other fields.
    pub at_fields :
        (f : Machine → Machine) (s : Machine)
        → ((t : Machine) → ((f t).trace ≡ t.trace) × ((f t).state ≡ t.state))
        → P s
        → P (f s)
