-- ===== src/Cli/Commands.antt =====
-- src/bin/ghaf-device.rs: the command line, and the request that it makes.
use ghaf_device_manager.Base.{
  ℕ, ◌*◌, ◌^◌, String, Bool, true, false, Option, none, some, if◌then◌else◌, leb,
}
use ghaf_device_manager.Base.Outcome.{Error, said, context, Result}
use ghaf_device_manager.Protocol.{Action}
use ghaf_device_manager.Client.{Transport, running_in_vm}
use ghaf_device_manager.Cli.Selectors.{
  UsbSelectorArgs, PciSelectorArgs, to_usb_selector, to_pci_selector,
}
use ghaf_device_manager.Cli.Retry.{second}

pub data TransportKind : Type 0 where
  unix : TransportKind
  tcp : TransportKind
  vsock : TransportKind

-- The Boolean is `short`.
pub data OutputKind : Type 0 where
  usb : Bool → OutputKind
  pci : Bool → OutputKind
  vmm : OutputKind

pub data UsbAction : Type 0 where
  attach : UsbSelectorArgs → Option String → UsbAction
  detach : UsbSelectorArgs → UsbAction
  -- `connected`, `disconnected`, `short` and `tag`.
  list : Bool → Bool → Bool → Option String → UsbAction
  suspend : Option String → UsbAction
  resume : Option String → UsbAction

pub data PciAction : Type 0 where
  attach : PciSelectorArgs → Option String → PciAction
  detach : PciSelectorArgs → PciAction
  list : Bool → Bool → Bool → Option String → PciAction
  suspend : Option String → PciAction
  resume : Option String → PciAction

-- An `f64` of seconds: no number or infinite, below zero, or its nanoseconds.
pub data Seconds : Type 0 where
  not_finite : Seconds
  negative : Seconds
  nanoseconds : ℕ → Seconds

-- The VM, the bus prefix and start index, the timeout and `require_pci`.
pub data VmmAction : Type 0 where
  args : String → Option String → Option ℕ → Seconds → Bool → VmmAction

pub data Command : Type 0 where
  usb : UsbAction → Command
  pci : PciAction → Command
  listen : Command
  vmm : VmmAction → Command

pub record Cli : Type 0 where
  pub debug : Bool
  pub transport : Option TransportKind
  pub path : String
  pub host : String
  pub net_port : ℕ
  pub cid : ℕ
  pub command : Command

-- How a step of the program ends.
pub data Ended {ℓ} (A : Type ℓ) : Type ℓ where
  ok : A → Ended A
  failed : Error → Ended A
  panicked : Ended A

infixl 5 ◌>>=◌
abbrev pub ◌>>=◌ {ℓ κ} : {A : Type ℓ} {B : Type κ} → Ended A → (A → Ended B) → Ended B
Ended.ok a >>= f = f a
failed e >>= f = failed e
panicked >>= f = panicked

abbrev pub of_result {ℓ} : {A : Type ℓ} → Result A → Ended A
of_result (Result.ok a) = Ended.ok a
of_result (Result.err e) = failed e

abbrev pub or_panic {ℓ} : {A : Type ℓ} → Option A → Ended A
or_panic none = panicked
or_panic (some a) = Ended.ok a

-- On what `vsock::get_local_cid` answers.
unfoldable pub kind_of : Result ℕ → Option TransportKind → TransportKind
kind_of local_cid none = if running_in_vm local_cid then TransportKind.vsock else TransportKind.unix
kind_of local_cid (some kind) = kind

abbrev pub transport_of : TransportKind → Cli → Ended Transport
transport_of TransportKind.unix cli = Ended.ok (Transport.unix cli.path)
transport_of TransportKind.tcp cli =
    if leb cli.net_port 65535
    then Ended.ok (Transport.tcp cli.host cli.net_port)
    else failed (
        context "TCP port must be at most 65535"
          (said "out of range integral type conversion attempted"))
transport_of TransportKind.vsock cli = Ended.ok (Transport.vsock cli.cid cli.net_port)

unfoldable pub transport : Result ℕ → Cli → Ended Transport
transport local_cid cli = transport_of (kind_of local_cid cli.transport) cli

-- The request, its deadline in nanoseconds, and what to print.
abbrev pub Plan : Type 0
Plan = Action × ℕ × Option OutputKind

abbrev ten_seconds : ℕ
ten_seconds = 10 * second

abbrev wanted : Bool → Bool → Option Bool
wanted connected disconnected =
    if connected then some false else if disconnected then some true else none

unfoldable pub plan_usb : UsbAction → Ended Plan
plan_usb (UsbAction.attach selector vm) = or_panic (to_usb_selector selector) >>= λ sel.
    Ended.ok (Action.usb_attach sel vm, ten_seconds, none)
plan_usb (UsbAction.detach selector) = or_panic (to_usb_selector selector) >>= λ sel.
    Ended.ok (Action.usb_detach sel, ten_seconds, none)
plan_usb (UsbAction.list connected disconnected short tag) =
    Ended.ok (
      Action.usb_list (wanted connected disconnected) tag,
      ten_seconds,
      some (OutputKind.usb short),
    )
plan_usb (UsbAction.suspend vm) = Ended.ok (Action.usb_suspend vm, ten_seconds, none)
plan_usb (UsbAction.resume vm) = Ended.ok (Action.usb_resume vm, ten_seconds, none)

unfoldable pub plan_pci : PciAction → Ended Plan
plan_pci (PciAction.attach selector vm) = or_panic (to_pci_selector selector) >>= λ sel.
    Ended.ok (Action.pci_attach sel vm, ten_seconds, none)
plan_pci (PciAction.detach selector) = or_panic (to_pci_selector selector) >>= λ sel.
    Ended.ok (Action.pci_detach sel, ten_seconds, none)
plan_pci (PciAction.list connected disconnected short tag) =
    Ended.ok (
      Action.pci_list (wanted connected disconnected) tag,
      ten_seconds,
      some (OutputKind.pci short),
    )
plan_pci (PciAction.suspend vm) = Ended.ok (Action.pci_suspend vm, ten_seconds, none)
plan_pci (PciAction.resume vm) = Ended.ok (Action.pci_resume vm, ten_seconds, none)

-- `Duration::from_secs_f64` panics where the seconds are no `u64`.
unfoldable pub timeout : Seconds → Ended ℕ
timeout Seconds.not_finite =
    failed (said "VMM argument timeout must be a finite non-negative number")
timeout Seconds.negative = failed (said "VMM argument timeout must be a finite non-negative number")
timeout (Seconds.nanoseconds n) = if leb (2 ^ 64 * second) n then panicked else Ended.ok n

unfoldable pub plan : Command → Ended Plan
plan (Command.usb action) = plan_usb action
plan (Command.pci action) = plan_pci action
plan (Command.vmm (VmmAction.args vm prefix index time require_pci)) = timeout time >>= λ deadline.
    Ended.ok (Action.vmm_args vm prefix index require_pci, deadline, some OutputKind.vmm)
plan Command.listen = panicked
