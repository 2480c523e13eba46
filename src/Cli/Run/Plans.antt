-- ===== src/Cli/Run/Plans.antt =====
-- What clap lets through makes a plan, and no step of it panics.
use ghaf_device_manager.Base.{
  ℕ, ◌+◌, ◌*◌, ◌/◌, ◌^◌, ◌≤◌, String, ◌≡◌, refl, Bool, true, false, not, ◌&&◌, List, if◌then◌else◌,
  any, ltb, leb, arith, inl, inr, ◌⊎◌,
}
use ghaf_device_manager.Cli.Selectors.{accepts_usb, accepts_pci}
use ghaf_device_manager.Cli.Selectors.Exact.{to_usb_selector-IsExact, to_pci_selector-IsExact}
use ghaf_device_manager.Cli.Commands.{
  TransportKind, UsbAction, PciAction, VmmAction, Seconds, Command, Cli, Ended, failed, panicked,
  Plan, plan, plan_usb, plan_pci, timeout, transport_of,
}
use ghaf_device_manager.Cli.Retry.{second}
use ghaf_device_manager.Cli.Run.{has_whitespace, vmm_text, is_vmm}

-- What clap lets through of a command, by the attributes of its options.
unfoldable pub accepts : Command → Bool
accepts (Command.usb (UsbAction.attach selector vm)) = accepts_usb selector
accepts (Command.usb (UsbAction.detach selector)) = accepts_usb selector
accepts (Command.usb (UsbAction.list connected disconnected short tag)) =
    not (connected && disconnected)
accepts (Command.pci (PciAction.attach selector vm)) = accepts_pci selector
accepts (Command.pci (PciAction.detach selector)) = accepts_pci selector
accepts (Command.pci (PciAction.list connected disconnected short tag)) =
    not (connected && disconnected)
accepts _ = true

-- A timeout that a `Duration` holds, and the rounds that it leaves for the request.
unfoldable pub has_duration : Command → Bool
has_duration (Command.vmm (VmmAction.args vm prefix index (Seconds.nanoseconds n) require_pci)) =
    ltb n (2 ^ 64 * second)
has_duration _ = true

unfoldable pub rounds : Command → ℕ
rounds (Command.vmm (VmmAction.args vm prefix index (Seconds.nanoseconds n) require_pci)) =
    n / second + 2
rounds _ = 0

abbrev pub is_calm : {A : Type 0} → Ended A → Bool
is_calm (Ended.ok a) = true
is_calm (failed e) = true
is_calm panicked = false

in_range : (n : ℕ) → ltb n (2 ^ 64 * second) ≡ true → leb (2 ^ 64 * second) n ≡ false
in_range n h = ground (arith)

pub conditional-calm :
    {A : Type 0} (b : Bool) (x y : Ended A)
    → is_calm x ≡ true
    → is_calm y ≡ true
    → is_calm (if b then x else y) ≡ true
conditional-calm true x y h k = h
conditional-calm false x y h k = k

pub transport_of-calm : (kind : TransportKind) (cli : Cli) → is_calm (transport_of kind cli) ≡ true
transport_of-calm TransportKind.unix cli = refl
transport_of-calm TransportKind.tcp cli = conditional-calm (leb cli.net_port 65535) _ _ refl refl
transport_of-calm TransportKind.vsock cli = refl

-- A plan, with enough rounds for a repeated request.
abbrev pub IsPlan : ℕ → Ended Plan → Type 0
IsPlan n (Ended.ok (message, deadline, output)) =
    (is_vmm output ≡ false) ⊎ (deadline / second + 2 ≤ n)
IsPlan n (failed e) = Unit
IsPlan n panicked = ⊥

pub plan_usb-IsPlan :
    (n : ℕ) (a : UsbAction) → accepts (Command.usb a) ≡ true → IsPlan n (plan_usb a)
unfolding plan_usb accepts
plan_usb-IsPlan n (UsbAction.attach selector vm) h =
    let (sel, e, named) = to_usb_selector-IsExact selector h in rw e (inl refl)
plan_usb-IsPlan n (UsbAction.detach selector) h =
    let (sel, e, named) = to_usb_selector-IsExact selector h in rw e (inl refl)
plan_usb-IsPlan n (UsbAction.list connected disconnected short tag) h = inl refl
plan_usb-IsPlan n (UsbAction.suspend vm) h = inl refl
plan_usb-IsPlan n (UsbAction.resume vm) h = inl refl

pub plan_pci-IsPlan :
    (n : ℕ) (a : PciAction) → accepts (Command.pci a) ≡ true → IsPlan n (plan_pci a)
unfolding plan_pci accepts
plan_pci-IsPlan n (PciAction.attach selector vm) h =
    let (sel, e, named) = to_pci_selector-IsExact selector h in rw e (inl refl)
plan_pci-IsPlan n (PciAction.detach selector) h =
    let (sel, e, named) = to_pci_selector-IsExact selector h in rw e (inl refl)
plan_pci-IsPlan n (PciAction.list connected disconnected short tag) h = inl refl
plan_pci-IsPlan n (PciAction.suspend vm) h = inl refl
plan_pci-IsPlan n (PciAction.resume vm) h = inl refl

pub plan_vmm-IsPlan :
    (a : VmmAction)
    → has_duration (Command.vmm a) ≡ true
    → IsPlan (rounds (Command.vmm a)) (plan (Command.vmm a))
unfolding plan timeout has_duration rounds
plan_vmm-IsPlan (VmmAction.args vm prefix index Seconds.not_finite require_pci) h = tt
plan_vmm-IsPlan (VmmAction.args vm prefix index Seconds.negative require_pci) h = tt
plan_vmm-IsPlan (VmmAction.args vm prefix index (Seconds.nanoseconds n) require_pci) h =
    rw (in_range n h) (inr (omega (arith)))

pub vmm_text-calm : (arguments : List String) → is_calm (vmm_text arguments) ≡ true
unfolding vmm_text
vmm_text-calm arguments = conditional-calm (any has_whitespace arguments) _ _ refl refl
