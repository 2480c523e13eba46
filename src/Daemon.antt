-- ===== src/Daemon.antt =====
-- src/bin/ghaf-device-manager.rs: the daemon's start, its event loop, and its last step. A pass and a request
-- are one step each, and the abort of a pass that is under way is not modelled.
use ghaf_device_manager.Base.{ℕ, String, Bool, true, false, not, ◌≡◌, if◌then◌else◌}
use ghaf_device_manager.Base.Outcome.{Error, context, Result, ok, err}
use ghaf_device_manager.Config.Types.{Config}
use ghaf_device_manager.Protocol.{Action}
use ghaf_device_manager.Machine.{World, Setup, Machine}
use ghaf_device_manager.Api.{handle}
use ghaf_device_manager.Manager.Store.{with_roots}
use ghaf_device_manager.Manager.Gate.{enable_usb_authorization, close_usb_gate, open_usb_gate}
use ghaf_device_manager.Manager.Passes.{reconcile}
pub mod Ways

-- In seconds.
abbrev pub retry_interval : ℕ
retry_interval = 2

abbrev pub safety_interval : ℕ
safety_interval = 30

-- The delay after a pass: its result, and whether it deferred a device.
unfoldable pub delay_after : Result (Unit {0}) → Bool → ℕ
delay_after (ok u) deferred = if deferred then retry_interval else safety_interval
delay_after (err e) deferred = retry_interval

-- The daemon while it serves.
pub record Serving : Type 0 where
  pub machine : Machine
  pub delay : ℕ

-- `outcome.and(Err(..))` where the gate does not open.
unfoldable pub exit_status : Result (Unit {0}) → Result (Unit {0}) → Result (Unit {0})
exit_status opened outcome = elim opened [
  | ok u ↦ outcome
  | err e ↦ elim outcome [
    | ok u ↦ err (context "USB driver binding was left with the manager" e)
    | err e' ↦ err e'
  ]
]

module _ ⦃d : Setup⦄ where
  -- A pass, and the delay to the next.
  unfoldable pub pass : Serving → Serving
  pass v =
      let (r, s) = reconcile v.machine in record { machine = s; delay = delay_after r s.deferred }

  -- What `daemon` does before its loop: a pass where `--attach-connected` is given.
  unfoldable pub begin : Bool → Machine → Serving
  begin attach_connected s =
      if attach_connected
      then pass record { machine = s; delay = retry_interval }
      else record { machine = s; delay = retry_interval }

  -- What happens while the daemon serves: an event or the delay wakes the loop, or a client asks. One
  -- runs after the other.
  pub data Step : Serving → Serving → Type 0 where
    wakes : (v : Serving) → Step v (pass v)
    asks :
        (message : Action) (v : Serving)
        → Step v (record v { machine = (handle message v.machine).1 })

  pub data Reach (v : Serving) : Serving → Type 0 where
    here : Reach v v
    next : (u w : Serving) → Reach v u → Step u w → Reach v w

  -- The manager before it serves: a failure of either is only logged.
  unfoldable pub prepared : Machine → Machine
  prepared s = (close_usb_gate (enable_usb_authorization s).1).1

  -- The way out from a machine, with the outcome of `daemon`. The machine is the one that a pass, finished or
  -- cut short, has left.
  unfoldable pub leave : Result (Unit {0}) → Machine → Result (Unit {0}) × Machine
  leave outcome s = let (opened, s') = open_usb_gate s in (exit_status opened outcome, s')
