-- ===== src/Manager/Attach/Guard.antt =====
-- `UsbAuthorizationGuard` of src/manager.rs: when an authorization is taken back.
use mathlib.Core.Path.{subst}
use ghaf_device_manager.Base.{
  String, Bool, true, false, not, ◌≡◌, sym, ap, ◌∙◌, Option, ◌∷◌, if◌then◌else◌, arith, Bool-cases,
  is_some_and, ◌/s◌, ◌<>◌,
}
use ghaf_device_manager.Base.Outcome.{Result, ok}
use ghaf_device_manager.Device.{UsbDevice, is_hub}
use ghaf_device_manager.UsbGate.{authorization, authorize}
use ghaf_device_manager.Machine.{Trace, looked, called, write, Setup, Machine}
use ghaf_device_manager.Machine.Monad.{
  M, pure, ◌>>=◌, ◌>>◌, look, call, warned, when, in_context, record_event, continue,
}
use ghaf_device_manager.Manager.Detach.{authorizing}
use ghaf_device_manager.Manager.Claim.{Claimed}
use ghaf_device_manager.Manager.Attach.{is_committed, is_armed, roll_back, guarded}

module _ ⦃d : Setup⦄ where
  -- The kernel did not report the device as authorized.
  abbrev pub is_unauthorized : UsbDevice → Machine → Bool
  is_unauthorized device s =
      not (is_some_and (authorization (d.world.files s.trace) d.usb_root device.sys_name) (λ b. b))

  -- The last thing done was to write 0 to the device's `authorized` attribute, or to see that it is gone.
  abbrev pub IsTakenBack : String → Machine → Type 0
  IsTakenBack name s =
      let path = d.usb_root /s name /s "authorized" in
      (t : Trace) × (s.trace ≡ (
        if (d.world.files t).exists path then called (write path "0") ∷ looked ∷ t else looked ∷ t))

  authorize-IsTakenBack :
      (name : String) (s : Machine)
      → IsTakenBack name (warned (authorize d.usb_root name false) s).1
  unfolding authorize warned in_context call ◌>>=◌ look
  authorize-IsTakenBack name s =
      let path = d.usb_root /s name /s "authorized" in
      (s.trace, ground (arith, Bool-cases ((d.world.files s.trace).exists path)))

  roll_back-IsTakenBack :
      (device : UsbDevice) (m : M (Option Claimed)) (s : Machine)
      → is_committed (m s).0 ≡ false
      → IsTakenBack device.sys_name (roll_back true device m s).1
  unfolding roll_back when
  roll_back-IsTakenBack device m s lost =
      let undo = authorize-IsTakenBack device.sys_name (m s).1 in
      subst
        (λ b.
          IsTakenBack device.sys_name
            ((if not b then warned (authorize d.usb_root device.sys_name false) else pure tt)
              (m s).1).1)
        (sym lost) undo

  is_armed-true :
      (device : UsbDevice) (s : Machine)
      → authorizing ≡ true
      → is_hub device ≡ false
      → is_unauthorized device s ≡ true
      → is_armed device s ≡ (ok true, record_event looked s)
  unfolding is_armed ◌>>=◌ look
  is_armed-true device s policy no_hub closed = simp (policy, no_hub, closed)

  abbrev authorized_first : Bool → UsbDevice → M (Option Claimed) → M (Option Claimed)
  authorized_first armed device m = do
    when armed (
        in_context ("cannot authorize " <> device.sys_name)
          (authorize d.usb_root device.sys_name true))
    m

  -- What the guard does once it knows whether it is to authorize.
  abbrev under : Bool → UsbDevice → M (Option Claimed) → M (Option Claimed)
  under armed device m = roll_back armed device (authorized_first armed device m)

  -- The authorization policy is on, the device is no hub and was not authorized: where authorizing it fails, or the
  -- guarded part fails or skips the device, the last thing done is to write 0 to the device's `authorized` attribute,
  -- unless that has gone.
  pub guarded-IsTakenBack :
      (device : UsbDevice) (m : M (Option Claimed)) (s : Machine)
      → authorizing ≡ true
      → is_hub device ≡ false
      → is_unauthorized device s ≡ true
      → is_committed (guarded device m s).0 ≡ false
      → IsTakenBack device.sys_name (guarded device m s).1
  unfolding guarded ◌>>=◌ roll_back
  guarded-IsTakenBack device m s policy no_hub closed lost =
      let armed = is_armed-true device s policy no_hub closed in
      let same : guarded device m s ≡ under true device m (record_event looked s) =
        ap (λ (r : Result Bool × Machine). continue r.0 (λ b. under b device m) r.1) armed in
      subst (λ (r : Result (Option Claimed) × Machine). IsTakenBack device.sys_name r.1) (sym same)
        (roll_back-IsTakenBack device (authorized_first true device m) (record_event looked s)
          (ap (λ r. is_committed r.0) (sym same) ∙ lost))
