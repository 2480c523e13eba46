-- ===== src/Daemon/Ways.antt =====
-- The daemon's last step, and the delay between its passes.
use ghaf_device_manager.Base.{Bool, true, false, ◌≡◌, refl, ◌⊎◌, inl, inr}
use ghaf_device_manager.Base.Outcome.{Result, ok, err}
use ghaf_device_manager.Config.Pci.{routes_usb}
use ghaf_device_manager.Protocol.{Action}
use ghaf_device_manager.Api.{handle}
use ghaf_device_manager.Machine.{Setup, Machine}
use ghaf_device_manager.Manager.Gate.Opened.{IsOpened, open_usb_gate-IsOpened}
use ghaf_device_manager.Manager.Passes.{reconcile}
use ghaf_device_manager.Daemon.{
  delay_after, Serving, pass, begin, wakes, asks, Reach, here, next, exit_status, leave,
}

exit_status-opened :
    (opened outcome : Result (Unit {0})) → exit_status opened outcome ≡ ok tt → opened ≡ ok tt
unfolding exit_status
exit_status-opened (ok u) outcome h = refl
exit_status-opened (err e) (ok u) h = cc
exit_status-opened (err e) (err e') h = cc

exit_status-outcome :
    (opened outcome : Result (Unit {0})) → exit_status opened outcome ≡ ok tt → outcome ≡ ok tt
unfolding exit_status
exit_status-outcome (ok u) outcome h = h
exit_status-outcome (err e) (ok u) h = refl
exit_status-outcome (err e) (err e') h = cc

delay_after-cases :
    (r : Result (Unit {0})) (b : Bool)
    → (delay_after r b ≡ 2) ⊎ ((delay_after r b ≡ 30) × (r ≡ ok tt) × (b ≡ false))
unfolding delay_after
delay_after-cases (ok u) true = inl refl
delay_after-cases (ok u) false = inr (refl, refl, refl)
delay_after-cases (err e) b = inl refl

module _ ⦃d : Setup⦄ where
  -- Where the configuration routes USB devices: if the daemon's last step, from whatever machine, exits with
  -- success, then its outcome before was a success, and no bus has the attribute, or the gate was
  -- read as not closed, or the last write to the attribute that has succeeded is 1.
  pub leave-IsOpened :
      (outcome : Result (Unit {0})) (u : Machine)
      → routes_usb d.config ≡ true
      → (leave outcome u).0 ≡ ok tt
      → (outcome ≡ ok tt) × IsOpened u (leave outcome u).1
  unfolding leave
  leave-IsOpened outcome u routes h = (
    exit_status-outcome _ outcome h,
    open_usb_gate-IsOpened u routes (exit_status-opened _ outcome h),
  )

  -- Nothing but requests since.
  pub data Answers (u : Serving) : Serving → Type 0 where
    none : Answers u u
    asked :
        (message : Action) (v : Serving)
        → Answers u v
        → Answers u (record v { machine = (handle message v.machine).1 })

  -- Two seconds, or thirty, and then the last pass has succeeded and deferred no device.
  abbrev pub IsPaced : Serving → Type 0
  IsPaced v =
      (v.delay ≡ 2)
      ⊎ ((u : Serving) × Answers (pass u) v
          × (v.delay ≡ 30)
          × ((reconcile u.machine).0 ≡ ok tt)
          × ((reconcile u.machine).1.deferred ≡ false))

  pass-IsPaced : (v : Serving) → IsPaced (pass v)
  unfolding pass
  pass-IsPaced v =
      elim (delay_after-cases (reconcile v.machine).0 (reconcile v.machine).1.deferred) [
        | inl e ↦ inl e
        | inr (e, r, b) ↦ inr (v, none, e, r, b)
      ]

  begin-IsPaced : (attach_connected : Bool) (s : Machine) → IsPaced (begin attach_connected s)
  unfolding begin
  begin-IsPaced true s = pass-IsPaced record { machine = s; delay = 2 }
  begin-IsPaced false s = inl refl

  asks-IsPaced :
      (message : Action) (v : Serving)
      → IsPaced v
      → IsPaced (record v { machine = (handle message v.machine).1 })
  asks-IsPaced message v (inl e) = inl e
  asks-IsPaced message v (inr (u, since, e, r, b)) = inr (u, asked message v since, e, r, b)

  -- At any time while the daemon serves, the delay to its next pass is two seconds; or it is thirty, and then
  -- the last pass has succeeded and deferred no device.
  pub Reach-IsPaced :
      (attach_connected : Bool) (s : Machine) (v : Serving)
      → Reach (begin attach_connected s) v
      → IsPaced v
  Reach-IsPaced attach_connected s _ here = begin-IsPaced attach_connected s
  Reach-IsPaced attach_connected s _ (next u w r (wakes u')) = pass-IsPaced u
  Reach-IsPaced attach_connected s _ (next u w r (asks message u')) =
      asks-IsPaced message u (Reach-IsPaced attach_connected s u r)
