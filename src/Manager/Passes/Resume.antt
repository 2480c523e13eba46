-- ===== src/Manager/Passes/Resume.antt =====
-- src/manager.rs: what `resume_usb` leaves alone, and how the loops over devices collect failures.
use ghaf_device_manager.Base.{
  String, Bool, true, false, ◌≡◌, refl, ap, ◌∙◌, Option, List, [], ◌∷◌, is_empty, ◌&&◌,
}
use ghaf_device_manager.Base.Outcome.{Result, ok, err}
use ghaf_device_manager.Device.{UsbDevice, persistent_id}
use ghaf_device_manager.Config.Types.{RuleMatch}
use ghaf_device_manager.State.{disconnected}
use ghaf_device_manager.Machine.{Setup, Machine}
use ghaf_device_manager.Machine.Monad.{
  M, pure, bail, ◌>>=◌, attempt, each_failing, when, continue, add_failure,
}
use ghaf_device_manager.Manager.Select.{Selector, usb_devices, selected_usb, aggregate}
use ghaf_device_manager.Manager.Detach.{detach_one_usb, detach_usb}
use ghaf_device_manager.Manager.Detach.Forgets.{detach_one_usb-IsDetached}
use ghaf_device_manager.Manager.Passes.{resume_one_usb, resume_usb}

module _ ⦃d : Setup⦄ where
  resume_one_usb-disconnected :
      (wanted : Option String) (device : UsbDevice) (rule : RuleMatch) (s : Machine)
      → disconnected s.state (persistent_id device) ≡ true
      → resume_one_usb wanted (device, rule) s ≡ (ok tt, s)
  unfolding resume_one_usb ◌>>=◌ when
  resume_one_usb-disconnected wanted device rule s marked = simp marked

  -- After a USB device has been detached for good with success, a resume of it that comes next
  -- succeeds and leaves the machine as it is, whatever rule routes the device: nothing is looked
  -- at, run or changed.
  pub detach_one_usb-resume_one_usb :
      (wanted : Option String) (device : UsbDevice) (rule : RuleMatch) (s : Machine)
      → (detach_one_usb device true s).0 ≡ ok tt
      → resume_one_usb wanted (device, rule) (detach_one_usb device true s).1
        ≡ (ok tt, (detach_one_usb device true s).1)
  detach_one_usb-resume_one_usb wanted device rule s h =
      let (node, (has, forgotten)) = detach_one_usb-IsDetached device true s h in
      resume_one_usb-disconnected wanted device rule _ forgotten.mark

-- The machine after each item has been visited, whatever the outcomes were.
abbrev pub visit : {A : Type 0} → (A → M (Unit {0})) → List A → Machine → Machine
visit f [] s = s
visit f (x ∷ xs) s = visit f xs (f x s).1

abbrev pub is_ok : {A : Type 0} → Result A → Bool
is_ok (ok a) = true
is_ok (err e) = false

-- Each item is visited with success, one after the other.
abbrev pub all_succeed : {A : Type 0} → (A → M (Unit {0})) → List A → Machine → Bool
all_succeed f [] s = true
all_succeed f (x ∷ xs) s = is_ok (f x s).0 && all_succeed f xs (f x s).1

is_empty-add_failure :
    (name : String) (r : Result (Unit {0})) (failures : List String)
    → is_empty (add_failure name r failures) ≡ (is_ok r && is_empty failures)
is_empty-add_failure name (ok u) failures = refl
is_empty-add_failure name (err e) failures = refl

aggregate-unmoved : (failures : List String) (s : Machine) → (aggregate failures s).1 ≡ s
unfolding aggregate pure bail
aggregate-unmoved [] s = refl
aggregate-unmoved (x ∷ xs) s = refl

is_ok-aggregate :
    (failures : List String) (s : Machine) → is_ok (aggregate failures s).0 ≡ is_empty failures
unfolding aggregate pure bail
is_ok-aggregate [] s = refl
is_ok-aggregate (x ∷ xs) s = refl

record Visits {A : Type 0} (name : A → String) (f : A → M (Unit {0})) (xs : List A) (s : Machine)
    : Type 0 where
  machine : (each_failing name xs f s).1 ≡ visit f xs s
  outcome :
      (failures : List String) × (((each_failing name xs f s).0 ≡ ok failures)
        × (is_empty failures ≡ all_succeed f xs s))

each_failing-Visits :
    {A : Type 0} (name : A → String) (f : A → M (Unit {0})) (xs : List A) (s : Machine)
    → Visits name f xs s
unfolding each_failing ◌>>=◌ attempt
each_failing-Visits name f [] s = record { machine = refl; outcome = ([], (refl, refl)) }
each_failing-Visits name f (x ∷ xs) s =
    let after = (f x s).1 in
    let rest = each_failing-Visits name f xs after in
    let (failures, (collected, none_failed)) = rest.outcome in
    record {
      machine =
          ap
            (λ r.
              (continue r (λ fs. pure (add_failure (name x) (f x s).0 fs))
                (each_failing name xs f after).1).1)
            collected
          ∙ rest.machine;
      outcome = (
        add_failure (name x) (f x s).0 failures,
        (
          ap
              (λ r.
                (continue r (λ fs. pure (add_failure (name x) (f x s).0 fs))
                  (each_failing name xs f after).1).0)
              collected,
          is_empty-add_failure (name x) (f x s).0 failures
              ∙ ap (λ b. is_ok (f x s).0 && b) none_failed,
        ),
      );
    }

collected-visit :
    {A : Type 0} (name : A → String) (f : A → M (Unit {0})) (xs : List A) (s : Machine)
    → ((each_failing name xs f >>= aggregate) s).1 ≡ visit f xs s
      × (is_ok ((each_failing name xs f >>= aggregate) s).0 ≡ all_succeed f xs s)
unfolding aggregate ◌>>=◌
collected-visit name f xs s =
    let all_visits = each_failing-Visits name f xs s in
    let (failures, (collected, none_failed)) = all_visits.outcome in
    (
      ap (λ r. (continue r aggregate (each_failing name xs f s).1).1) collected
          ∙ (aggregate-unmoved failures _ ∙ all_visits.machine),
      ap (λ r. is_ok (continue r aggregate (each_failing name xs f s).1).0) collected
          ∙ (is_ok-aggregate failures _ ∙ none_failed),
    )

-- A selection that fails is the result, and nothing is done after it. Otherwise each item is visited, whichever
-- visits fail, and the result is a success exactly if every visit was one.
abbrev pub IsVisited :
    {A : Type 0}
    → (A → M (Unit {0}))
    → Result (List A) × Machine
    → Result (Unit {0}) × Machine
    → Type 0
IsVisited f (err e, s) r = r ≡ (err e, s)
IsVisited f (ok xs, s) r = (r.1 ≡ visit f xs s) × (is_ok (r.0) ≡ all_succeed f xs s)

continue-IsVisited :
    {A : Type 0} (name : A → String) (f : A → M (Unit {0})) (selected : Result (List A))
    (s : Machine)
    → IsVisited f (selected, s) (continue selected (λ xs. each_failing name xs f >>= aggregate) s)
continue-IsVisited name f (err e) s = refl
continue-IsVisited name f (ok xs) s = collected-visit name f xs s

module _ ⦃d : Setup⦄ where
  -- `detach_usb` on a selector, of which it detaches every device that a rule routes: a selection that fails is the
  -- result. Otherwise each device is detached, one after the other and whichever fail, and the
  -- result is a success exactly if every detach was one.
  pub detach_usb-IsVisited :
      (selector : Selector) (permanent : Bool) (s : Machine)
      → IsVisited
          (λ (p : UsbDevice × RuleMatch). detach_one_usb p.0 permanent)
          (selected_usb selector s)
          (detach_usb selector permanent s)
  unfolding detach_usb ◌>>=◌
  detach_usb-IsVisited selector permanent s =
      continue-IsVisited (λ (p : UsbDevice × RuleMatch). p.0.sys_name)
        (λ p. detach_one_usb p.0 permanent) (selected_usb selector s).0 (selected_usb selector s).1

  -- `resume_usb`: a scan that fails is the result. Otherwise each device that a rule routes is resumed, one after the
  -- other and whichever fail, and the result is a success exactly if every resume was one.
  pub resume_usb-IsVisited :
      (wanted : Option String) (s : Machine)
      → IsVisited (resume_one_usb wanted) (usb_devices s) (resume_usb wanted s)
  unfolding resume_usb ◌>>=◌
  resume_usb-IsVisited wanted s =
      continue-IsVisited (λ (p : UsbDevice × RuleMatch). p.0.sys_name) (resume_one_usb wanted)
        (usb_devices s).0 (usb_devices s).1
