-- ===== src/Invariant/Steps.antt =====
-- The primitive actions, the store, the gate and Crosvm keep a closed invariant.
use ghaf_device_manager.Base.{ℕ, String, Bool, ◌≡◌, Option, List}
use ghaf_device_manager.Base.Outcome.{Result, ok, err}
use ghaf_device_manager.Files.{Files}
use ghaf_device_manager.Config.Types.{Vm}
use ghaf_device_manager.State.{PersistentState, State, with_mark, with_selection}
use ghaf_device_manager.Machine.{FileCall, Notification, Setup, Machine}
use ghaf_device_manager.Machine.Monad.{look, query, call, sleep, notify, modify}
use ghaf_device_manager.Machine.Rules.{Keeps, keeps_rules, Keeps-modify}
use ghaf_device_manager.UsbGate.{
  set_if_present, set_names, set_authorized_default, autoprobe, close, open_bus, authorize, probe,
  release,
}
use ghaf_device_manager.Crosvm.Vfio.{rebind, bind_vfio}
use ghaf_device_manager.Manager.Store.{
  update_state, write_tmp, replace_file, save, set_disconnected, select_vm,
}
use ghaf_device_manager.Invariant.{IsMild, Closed}

module _ ⦃d : Setup⦄ {Target : Vm → Type 0} {P : Machine → Type 0} (c : Closed Target P) where
  pub Keeps-look : {A : Type 0} (f : Files → A) → Keeps P (look f)
  unfolding look
  Keeps-look f = record { at = c.at_look }

  pub Keeps-query : {A : Type 0} (f : Files → Result A) → Keeps P (query f)
  unfolding query
  Keeps-query f = record { at = c.at_look }

  pub Keeps-call : (k : FileCall) → Keeps P (call k)
  unfolding call
  Keeps-call k = record { at = c.at_call k }

  pub Keeps-sleep : (millis : ℕ) → Keeps P (sleep millis)
  unfolding sleep
  Keeps-sleep millis = record { at = c.at_sleep millis }

  pub Keeps-notify : (n : Notification) → Keeps P (notify n)
  unfolding notify
  Keeps-notify n = record { at = c.at_notify n }

  pub Keeps-update : (f : State → State) → IsMild f → Keeps P (modify (update_state f))
  Keeps-update f m = Keeps-modify _ (λ s h. c.at_state f s m h)

  pub Keeps-fields :
      (f : Machine → Machine)
      → ((t : Machine) → ((f t).trace ≡ t.trace) × ((f t).state ≡ t.state))
      → Keeps P (modify f)
  Keeps-fields f k = Keeps-modify f (λ s h. c.at_fields f s k h)

  mark-IsMild : (id : String) (value : Bool) → IsMild (with_mark id value)
  mark-IsMild id value = record { usb = λ s h. h; pci = λ s h. h }

  selection-IsMild : (id vm : String) → IsMild (with_selection id vm)
  selection-IsMild id vm = record { usb = λ s h. h; pci = λ s h. h }

  ruleset steps = (keeps_rules, Keeps-look, Keeps-query, Keeps-call, Keeps-sleep, Keeps-notify)

  pub Keeps-autoprobe : (bus value : String) → Keeps P (autoprobe bus value)
  unfolding autoprobe
  Keeps-autoprobe bus value = search steps

  pub Keeps-close : (bus : String) → Keeps P (close bus)
  unfolding close
  Keeps-close bus = Keeps-autoprobe bus "0"

  pub Keeps-open_bus : (bus : String) → Keeps P (open_bus bus)
  unfolding open_bus
  Keeps-open_bus bus = Keeps-autoprobe bus "1"

  pub Keeps-authorize : (devices name : String) (b : Bool) → Keeps P (authorize devices name b)
  unfolding authorize
  Keeps-authorize devices name b = search steps

  Keeps-set_if_present : (path : String) (b : Bool) → Keeps P (set_if_present path b)
  unfolding set_if_present
  Keeps-set_if_present path b = search steps

  Keeps-set_names :
      (devices : String) (b : Bool) (names : Result (List String))
      → Keeps P (set_names devices b names)
  unfolding set_names
  Keeps-set_names devices b (ok names) = search (steps, Keeps-set_if_present)
  Keeps-set_names devices b (err e) = search steps

  pub Keeps-set_authorized_default :
      (devices : String) (b : Bool) → Keeps P (set_authorized_default devices b)
  unfolding set_authorized_default
  Keeps-set_authorized_default devices b = search (steps, Keeps-set_if_present, Keeps-set_names)

  pub Keeps-probe : (bus name : String) → Keeps P (probe bus name)
  unfolding probe
  Keeps-probe bus name = search steps

  pub Keeps-release : (devices name : String) → Keeps P (release devices name)
  unfolding release
  Keeps-release devices name = search steps

  Keeps-rebind :
      (address root : String) (current : Option String) → Keeps P (rebind address root current)
  unfolding rebind
  Keeps-rebind address root current = search steps depth 7

  pub Keeps-bind_vfio : (address root : String) → Keeps P (bind_vfio address root)
  unfolding bind_vfio
  Keeps-bind_vfio address root = search (steps, Keeps-rebind)

  Keeps-write_tmp : (tmp : String) (p : PersistentState) → Keeps P (write_tmp tmp p)
  unfolding write_tmp
  Keeps-write_tmp tmp p = search steps depth 7

  Keeps-replace_file : (directory : String) (s : State) → Keeps P (replace_file directory s)
  unfolding replace_file
  Keeps-replace_file directory s = search (steps, Keeps-write_tmp) depth 7

  pub Keeps-save : Keeps P save
  unfolding save
  Keeps-save = search (steps, Keeps-replace_file)

  pub Keeps-set_disconnected : (id : String) (b : Bool) → Keeps P (set_disconnected id b)
  unfolding set_disconnected
  Keeps-set_disconnected id b = search (keeps_rules, Keeps-update, Keeps-save, mark-IsMild)

  pub Keeps-select_vm : (id vm : String) → Keeps P (select_vm id vm)
  unfolding select_vm
  Keeps-select_vm id vm = search (keeps_rules, Keeps-update, Keeps-save, selection-IsMild)

pub ruleset step_rules = (
  keeps_rules, Keeps-look, Keeps-query, Keeps-call, Keeps-sleep, Keeps-notify, Keeps-authorize,
  Keeps-probe, Keeps-release, Keeps-bind_vfio, Keeps-save, Keeps-set_disconnected, Keeps-select_vm,
)
