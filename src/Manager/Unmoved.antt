-- ===== src/Manager/Unmoved.antt =====
-- The actions of src/manager.rs that leave the manager's record of the devices alone.
use ghaf_device_manager.Base.{ℕ, String, Bool, List}
use ghaf_device_manager.Files.{Files}
use ghaf_device_manager.State.{State, PersistentState}
use ghaf_device_manager.Machine.{FileCall, Notification, Setup, Machine}
use ghaf_device_manager.Machine.Monad.{look, call, run, notify}
use ghaf_device_manager.Machine.Rules.{Keeps, keeps_rules, Keeps-bind}
use ghaf_device_manager.UsbGate.{authorize}
use ghaf_device_manager.Crosvm.Commands.{command, usb_detach}
use ghaf_device_manager.Manager.Store.{write_tmp, replace_file, save}

-- A predicate of the state alone.
abbrev pub OfState : (State → Type 0) → Machine → Type 0
OfState Q s = Q s.state

module _ ⦃d : Setup⦄ (Q : State → Type 0) where
  pub Unmoved-look : {A : Type 0} (f : Files → A) → Keeps (OfState Q) (look f)
  unfolding look
  Unmoved-look f = record { at = λ s h. h }

  Unmoved-call : (c : FileCall) → Keeps (OfState Q) (call c)
  unfolding call
  Unmoved-call c = record { at = λ s h. h }

  pub Unmoved-notify : (n : Notification) → Keeps (OfState Q) (notify n)
  unfolding notify
  Unmoved-notify n = record { at = λ s h. h }

  Unmoved-command : (args : List String) → Keeps (OfState Q) (command args)
  unfolding command run
  Unmoved-command args = Keeps-bind _ _ (record { at = λ s h. h }) (λ output. search keeps_rules)

  pub Unmoved-usb_detach : (socket : String) (port : ℕ) → Keeps (OfState Q) (usb_detach socket port)
  unfolding usb_detach
  Unmoved-usb_detach socket port = Keeps-bind _ _ (Unmoved-command _) (λ output. search keeps_rules)

  pub Unmoved-authorize :
      (devices name : String) (b : Bool) → Keeps (OfState Q) (authorize devices name b)
  unfolding authorize
  Unmoved-authorize devices name b = search (keeps_rules, Unmoved-call, Unmoved-look)

  Unmoved-write_tmp : (tmp : String) (p : PersistentState) → Keeps (OfState Q) (write_tmp tmp p)
  unfolding write_tmp
  Unmoved-write_tmp tmp p = search (keeps_rules, Unmoved-call) depth 7

  Unmoved-replace_file :
      (directory : String) (s : State) → Keeps (OfState Q) (replace_file directory s)
  unfolding replace_file
  Unmoved-replace_file directory s = search (keeps_rules, Unmoved-call, Unmoved-write_tmp) depth 7

  pub Unmoved-save : Keeps (OfState Q) save
  unfolding save
  Unmoved-save = search (keeps_rules, Unmoved-replace_file)
