-- ===== src/Tests/Witnesses.antt =====
-- The theorems on runs of the manager, at concrete inputs.
use ghaf_device_manager.Base.{
  true, ◌≡◌, ◌=s◌, if◌then◌else◌, refl, none, [], ◌∷◌, any, contains, parent,
}
use ghaf_device_manager.Base.Outcome.{ok, err, said}
use ghaf_device_manager.Base.Dict
use ghaf_device_manager.Files.{Files}
use ghaf_device_manager.Device.{UsbDevice, is_hub}
use ghaf_device_manager.Config.Types.{authorization_enabled, RuleMatch}
use ghaf_device_manager.Config.Vms.{validate}
use ghaf_device_manager.State.{disconnected, with_mark}
use ghaf_device_manager.State.Marks.{disconnected-mark}
use ghaf_device_manager.Machine.{Setup}
use ghaf_device_manager.Machine.Monad
use ghaf_device_manager.Machine.Monad.{M, bail, pure, each_failing, ◌>>=◌}
use ghaf_device_manager.UsbGate.{authorization, authorize}
use ghaf_device_manager.Protocol
use ghaf_device_manager.Protocol.{Action}
use ghaf_device_manager.Manager.Store.{
  load, with_roots, save, select_vm, replace_file, write_tmp, set_disconnected,
}
use ghaf_device_manager.Manager.Store.Save.{IsSaved, save-IsSaved}
use ghaf_device_manager.Manager.Select.{Selector, usb_devices, selected_usb}
use ghaf_device_manager.Manager.Routing.{route, nothing_routed}
use ghaf_device_manager.Manager.Routing.Names.{is_kept, contains-route}
use ghaf_device_manager.Manager.Attach.{
  attach_one_usb, guarded, finish, is_armed, roll_back, record_attachment,
}
use ghaf_device_manager.Manager.Attach.Guard.{IsTakenBack, guarded-IsTakenBack}
use ghaf_device_manager.Manager.Attach.Records.{IsAttached, finish-IsAttached}
use ghaf_device_manager.Manager.Detach.{detach_one_usb, detach_usb, forget, holder, deauthorize}
use ghaf_device_manager.Manager.Detach.Forgets.{
  IsForgotten, IsDetached, forget-IsForgotten, detach_one_usb-IsDetached,
}
use ghaf_device_manager.Manager.Pci.{hold_pci, forget_pci, attach_set, detach_set}
use ghaf_device_manager.Manager.Pci.Groups.{forget_pci-hold_pci}
use ghaf_device_manager.Manager.Passes.{resume_one_usb, resume_usb}
use ghaf_device_manager.Manager.Passes.Resume.{
  IsVisited, detach_one_usb-resume_one_usb, detach_usb-IsVisited, resume_usb-IsVisited,
}
use ghaf_device_manager.Invariant.Sockets.{
  request, pass, IsSound, run_steps, IsAllowed, Adds, run_steps-start-IsSound,
  attach_one_usb-IsAllowed,
}
use ghaf_device_manager.Tests.{
  net_vm, system, world, bare_files, mouse, sound_card, net_rule, start_state, start, claimed,
}

abbrev unplug : Action
unplug = Action.usb_detach (Protocol.UsbSelector.bus_port 1 2)

run_steps-start-IsSound_example :
    IsSound ⦃d = system "devices"⦄
      (run_steps ⦃d = system "devices"⦄ (pass ∷ request unplug ∷ []) start)
unfolding with_roots load validate Dict.get
run_steps-start-IsSound_example =
    run_steps-start-IsSound ⦃d = system "devices"⦄ (pass ∷ request unplug ∷ []) start refl

attach_one_usb-IsAllowed_example :
    Adds ⦃d = system "ok 3"⦄
      (IsAllowed ⦃d = system "ok 3"⦄ net_rule)
      []
      (attach_one_usb ⦃d = system "ok 3"⦄ mouse net_rule none start).1
attach_one_usb-IsAllowed_example =
    attach_one_usb-IsAllowed ⦃d = system "ok 3"⦄ mouse net_rule none start

guarded-IsTakenBack_example :
    IsTakenBack ⦃d = system ""⦄ "1-2" (guarded ⦃d = system ""⦄ mouse (bail "no port") start).1
unfolding authorization_enabled is_hub authorization guarded ◌>>=◌ is_armed Monad.look roll_back
    Monad.when Monad.in_context authorize Monad.call
guarded-IsTakenBack_example =
    guarded-IsTakenBack ⦃d = system ""⦄ mouse (bail "no port") start refl refl refl refl

finish-IsAttached_example :
    IsAttached mouse "/dev/bus/usb/001/002" "net-vm" claimed
      (finish ⦃d = system ""⦄ mouse "/dev/bus/usb/001/002" net_vm claimed start).1.state
unfolding finish ◌>>=◌ Monad.on_option record_attachment select_vm save parent replace_file
    Monad.call write_tmp set_disconnected Monad.when Monad.notify
finish-IsAttached_example =
    finish-IsAttached ⦃d = system ""⦄ mouse "/dev/bus/usb/001/002" net_vm claimed start refl

forget-IsForgotten_example :
    IsForgotten mouse "/dev/bus/usb/001/002" true
      (forget ⦃d = system ""⦄ mouse "/dev/bus/usb/001/002" true start).1.state
forget-IsForgotten_example =
    forget-IsForgotten ⦃d = system ""⦄ mouse "/dev/bus/usb/001/002" true start

detach_one_usb-IsDetached_example :
    IsDetached ⦃d = system ""⦄ mouse true (detach_one_usb ⦃d = system ""⦄ mouse true start).1
unfolding detach_one_usb ◌>>=◌ Monad.on_option holder Dict.get forget Monad.attempt deauthorize
    Monad.when authorization_enabled is_hub Monad.look authorization set_disconnected save parent
    replace_file Monad.call write_tmp bail pure Monad.gets Monad.lift Monad.modify Monad.warned
    Monad.in_context authorize
detach_one_usb-IsDetached_example = detach_one_usb-IsDetached ⦃d = system ""⦄ mouse true start refl

detach_one_usb-resume_one_usb_example :
    resume_one_usb ⦃d = system ""⦄ none
      (mouse, net_rule)
      (detach_one_usb ⦃d = system ""⦄ mouse true start).1
    ≡ (ok tt, (detach_one_usb ⦃d = system ""⦄ mouse true start).1)
unfolding detach_one_usb ◌>>=◌ Monad.on_option holder Dict.get forget Monad.attempt deauthorize
    Monad.when authorization_enabled is_hub Monad.look authorization set_disconnected save parent
    replace_file Monad.call write_tmp bail pure Monad.gets Monad.lift Monad.modify Monad.warned
    Monad.in_context authorize
detach_one_usb-resume_one_usb_example =
    detach_one_usb-resume_one_usb ⦃d = system ""⦄ none mouse net_rule start refl

save-IsSaved_example :
    IsSaved ⦃d = system ""⦄ "/var/lib" start_state [] (save ⦃d = system ""⦄ start).1
unfolding save parent ◌>>=◌ replace_file Monad.call write_tmp
save-IsSaved_example = save-IsSaved ⦃d = system ""⦄ "/var/lib" start refl refl refl

-- A sysfs with the mouse.
abbrev mouse_files : Files
mouse_files = record bare_files {
  read_dir = λ path. if path =s "/dev/usb/devices" then ok (ok "1-2" ∷ []) else ok [];
  read = λ path.
      if path =s "/dev/usb/devices/1-2/busnum"
      then ok "1"
      else if path =s "/dev/usb/devices/1-2/devnum"
      then ok "2"
      else err (said "unreadable");
}

abbrev with_mouse : Setup
with_mouse = record (system "") {
  world = record (world "") { files = λ t. mouse_files };
  usb_root = "/dev/usb/devices";
}

abbrev port_two : Selector
port_two = Protocol.from_usb (Protocol.UsbSelector.bus_port 1 2)

detach_usb-IsVisited_example :
    IsVisited
      (λ (p : UsbDevice × RuleMatch). detach_one_usb ⦃d = with_mouse⦄ p.0 true)
      (selected_usb ⦃d = with_mouse⦄ port_two start)
      (detach_usb ⦃d = with_mouse⦄ port_two true start)
detach_usb-IsVisited_example = detach_usb-IsVisited ⦃d = with_mouse⦄ port_two true start

resume_usb-IsVisited_example :
    IsVisited
      (resume_one_usb ⦃d = with_mouse⦄ none)
      (usb_devices ⦃d = with_mouse⦄ start)
      (resume_usb ⦃d = with_mouse⦄ none start)
resume_usb-IsVisited_example = resume_usb-IsVisited ⦃d = with_mouse⦄ none start

forget_pci-hold_pci_example :
    Dict.get
      (forget_pci (detach_set sound_card net_rule ("0000:00:1f.3" ∷ "0000:00:1f.0" ∷ [])) (
        hold_pci
          (attach_set sound_card net_rule ("0000:00:1f.3" ∷ "0000:00:1f.0" ∷ []))
          "net-vm"
          start_state)).pci_vms
      "0000:00:1f.0"
    ≡ none
forget_pci-hold_pci_example =
    forget_pci-hold_pci sound_card net_rule ("0000:00:1f.3" ∷ "0000:00:1f.0" ∷ []) "net-vm"
      start_state "0000:00:1f.0"

contains-route_example :
    contains
      (route ⦃d = system ""⦄ [] start_state (nothing_routed ⦃d = system ""⦄) (mouse ∷ [])).names
      "1-2"
    ≡ any (is_kept ⦃d = system ""⦄ [] start_state "1-2") (mouse ∷ [])
contains-route_example = contains-route ⦃d = system ""⦄ (mouse ∷ []) start "1-2"

disconnected-mark_example :
    disconnected (with_mark "usb-046d:c52b:None" true start_state) "usb-046d:c52b:None" ≡ true
disconnected-mark_example =
    disconnected-mark start_state "usb-046d:c52b:None" true "usb-046d:c52b:None"
