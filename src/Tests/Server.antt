-- ===== src/Tests/Server.antt =====
-- The theorems on the API's connections and on the daemon, at concrete inputs.
use ghaf_device_manager.Base.{
  ℕ, suc, List, lines, trim, String, Bool, true, false, ◌≡◌, refl, none, some, [], ◌∷◌, ◌++◌, ◌=s◌,
  ◌<>◌, if◌then◌else◌, Option, eq_iff, false≢true, parent,
}
use ghaf_device_manager.Base.Outcome.{Result, ok, err, said}
use ghaf_device_manager.Protocol.{Action}
use ghaf_device_manager.Machine.{Machine, Setup, Notification, notified}
use ghaf_device_manager.Api
use ghaf_device_manager.Base
use ghaf_device_manager.Base.Sorted
use ghaf_device_manager.Config.Pci
use ghaf_device_manager.Config.Selectors
use ghaf_device_manager.Json
use ghaf_device_manager.UsbGate
use ghaf_device_manager.Machine.Monad
use ghaf_device_manager.Manager.Gate
use ghaf_device_manager.Manager.Claim
use ghaf_device_manager.Machine.Monad.{pure}
use ghaf_device_manager.Api.Connection
use ghaf_device_manager.Api.Listeners
use ghaf_device_manager.Api.Listeners.{Client, Listening, accepted, acquires, accepts}
use ghaf_device_manager.Api.Listeners.Limit.{IsLimited, Reach-IsLimited}
use ghaf_device_manager.Api.Connection.{
  Wire, Connection, handle_line, notify, respond, answer, news, connected, line, takes, elsewhere,
  Sent,
}
use ghaf_device_manager.Api.Connection.Served.{IsServed, Reach-IsServed}
use ghaf_device_manager.Daemon
use ghaf_device_manager.Daemon.{pass, begin, leave, wakes}
use ghaf_device_manager.Daemon.Ways.{leave-IsOpened, IsPaced, Reach-IsPaced}
use ghaf_device_manager.Manager.Gate.Opened.{IsOpened}
use ghaf_device_manager.Files.{Files}
use ghaf_device_manager.Json.{Value, get}
use ghaf_device_manager.Device.{UsbDevice}
use ghaf_device_manager.Config.Types.{Matchers}
use ghaf_device_manager.Config.Selectors.{enabled, removable_excludes, case_eq}
use ghaf_device_manager.Config.Usb.{regex_match, usb_fields_match, usb_selector_matches}
use ghaf_device_manager.Config.Load.Answers.{with_answers, cached_selector_matches-lookups}
use ghaf_device_manager.Config.Load.{
  module_paths, looked_up, paths_of, cached_selector_matches, any_driver, any_module,
}
use ghaf_device_manager.Config.Load.Cached.{module_paths-lookups}
use ghaf_device_manager.Base.Dict
use ghaf_device_manager.Manager.Store.{save, tmp_path}
use ghaf_device_manager.Manager.Store.Disk.{File}
use ghaf_device_manager.Manager.Store.Spans.{Spans}
use ghaf_device_manager.Manager.Store.Crash.{IsSafe, save-IsSafe}
use ghaf_device_manager.Tests.{system, world, bare_files, start, start_state, mouse}

abbrev wire : Wire
wire = record {
  from_str =
      λ text. if text =s "enable" then ok Action.enable_notifications else err (said "no JSON");
  to_string = λ r. ok "response";
}

-- The manager after it has told of the mouse.
abbrev told : Machine
told = record start { trace = notified (Notification.usb_connected mouse) ∷ start.trace }

abbrev asked : Connection
asked =
    handle_line ⦃d = system ""⦄ wire (some (ok "enable")) true
      (connected ⦃d = system ""⦄ wire start)

abbrev waiting : Connection
waiting = record asked { machine = told; unread = asked.unread ++ news asked.machine told }

abbrev plugged : Notification
plugged = Notification.usb_connected mouse

Reach-IsServed_example :
    IsServed ⦃d = system ""⦄ wire
      (plugged ∷ [])
      (notify ⦃d = system ""⦄ wire true plugged [] waiting)
unfolding handle_line respond notify news Api.handle Api.handle_inner pure
Reach-IsServed_example =
    Reach-IsServed ⦃d = system ""⦄ wire start (plugged ∷ [])
      (notify ⦃d = system ""⦄ wire true plugged [] waiting)
      (Connection.next (plugged ∷ []) [] waiting _
        (Connection.next [] (plugged ∷ []) asked waiting
          (Connection.next [] [] (connected ⦃d = system ""⦄ wire start) asked Connection.here
            (line (ok "enable") true (connected ⦃d = system ""⦄ wire start) refl))
          (elsewhere told asked))
        (takes true plugged [] waiting refl refl refl))

abbrev old_disk : String → Option File
old_disk path = some record { content = "old"; synced = true }

save-IsSafe_example :
    Spans ⦃d = system ""⦄ []
      (IsSafe ⦃d = system ""⦄ [] old_disk start_state)
      (save ⦃d = system ""⦄ start)
unfolding parent Base.file_name
save-IsSafe_example =
    save-IsSafe ⦃d = system ""⦄ "/var/lib" start old_disk refl refl
      (λ e. false≢true ((eq_iff (tmp_path "/var/lib" start_state.path) start_state.path).1 e)) refl

-- A closed gate, and no device behind it.
abbrev closed_files : Files
closed_files = record bare_files {
  read =
      λ path. if path =s "/sys/bus/usb/drivers_autoprobe" then ok "0" else err (said "unreadable");
}

abbrev closed : Setup
closed = record (system "") { world = record (world "") { files = λ t. closed_files } }

abbrev served : Result (Unit {0})
served = ok tt

leave-IsOpened_example :
    (served ≡ ok tt) × IsOpened ⦃d = closed⦄ start (leave ⦃d = closed⦄ served start).1
unfolding leave Pci.routes_usb Selectors.enabled Json.get Daemon.exit_status Gate.open_usb_gate
    Monad.◌>>=◌ Monad.look Monad.on_option Claim.usb_bus parent Monad.when UsbGate.is_closed trim
    Gate.reopen UsbGate.open_bus UsbGate.autoprobe Monad.call Gate.usb_held_by_vms Monad.in_context
    Monad.query UsbGate.device_names Monad.each Sorted.sort
leave-IsOpened_example = leave-IsOpened ⦃d = closed⦄ served start refl refl

Reach-IsPaced_example :
    IsPaced ⦃d = system ""⦄ (pass ⦃d = system ""⦄ (begin ⦃d = system ""⦄ false start))
Reach-IsPaced_example =
    Reach-IsPaced ⦃d = system ""⦄ false start
      (pass ⦃d = system ""⦄ (begin ⦃d = system ""⦄ false start))
      (Daemon.next (begin ⦃d = system ""⦄ false start) _ Daemon.here
        (wakes (begin ⦃d = system ""⦄ false start)))

-- modprobe and modinfo that name one module, and count their runs.
abbrev programs : String → List String → ℕ → Option String × ℕ
programs program arguments count = (some "snd", suc count)

module_paths-lookups_example :
    module_paths programs "modprobe" "modinfo" "usb:1" (("usb:1", "snd" ∷ []) ∷ []) 9
    ≡ ("snd" ∷ [], ("usb:1", "snd" ∷ []) ∷ [], 9)
unfolding module_paths looked_up paths_of lines trim Dict.get Dict.insert
module_paths-lookups_example = module_paths-lookups programs "modprobe" "modinfo" "usb:1" [] 0 [] 9

-- A regex crate whose expressions match themselves in their anchored form only.
abbrev literal : Matchers
literal = record {
  build_regex = λ pattern. some (λ text. pattern =s ("^(?:" <> text <> ")"));
  module_paths = λ modalias. [];
}

-- `{"driverPath": "snd"}`.
abbrev by_driver : Value
by_driver = Json.object (Json.field "driverPath" (Json.string "snd") Json.end)

abbrev headset : UsbDevice
headset = record mouse { modaliases = "usb:1" ∷ "usb:2" ∷ [] }

cached_selector_matches-lookups_example :
    true
    ≡ usb_selector_matches (with_answers literal (("usb:1", "snd" ∷ []) ∷ [])) by_driver headset
unfolding cached_selector_matches any_driver any_module usb_fields_match regex_match enabled
    removable_excludes case_eq module_paths looked_up paths_of lines trim Dict.get Dict.insert get
cached_selector_matches-lookups_example =
    cached_selector_matches-lookups programs "modprobe" "modinfo" literal by_driver headset [] 0
      ("usb:1" ∷ []) 9

-- A listener holds a permit, and a guest comes.
abbrev first_held : Listening
first_held = record { free = 63; waiting = 1; connected = [] }

Reach-IsLimited_example :
    IsLimited (5 ∷ []) (accepted (5 ∷ []) (some (Client.vsock 5)) 0 first_held)
Reach-IsLimited_example =
    Reach-IsLimited (5 ∷ []) (accepted (5 ∷ []) (some (Client.vsock 5)) 0 first_held) (
      Listeners.next first_held _
        (Listeners.next Listeners.start first_held Listeners.here
          (acquires 63 Listeners.start refl))
        (accepts (some (Client.vsock 5)) 0 first_held refl))
