-- ===== src/UsbGate.antt =====
-- src/usb_gate.rs: the sysfs attributes that authorize USB devices and bind host drivers.
use ghaf_device_manager.Base.{
  String, Bool, true, false, not, ◌&&◌, Option, none, some, List, ◌=s◌, ◌<>◌, ◌/s◌, if◌then◌else◌,
  is_some, is_empty_text, filter, filter_map, trim, file_name, contains_code, strip_prefix,
  is_digits,
}
use ghaf_device_manager.Base.Outcome.{Result, ok, err, with_context, to_option, ◌>>=◌ as ◌>>=r◌}
use ghaf_device_manager.Base.Sorted.{sort}
use ghaf_device_manager.Files.{Files}
use ghaf_device_manager.Machine.{write, Setup}
use ghaf_device_manager.Machine.Monad.{
  M, pure, bail, ◌>>=◌, ◌>>◌, in_context, warned, when, each, look, call,
}

abbrev pub autoprobe_attribute : String
autoprobe_attribute = "drivers_autoprobe"

abbrev pub claim : String
claim = "usbfs"

abbrev pub hub : String
hub = "hub"

unfoldable pub releasable : String → Bool
releasable driver = not (driver =s claim) && not (driver =s hub)

abbrev pub flag : Bool → String
flag true = "1"
flag false = "0"

unfoldable pub is_closed : Files → String → Bool
is_closed f bus = elim (f.read (bus /s autoprobe_attribute)) [
  | ok value ↦ trim value =s "0"
  | err e ↦ false
]

unfoldable pub authorization : Files → String → String → Option Bool
authorization f devices name = elim (f.read (devices /s name /s "authorized")) [
  | err e ↦ none
  | ok value ↦
      if trim value =s "0" then some false else if trim value =s "1" then some true else none
]

unfoldable pub driver : Files → String → String → Option String
driver f devices name = elim (f.read_link (devices /s name /s "driver")) [
  | err e ↦ none
  | ok target ↦ file_name target
]

-- The names of a directory that can be read, sorted; the error is the directory's.
unfoldable pub names_of : Files → String → (String → Bool) → Result (List String)
names_of f devices wanted =
    with_context ("failed to scan " <> devices) (f.read_dir devices) >>=r λ entries.
    ok (sort (filter wanted (filter_map to_option entries)))

unfoldable pub device_names : Files → String → Result (List String)
unfolding names_of
device_names f devices = names_of f devices (λ name. not (contains_code b':' name))

-- The prefix of the names of a device's interfaces.
unfoldable pub interface_prefix : String → String
interface_prefix sys_name = elim (strip_prefix "usb" sys_name) [
  | none ↦ sys_name <> ":"
  | some bus ↦ if not (is_empty_text bus) && is_digits bus then bus <> "-0:" else sys_name <> ":"
]

unfoldable pub interfaces : Files → String → String → Result (List String)
unfolding names_of interface_prefix
interfaces f devices sys_name =
    names_of f devices (λ name. is_some (strip_prefix (interface_prefix sys_name) name))

module _ ⦃d : Setup⦄ where
  unfoldable pub autoprobe : String → String → M (Unit {0})
  autoprobe bus value =
      let path = bus /s autoprobe_attribute in
      in_context ("failed to write " <> path) (call (write path value))

  unfoldable pub close : String → M (Unit {0})
  close bus = autoprobe bus "0"

  unfoldable pub open_bus : String → M (Unit {0})
  open_bus bus = autoprobe bus "1"

  -- A write to an attribute that is there; a failure is logged.
  unfoldable pub set_if_present : String → Bool → M (Unit {0})
  set_if_present path authorized = do
    present ← look (λ f. f.exists path)
    when present (warned (call (write path (flag authorized))))

  unfoldable pub set_names : String → Bool → Result (List String) → M (Unit {0})
  set_names devices authorized (err e) = pure tt
  set_names devices authorized (ok names) =
      each names λ name. set_if_present (devices /s name /s "authorized_default") authorized

  unfoldable pub set_authorized_default : String → Bool → M (Unit {0})
  set_authorized_default devices authorized = do
    when (devices =s "/sys/bus/usb/devices")
        (set_if_present "/sys/module/usbcore/parameters/authorized_default" authorized)
    names ← look (λ f. device_names f devices)
    set_names devices authorized names

  unfoldable pub authorize : String → String → Bool → M (Unit {0})
  authorize devices name authorized = do
    let path = devices /s name /s "authorized"
    present ← look (λ f. f.exists path)
    if present
        then in_context ("failed to write " <> path) (call (write path (flag authorized)))
        else bail ("USB device " <> (name <> " has no authorized attribute"))

  unfoldable pub probe : String → String → M (Unit {0})
  probe bus name =
      in_context ("failed to write " <> (name <> " to drivers_probe"))
        (call (write (bus /s "drivers_probe") name))

  unfoldable pub release : String → String → M (Unit {0})
  release devices name =
      in_context ("failed to unbind the host driver from " <> name)
        (call (write (devices /s name /s "driver/unbind") name))
