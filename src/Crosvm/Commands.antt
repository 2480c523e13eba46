-- ===== src/Crosvm/Commands.antt =====
-- src/crosvm.rs: the methods of `Crosvm`, each a command with its reply.
use ghaf_device_manager.Base.{
  ℕ, zero, suc, String, Bool, true, false, not, none, some, List, [], ◌∷◌, ◌==◌, ◌<>◌,
  if◌then◌else◌, contains, first, is_text, is_empty_text, trim, split_whitespace, map, join,
  decimal,
}
use ghaf_device_manager.Machine.{Output, Setup}
use ghaf_device_manager.Machine.Monad.{
  M, pure, bail, lift, ◌>>=◌, ◌>>◌, when, on_option, run, sleep,
}
use ghaf_device_manager.Crosvm.Replies.{
  UsbEntry, parse_port, read_usb_list, read_vfio_list, status_text, is_success, added_ports,
  only_port, tail,
}

abbrev pub deadline : ℕ
deadline = 10

abbrev pub pci_path : String → String
pci_path address = "/sys/bus/pci/devices/" <> address

module _ ⦃d : Setup⦄ where
  unfoldable pub failure_text : List String → Output → String
  failure_text args output =
      let reason =
        if is_empty_text (trim output.stderr) then trim output.stdout else trim output.stderr in
      "Crosvm command ["
      <> (join ", " (map d.world.debug args)
          <> ("] failed with code " <> (status_text output.status <> (": " <> reason))))

  unfoldable pub command : List String → M String
  command args = do
    output ← run d.config.general.crosvm ("--no-syslog" ∷ args) deadline
    if is_success output.status then pure output.stdout else bail (failure_text args output)

  unfoldable pub usb_list : String → M (List UsbEntry)
  usb_list socket = do output ← command ("usb" ∷ "list" ∷ socket ∷ []); lift (read_usb_list output)

  -- The port that an accepted attach has taken: from the reply, or as the one new port.
  unfoldable pub attached_port : String → List UsbEntry → List String → M ℕ
  attached_port socket before fields =
      on_option (elim (first (tail fields)) [ none ↦ none | some word ↦ parse_port word ])
        (do after ← usb_list socket; lift (only_port (added_ports before after))) pure

  -- The rounds of `for attempt in 0..6` that are left; it does not sleep after the last.
  unfoldable pub usb_attach_rounds : ℕ → String → String → List UsbEntry → M ℕ
  usb_attach_rounds zero socket device_node before =
      bail "Crosvm USB attach timed out waiting for a free port"
  usb_attach_rounds (suc left) socket device_node before = do
    output ← command ("usb" ∷ "attach" ∷ "00:00:00:00" ∷ device_node ∷ socket ∷ [])
    let fields = split_whitespace output
    if is_text (first fields) "ok"
        then attached_port socket before fields
        else if not (is_text (first fields) "no_available_port")
        then bail ("unexpected Crosvm USB attach response: " <> trim output)
        else (when (not (left == 0)) (sleep 250)
            >> usb_attach_rounds left socket device_node before)

  unfoldable pub usb_attach : String → String → M ℕ
  usb_attach socket device_node = do
    before ← usb_list socket
    usb_attach_rounds 6 socket device_node before

  unfoldable pub usb_detach : String → ℕ → M (Unit {0})
  usb_detach socket port = do
    output ← command ("usb" ∷ "detach" ∷ decimal port ∷ socket ∷ [])
    if is_text (first (split_whitespace output)) "ok"
        then pure tt
        else bail ("unexpected Crosvm USB detach response: " <> trim output)

  unfoldable pub vfio_list : String → M (List String)
  vfio_list socket = do
    output ← command ("vfio" ∷ "list" ∷ socket ∷ [])
    lift (read_vfio_list output)

  -- Lists the devices until `path` is there, or is gone.
  unfoldable pub await_vfio : Bool → ℕ → String → String → String → M (Unit {0})
  await_vfio present zero socket path message = bail message
  await_vfio present (suc left) socket path message = do
    live ← vfio_list socket
    if (if contains live path then present else not present)
        then pure tt
        else (when (not (left == 0)) (sleep 250) >> await_vfio present left socket path message)

  unfoldable pub vfio_add : String → String → M (Unit {0})
  vfio_add socket address = do
    let path = pci_path address
    live ← vfio_list socket
    if contains live path then pure tt else do
      command ("vfio" ∷ "add" ∷ path ∷ socket ∷ [])
      await_vfio true 6 socket path ("Crosvm accepted VFIO add but " <> (path <> " did not appear"))

  unfoldable pub vfio_remove : String → String → M (Unit {0})
  vfio_remove socket address = do
    let path = pci_path address
    live ← vfio_list socket
    if not (contains live path) then pure tt else do
      command ("vfio" ∷ "remove" ∷ path ∷ socket ∷ [])
      await_vfio false 6 socket path
          ("Crosvm accepted VFIO remove but " <> (path <> " is still attached"))
