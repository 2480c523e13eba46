-- ===== src/Invariant/Commands.antt =====
-- The commands to Crosvm keep a closed invariant, if they go to the socket of a configured VM.
use ghaf_device_manager.Base.{
  ℕ, zero, suc, String, Bool, true, false, ◌≡◌, refl, some, List, [], ◌∷◌, ◌<>◌, ◌==◌, not, is_text,
  first, contains, trim, split_whitespace, if◌then◌else◌,
}
use ghaf_device_manager.Config.Types.{Vm}
use ghaf_device_manager.Machine.{Setup, Machine}
use ghaf_device_manager.Machine.Monad.{run, when, sleep, pure, bail}
use ghaf_device_manager.Machine.Rules.{
  Keeps, Keeps-bind, Keeps-if, Keeps-pure, Keeps-bail, keeps_rules,
}
use ghaf_device_manager.Crosvm.Replies.{UsbEntry}
use ghaf_device_manager.Crosvm.Commands.{
  pci_path, command, usb_list, attached_port, usb_attach_rounds, usb_attach, usb_detach, vfio_list,
  await_vfio, vfio_add, vfio_remove,
}
use ghaf_device_manager.Invariant.{IsVm, Closed, last, is_attach}
use ghaf_device_manager.Invariant.Steps.{Keeps-sleep}

module _ ⦃d : Setup⦄ {Target : Vm → Type 0} {P : Machine → Type 0} (c : Closed Target P) (v : Vm)
    (known : IsVm v) where
  Keeps-command :
      (args : List String)
      → last ("--no-syslog" ∷ args) ≡ some v.socket
      → is_attach ("--no-syslog" ∷ args) ≡ false
      → Keeps P (command args)
  unfolding command run
  Keeps-command args ends plain =
      Keeps-bind _ _
        (record { at = λ s h. c.at_command ("--no-syslog" ∷ args) v s known ends plain h })
        (λ output. search keeps_rules)

  Keeps-attach_command :
      Target v
      → (node : String)
      → Keeps P (command ("usb" ∷ "attach" ∷ "00:00:00:00" ∷ node ∷ v.socket ∷ []))
  unfolding command run
  Keeps-attach_command target node =
      Keeps-bind _ _ (record { at = λ s h. c.at_attach node v s known target h })
        (λ output. search keeps_rules)

  pub Keeps-usb_list : Keeps P (usb_list v.socket)
  unfolding usb_list
  Keeps-usb_list = Keeps-bind _ _ (Keeps-command _ refl refl) (λ output. search keeps_rules)

  Keeps-attached_port :
      (before : List UsbEntry) (fields : List String)
      → Keeps P (attached_port v.socket before fields)
  unfolding attached_port
  Keeps-attached_port before fields = search (keeps_rules, Keeps-usb_list)

  Keeps-pause : (left : ℕ) → Keeps P (when (not (left == 0)) (sleep 250))
  Keeps-pause left = search (keeps_rules, Keeps-sleep c)

  Keeps-usb_attach_rounds :
      Target v
      → (left : ℕ) (node : String) (before : List UsbEntry)
      → Keeps P (usb_attach_rounds left v.socket node before)
  unfolding usb_attach_rounds
  Keeps-usb_attach_rounds target zero node before = search keeps_rules
  Keeps-usb_attach_rounds target (suc left) node before =
      let again = Keeps-usb_attach_rounds target left node before in
      Keeps-bind _ _ (Keeps-attach_command target node) λ output.
        let fields = split_whitespace output in
        let retry =
          Keeps-bind (when (not (left == 0)) (sleep 250)) _ (Keeps-pause left) (λ _. again) in
        let refused = bail ("unexpected Crosvm USB attach response: " <> trim output) in
        Keeps-if (is_text (first fields) "ok") (attached_port v.socket before fields) _
          (Keeps-attached_port before fields)
          (Keeps-if (not (is_text (first fields) "no_available_port")) refused _ (Keeps-bail _)
            retry)

  pub Keeps-usb_attach : Target v → (node : String) → Keeps P (usb_attach v.socket node)
  unfolding usb_attach
  Keeps-usb_attach target node =
      search (keeps_rules, Keeps-usb_list, Keeps-usb_attach_rounds target 6 node)

  pub Keeps-usb_detach : (port : ℕ) → Keeps P (usb_detach v.socket port)
  unfolding usb_detach
  Keeps-usb_detach port = Keeps-bind _ _ (Keeps-command _ refl refl) (λ output. search keeps_rules)

  pub Keeps-vfio_list : Keeps P (vfio_list v.socket)
  unfolding vfio_list
  Keeps-vfio_list = Keeps-bind _ _ (Keeps-command _ refl refl) (λ output. search keeps_rules)

  Keeps-await_vfio :
      (present : Bool) (left : ℕ) (path message : String)
      → Keeps P (await_vfio present left v.socket path message)
  unfolding await_vfio
  Keeps-await_vfio present zero path message = search keeps_rules
  Keeps-await_vfio present (suc left) path message =
      let again = Keeps-await_vfio present left path message in
      Keeps-bind _ _ Keeps-vfio_list λ live.
        Keeps-if (if contains live path then present else not present) (pure tt) _ (Keeps-pure tt)
          (Keeps-bind (when (not (left == 0)) (sleep 250)) _ (Keeps-pause left) (λ _. again))

  pub Keeps-vfio_add : (address : String) → Keeps P (vfio_add v.socket address)
  unfolding vfio_add
  Keeps-vfio_add address =
      let path = pci_path address in
      Keeps-bind _ _ Keeps-vfio_list λ live.
        Keeps-if (contains live path) (pure tt) _ (Keeps-pure tt) (
          Keeps-bind (command ("vfio" ∷ "add" ∷ path ∷ v.socket ∷ [])) _ (Keeps-command _ refl refl)
            (λ _. Keeps-await_vfio true 6 path _))

  pub Keeps-vfio_remove : (address : String) → Keeps P (vfio_remove v.socket address)
  unfolding vfio_remove
  Keeps-vfio_remove address =
      let path = pci_path address in
      Keeps-bind _ _ Keeps-vfio_list λ live.
        Keeps-if (not (contains live path)) (pure tt) _ (Keeps-pure tt) (
          Keeps-bind (command ("vfio" ∷ "remove" ∷ path ∷ v.socket ∷ [])) _
            (Keeps-command _ refl refl) (λ _. Keeps-await_vfio false 6 path _))
