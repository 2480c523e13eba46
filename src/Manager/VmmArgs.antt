-- ===== src/Manager/VmmArgs.antt =====
-- `vmm_args` of src/manager.rs: the arguments that hand a VM its boot-time devices.
pub mod Once
use ghaf_device_manager.Base.{
  ℕ, String, Bool, not, ◌&&◌, ◌||◌, Option, none, some, List, [], ◌∷◌, ◌++◌, ◌<>◌, if◌then◌else◌,
  is_none, is_text, is_empty, contains, filter,
}
use ghaf_device_manager.Base.Outcome.{Result, ok, err, said, with_context}
use ghaf_device_manager.Json.{Value, str_at, array_at}
use ghaf_device_manager.Device.{PciDevice}
use ghaf_device_manager.Config.Types.{RuleMatch}
use ghaf_device_manager.Config.Vms.{vm}
use ghaf_device_manager.Config.Selectors.{entries}
use ghaf_device_manager.Config.Pci.{has_pci_rules}
use ghaf_device_manager.Crosvm.Vfio.{iommu_group, bind_vfio}
use ghaf_device_manager.Machine.{chown, Setup}
use ghaf_device_manager.Machine.Monad.{M, pure, bail, lift, ◌>>=◌, ◌>>◌, look, query, call}
use ghaf_device_manager.Manager.Select.{pci_devices}
use ghaf_device_manager.Manager.Pci.{quarantine_of, attach_set}
use ghaf_device_manager.Manager.Evdev.{json_enabled, evdev_args}

-- `user_id` and `group_id` of src/unix_ids.rs.
unfoldable pub known_id : String → String → Result (Option ℕ) → Result ℕ
known_id kind name found =
    elim (with_context ("failed to look up " <> (kind <> (" " <> name))) found) [
      | err e ↦ err e
      | ok none ↦ err (said ("unknown " <> (kind <> (" " <> name))))
      | ok (some id) ↦ ok id
    ]

-- The addresses of a list that come in it, or in `seen`, for the first time.
unfoldable pub first_seen : List String → List String → List String
first_seen seen [] = []
first_seen seen (a ∷ rest) =
    let again = first_seen seen rest in
    let fresh = first_seen (a ∷ seen) rest in if contains seen a then again else a ∷ fresh

abbrev pub removable_flag : RuleMatch → String
removable_flag rule = if rule.crosvm_use_root_bus then "" else ",removable=true"

abbrev pub vfio_args : RuleMatch → List String → List String
vfio_args rule [] = []
vfio_args rule (address ∷ rest) =
    "--vfio"
    ∷ ("/sys/bus/pci/devices/" <> (address <> (",iommu=viommu" <> removable_flag rule)))
    ∷ vfio_args rule rest

module _ ⦃d : Setup⦄ where
  -- `transpose`: no name is no id.
  unfoldable pub some_id : String → (String → Result (Option ℕ)) → Option String → Result (Option ℕ)
  some_id kind ids none = ok none
  some_id kind ids (some name) =
      elim (with_context ("unknown ACPI table " <> (kind <> (" " <> name)))
        (known_id kind name (ids name))) [ err e ↦ err e | ok id ↦ ok (some id) ]

  unfoldable pub chown_named : String → Option String → Option String → M (Unit {0})
  chown_named path user group = if is_none user && is_none group then pure tt else (do
    uid ← lift (some_id "user" d.world.users user)
    gid ← lift (some_id "group" d.world.groups group)
    call (chown path uid gid))

  unfoldable pub acpi_table : Value → String → M (List String)
  acpi_table allow table = do
    present ← look (λ f. f.is_file table)
    if present
        then (do
          chown_named table (str_at allow "setUser") (str_at allow "setGroup")
          pure ("--acpi-table" ∷ table ∷ []))
        else pure []

  unfoldable pub acpi_allow : Value → M (List String)
  acpi_allow allow =
      if not (json_enabled allow)
      then pure []
      else elim (str_at allow "acpiTable") [ none ↦ pure [] | some table ↦ acpi_table allow table ]

  -- The lists of the items, one after the other.
  unfoldable pub gather : {A : Type 0} → (A → M (List String)) → List A → M (List String)
  gather f [] = pure []
  gather f (x ∷ xs) = do args ← f x; rest ← gather f xs; pure (args ++ rest)

  unfoldable pub acpi_rule : String → Value → M (List String)
  acpi_rule vm_name rule =
      if not (json_enabled rule) || not (is_text (str_at rule "targetVm") vm_name)
      then pure []
      else gather acpi_allow (entries (array_at rule "allow"))

  unfoldable pub bind_all : List String → M (Unit {0})
  bind_all [] = pure tt
  bind_all (address ∷ rest) = do bind_vfio address d.pci_root; bind_all rest

  -- The loop over the devices, with the addresses bound and emitted so far.
  unfoldable pub vfio_devices :
      List String → List String → List (PciDevice × RuleMatch) → M (List String)
  vfio_devices bound emitted [] = pure []
  vfio_devices bound emitted ((device, rule) ∷ rest) = do
    group ← query (λ f. iommu_group f device.address d.pci_root)
    let quarantine = quarantine_of device group
    bind_all (first_seen bound quarantine)
    let passthrough = attach_set device rule group
    others ← vfio_devices (quarantine ++ bound) (passthrough ++ emitted) rest
    pure (vfio_args rule (first_seen emitted passthrough) ++ others)

  -- The two refusals of a caller that needs a PCI device.
  unfoldable pub require_devices : Bool → String → List (PciDevice × RuleMatch) → M (Unit {0})
  require_devices require_pci vm_name devices =
      if require_pci && not (has_pci_rules d.config vm_name)
      then bail ("No PCI passthrough rules are configured for VM " <> vm_name)
      else if require_pci && is_empty devices
      then bail (
          "PCI passthrough is configured for VM "
          <> (vm_name <> ", but no matching devices are present"))
      else pure tt

  unfoldable pub vmm_args : String → Bool → M (List String)
  vmm_args vm_name require_pci = do
    found ← lift (vm d.config vm_name)
    all_devices ← pci_devices
    let devices =
        filter (λ (p : PciDevice × RuleMatch). is_text (p.1.target_vm) vm_name) all_devices
    require_devices require_pci vm_name devices
    let isolate = if has_pci_rules d.config vm_name then "--vfio-isolate-hotplug" ∷ [] else []
    vfio ← vfio_devices [] [] devices
    acpi ← gather (acpi_rule vm_name) d.config.acpi_passthrough
    inputs ← evdev_args d.config.evdev_passthrough vm_name
    pure (isolate ++ (vfio ++ (acpi ++ inputs)))
