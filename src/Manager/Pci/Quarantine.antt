-- ===== src/Manager/Pci/Quarantine.antt =====
-- `attach_one_pci` of src/manager.rs: what is done before Crosvm is asked to add a device.
use ghaf_device_manager.Base.{String, Bool, true, false, ◌≡◌, List, ◌⊎◌}
use ghaf_device_manager.Base.Outcome.{Result, ok, err}
use ghaf_device_manager.Device.{PciDevice}
use ghaf_device_manager.Config.Types.{Vm, RuleMatch}
use ghaf_device_manager.Machine.{Setup, Machine}
use ghaf_device_manager.Manager.Pci.{quarantine_of, attach_set, attach_group}
use ghaf_device_manager.Manager.Pci.Bound.{vfio_adds, all_bound}

module _ ⦃d : Setup⦄ where
  abbrev is_error : {A : Type 0} → Result A → Bool
  is_error (ok a) = false
  is_error (err e) = true

  -- The attach fails before Crosvm is asked to add a device; or else every address that the host gives up with the
  -- device is bound first, none is added before, and what follows is the attach of the group.
  abbrev pub IsQuarantined : PciDevice → RuleMatch → Machine → Result (Unit {0}) × Machine → Type 0
  IsQuarantined device rule s r =
      ((is_error (r.0) ≡ true) × (vfio_adds (r.1.trace) ≡ vfio_adds s.trace))
      ⊎ ((v : Vm) × ((live : List String) × ((group : List String) × ((u : Machine) × ((r
                    ≡ attach_group device v live (attach_set device rule group) u)
                  × (vfio_adds u.trace ≡ vfio_adds s.trace)
                  × (all_bound (quarantine_of device group) u.trace ≡ true))))))
