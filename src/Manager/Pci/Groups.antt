-- ===== src/Manager/Pci/Groups.antt =====
-- src/manager.rs: which devices of an IOMMU group `attach_one_pci` and `detach_one_pci` move.
use ghaf_device_manager.Base.{
  String, ◌≡◌, refl, none, some, List, [], ◌∷◌, if◌then◌else◌, contains, arith, eq_iff,
}
use ghaf_device_manager.Base.Dict
use ghaf_device_manager.Base.Dict.{Dict, get-insert, get-remove}
use ghaf_device_manager.Device.{PciDevice}
use ghaf_device_manager.Config.Types.{RuleMatch}
use ghaf_device_manager.State.{State}
use ghaf_device_manager.Manager.Pci.{
  insert_all, remove_all, hold_pci, forget_pci, attach_set, detach_set,
}

pub get-insert_all :
    (addresses : List String) (name : String) (vms : Dict String) (a : String)
    → Dict.get (insert_all addresses name vms) a
      ≡ (if contains addresses a then some name else Dict.get vms a)
get-insert_all [] name vms a = refl
get-insert_all (b ∷ rest) name vms a = ground (
  arith,
  get-insert_all rest name (Dict.insert vms b name) a,
  get-insert vms b name a,
  eq_iff a b,
  eq_iff b a,
)

pub get-remove_all :
    (addresses : List String) (vms : Dict String) (a : String)
    → Dict.get (remove_all addresses vms) a
      ≡ (if contains addresses a then none else Dict.get vms a)
get-remove_all [] vms a = refl
get-remove_all (b ∷ rest) vms a =
    ground
      (arith, get-remove_all rest (Dict.remove vms b) a, get-remove vms b a, eq_iff a b, eq_iff b a)

detach_set-attach_set :
    (device : PciDevice) (rule : RuleMatch) (group : List String)
    → detach_set device rule group ≡ attach_set device rule group
detach_set-attach_set device rule [] = ground arith
detach_set-attach_set device rule (a ∷ group) = ground arith

-- What an attach of a device records for its group, a detach with the same group forgets: no address
-- of the set has a VM afterwards, and every other address has what it had before the attach.
pub forget_pci-hold_pci :
    (device : PciDevice) (rule : RuleMatch) (group : List String) (name : String) (s : State)
    (a : String)
    → Dict.get
        (forget_pci
          (detach_set device rule group)
          (hold_pci (attach_set device rule group) name s)).pci_vms
        a
      ≡ (if contains (attach_set device rule group) a then none else Dict.get s.pci_vms a)
forget_pci-hold_pci device rule group name s a = ground (
  arith,
  detach_set-attach_set device rule group,
  get-remove_all (attach_set device rule group)
      (insert_all (attach_set device rule group) name s.pci_vms) a,
  get-insert_all (attach_set device rule group) name s.pci_vms a,
)
