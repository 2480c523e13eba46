-- ===== src/Config/Vms.antt =====
-- src/config.rs: the VMs of the configuration, and `validate`.
use ghaf_device_manager.Base.{
  String, Bool, true, false, not, ◌||◌, List, [], ◌∷◌, ◌=s◌, ◌<>◌, if◌then◌else◌, is_empty_text,
  any, find,
}
use ghaf_device_manager.Base.Outcome.{Result, ok, err, said, or_error}
use ghaf_device_manager.Base.Dict
use ghaf_device_manager.Base.Dict.{Dict}
use ghaf_device_manager.Config.Types.{Vm, VmType, crosvm, qemu, other, Config}

-- `Config::vm`.
unfoldable pub vm : Config → String → Result Vm
vm c name =
    or_error (said ("VM " <> (name <> " is not found in the configuration")))
      (find (λ (v : Vm). v.name =s name) c.vms)

unfoldable pub is_crosvm : VmType → Bool
is_crosvm crosvm = true
is_crosvm qemu = false
is_crosvm other = false

-- The loop of `validate`, with the names met so far.
unfoldable pub check_vms : Dict String → List Vm → Result (Unit {0})
check_vms names [] = ok tt
check_vms names (v ∷ vms) =
    let rest = check_vms (Dict.insert names v.name v.socket) vms in
    if is_empty_text v.name || is_empty_text v.socket
    then err (said "VM name and socket must not be empty")
    else if Dict.contains_key names v.name
    then err (said ("duplicate VM name " <> v.name))
    else rest

unfoldable pub validate : Config → Result (Unit {0})
unfolding check_vms is_crosvm
validate c =
    if any (λ (v : Vm). not (is_crosvm v.vm_type)) c.vms
    then err (said "ghaf-device-manager supports only Crosvm VMs")
    else check_vms [] c.vms
