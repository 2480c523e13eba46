-- ===== src/Crosvm/Vfio.antt =====
-- `bind_vfio` of src/crosvm.rs and `iommu_group` of src/device.rs.
use ghaf_device_manager.Base.{
  String, Option, none, List, [], ◌<>◌, ◌/s◌, if◌then◌else◌, is_some, is_text, filter_map,
  file_name, parent,
}
use ghaf_device_manager.Base.Outcome.{Result, ok, err, said, or_error, to_option, ◌>>=◌ as ◌>>=r◌}
use ghaf_device_manager.Base.Sorted.{sort}
use ghaf_device_manager.Files.{Files}
use ghaf_device_manager.Machine.{write, Setup}
use ghaf_device_manager.Machine.Monad.{M, pure, lift, ◌>>=◌, ◌>>◌, in_context, when, look, call}

unfoldable pub fs_driver : Files → String → Option String
fs_driver f device = elim (f.read_link (device /s "driver")) [
  | err e ↦ none
  | ok target ↦ file_name target
]

unfoldable pub iommu_group : Files → String → String → Result (List String)
iommu_group f address root =
    let link = root /s address /s "iommu_group" in
    if f.exists link
    then (f.canonicalize link >>=r λ group.
        f.read_dir (group /s "devices") >>=r λ members. ok (sort (filter_map to_option members)))
    else ok []

module _ ⦃d : Setup⦄ where
  -- The three writes that move a device to vfio-pci.
  unfoldable pub rebind : String → String → Option String → M (Unit {0})
  rebind address root current_driver = do
    let device = root /s address
    when (is_some current_driver) (
        in_context ("failed to unbind PCI device " <> address)
          (call (write (device /s "driver/unbind") address)))
    in_context ("failed to set driver_override for " <> address)
        (call (write (device /s "driver_override") "vfio-pci"))
    bus ← lift (or_error (said "invalid PCI sysfs root") (parent root))
    in_context ("failed to probe vfio-pci for " <> address)
        (call (write (bus /s "drivers_probe") address))

  unfoldable pub bind_vfio : String → String → M (Unit {0})
  bind_vfio address root = do
    current_driver ← look (λ f. fs_driver f (root /s address))
    if is_text current_driver "vfio-pci" then pure tt else rebind address root current_driver
