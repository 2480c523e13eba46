-- ===== src/Device/Storage/Numbers.antt =====
-- `linux_major` and `linux_minor` of src/device.rs, against the way Linux packs a device number.
use ghaf_device_manager.Base.{ℕ, ◌+◌, ◌*◌, ◌/◌, ◌%◌, ◌<◌, ◌≡◌, arith}
use ghaf_device_manager.Device.Storage.{linux_major, linux_minor}

-- `makedev` of the C library: the low 12 bits of the major and the low 8 of the minor stay together, the others
-- stand above them.
abbrev pub make_device : ℕ → ℕ → ℕ
make_device major minor =
    minor % 256 + 256 * (major % 4096) + 1048576 * (minor / 256) + 17592186044416 * (major / 4096)

-- The number that `make_device` packs from a major below 2 ^ 32 and a minor below 2 ^ 28 gives
-- both back.
pub linux_major-make_device :
    (major minor : ℕ)
    → major < 4294967296
    → minor < 268435456
    → (linux_major (make_device major minor) ≡ major)
      × (linux_minor (make_device major minor) ≡ minor)
unfolding linux_major linux_minor
linux_major-make_device major minor h k = (omega arith, omega arith)
