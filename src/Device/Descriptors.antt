-- ===== src/Device/Descriptors.antt =====
-- `descriptor_interfaces` of src/device.rs: the interface triples in a device's descriptor blob.
pub mod Bounds
use ghaf_device_manager.Base.{
  ℕ, zero, suc, ◌+◌, ◌≤◌, ◌<◌, ◌≡◌, refl, Bool, true, false, ◌&&◌, ◌||◌, Option, none, some, List,
  [], ◌∷◌, ◌++◌, ◌==◌, ltb, leb, arith, if◌then◌else◌, length,
}
use ghaf_device_manager.Device.{UsbInterface}

-- `descriptors[i]`; the source reads inside the blob only, where the default is not met.
abbrev pub at : List ℕ → ℕ → ℕ
at [] i = 0
at (b ∷ bs) zero = b
at (b ∷ bs) (suc i) = at bs i

abbrev pub interface_at : List ℕ → ℕ → ℕ × UsbInterface
interface_at bytes offset = (
  at bytes (offset + 2),
  record {
    class = some (at bytes (offset + 5));
    subclass = some (at bytes (offset + 6));
    protocol = some (at bytes (offset + 7));
  },
)

-- A descriptor that is cut short, or claims fewer than two bytes, ends the walk.
abbrev pub is_cut : List ℕ → ℕ → Bool
is_cut bytes offset = ltb (at bytes offset) 2 || ltb (length bytes) (offset + at bytes offset)

abbrev pub is_interface : List ℕ → ℕ → Bool
is_interface bytes offset = at bytes (offset + 1) == 4 && leb 9 (at bytes offset)

-- The loop, from an offset on. Each round moves on by two bytes at least.
unfoldable pub walk : ℕ → List ℕ → ℕ → List (ℕ × UsbInterface)
walk zero bytes offset = []
walk (suc fuel) bytes offset =
    let rest = walk fuel bytes (offset + at bytes offset) in
    if leb (offset + 2) (length bytes)
    then (if is_cut bytes offset
        then []
        else if is_interface bytes offset
        then interface_at bytes offset ∷ rest
        else rest)
    else []

unfoldable pub descriptor_interfaces : List ℕ → List (ℕ × UsbInterface)
unfolding walk
descriptor_interfaces bytes = walk (length bytes) bytes 0
