-- ===== src/Device/Descriptors/Bounds.antt =====
-- `descriptor_interfaces` of src/device.rs: where the walk reads, and that its rounds are enough.
use ghaf_device_manager.Base.{ℕ, ◌+◌, ◌≤◌, ◌≡◌, List, length}
use ghaf_device_manager.Device.{UsbInterface}
use ghaf_device_manager.Device.Descriptors.{at, interface_at}

-- The entry is read from an interface descriptor that lies in the blob with its nine bytes.
abbrev pub IsRead : List ℕ → ℕ × UsbInterface → Type 0
IsRead bytes entry =
    (offset : ℕ) × ((offset + 9 ≤ length bytes)
      × ((at bytes (offset + 1) ≡ 4) × (entry ≡ interface_at bytes offset)))
