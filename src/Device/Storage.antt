-- ===== src/Device/Storage.antt =====
-- src/device.rs: whether a USB device backs storage that the host is using.
pub mod Numbers
pub mod Closure
use ghaf_device_manager.Base.{
  ℕ, zero, suc, ◌+◌, ◌*◌, ◌/◌, ◌%◌, ◌^◌, String, Bool, true, false, not, ◌&&◌, Option, none, some,
  List, [], ◌∷◌, ◌++◌, map, ◌=s◌, ◌<>◌, ◌/s◌, if◌then◌else◌, is_some_and, is_empty, any, filter,
  filter_map, find, length, contains, trim, decimal, lies_under, split_whitespace, lines,
}
use ghaf_device_manager.Base.Outcome.{Result, ok, err, with_context, to_option, ◌>>=◌}
use ghaf_device_manager.Files.{Files, Metadata}

pub record BlockDevice : Type 0 where
  pub name : String
  pub device_id : String
  pub sys_path : String
  pub slaves : List String
  pub has_holders : Bool

-- The names of the blocks that are in the list or stand on a member of it: one round of the loop
-- adds those of `dependents`.
unfoldable pub dependents : List BlockDevice → List String → List String
dependents blocks backing =
    map (λ (b : BlockDevice). b.name)
      (filter
        (λ (b : BlockDevice). not (contains backing b.name) && any (contains backing) b.slaves)
        blocks)

-- The loop; it ends when a round finds nothing.
unfoldable pub closure : ℕ → List BlockDevice → List String → List String
closure zero blocks backing = backing
closure (suc fuel) blocks backing =
    let more = dependents blocks backing in
    let rest = closure fuel blocks (backing ++ more) in if is_empty more then backing else rest

-- The blocks that lie under the device itself.
unfoldable pub direct : List BlockDevice → String → List BlockDevice
direct blocks device = filter (λ (b : BlockDevice). lies_under b.sys_path device) blocks

unfoldable pub backs_active : List BlockDevice → String → List String → Bool
unfolding closure dependents
backs_active blocks device active =
    let own = direct blocks device in
    if any (λ (b : BlockDevice). b.has_holders) own
    then true
    else let backing = closure (length blocks) blocks (map (λ (b : BlockDevice). b.name) own) in
      any (λ (b : BlockDevice). contains backing b.name && contains active b.device_id) blocks

module _ (f : Files) where
  abbrev names_in : Result (List (Result String)) → List String
  names_in (ok entries) = filter_map to_option entries
  names_in (err e) = []

  abbrev is_nonempty : Result (List (Result String)) → Bool
  is_nonempty (ok entries) = not (is_empty entries)
  is_nonempty (err e) = false

  -- An entry whose path or number cannot be read is passed over.
  unfoldable pub block_of : String → String → Option BlockDevice
  block_of root name =
      let path = root /s name in
      elim (f.canonicalize path) [
        | err e ↦ none
        | ok sys_path ↦ elim (f.read (path /s "dev")) [
          | err e ↦ none
          | ok device_id ↦ some (record {
            name = name;
            device_id = trim device_id;
            sys_path = sys_path;
            slaves = names_in (f.read_dir (path /s "slaves"));
            has_holders = is_nonempty (f.read_dir (path /s "holders"));
          })
        ]
      ]

  abbrev all_ok : List (Result String) → Result (List String)
  all_ok [] = ok []
  all_ok (entry ∷ entries) = do name ← entry; names ← all_ok entries; ok (name ∷ names)

  unfoldable pub usb_backs_active_storage : String → String → List String → Result Bool
  unfolding block_of backs_active
  usb_backs_active_storage path block_root active = do
    device ← with_context ("failed to resolve USB device " <> path) (f.canonicalize path)
    entries ← with_context ("failed to scan " <> block_root) (f.read_dir block_root)
    names ← all_ok entries
    ok (backs_active (filter_map (block_of block_root) names) device active)

-- `(x >> k) & mask` of the kernel's split device numbers, on the digits of a `u64`.
unfoldable pub linux_major : ℕ → ℕ
linux_major device = device / 2 ^ 8 % 2 ^ 12 + (device / 2 ^ 44 % 2 ^ 20) * 2 ^ 12

unfoldable pub linux_minor : ℕ → ℕ
linux_minor device = device % 2 ^ 8 + (device / 2 ^ 20 % 2 ^ 20) * 2 ^ 8

abbrev third : List String → Option String
third (a ∷ b ∷ c ∷ rest) = some c
third _ = none

abbrev head : List String → Option String
head [] = none
head (x ∷ xs) = some x

abbrev rest_of : List String → List String
rest_of [] = []
rest_of (x ∷ xs) = xs

abbrev device_number : Metadata → String
device_number m =
    let raw = if m.is_block_device then m.rdev else m.dev in
    decimal (linux_major raw) <> (":" <> decimal (linux_minor raw))

abbrev swap_number : Option Metadata → Option String
swap_number none = none
swap_number (some m) = some (device_number m)

module _ (f : Files) where
  unfoldable pub active_host_storage_device_ids : Result (List String)
  unfolding linux_major linux_minor
  active_host_storage_device_ids = do
    mountinfo ←
        with_context "failed to read mounted host filesystems" (f.read "/proc/self/mountinfo")
    swaps ← with_context "failed to read active host swaps" (f.read "/proc/swaps")
    let mounted = filter_map (λ line. third (split_whitespace line)) (lines mountinfo)
    let sources = filter_map (λ line. head (split_whitespace line)) (rest_of (lines swaps))
    ok (mounted ++ filter_map (λ source. swap_number (f.metadata source)) sources)

  unfoldable pub usb_backs_host_storage : String → Result Bool
  usb_backs_host_storage path = do
    active ← active_host_storage_device_ids
    usb_backs_active_storage f path "/sys/class/block" active
