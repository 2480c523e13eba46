-- ===== src/Files.antt =====
-- The file system as one look finds it. It is no code of the repository, so its answers are open.
use ghaf_device_manager.Base.{ℕ, String, Bool, Option, List}
use ghaf_device_manager.Base.Outcome.{Result}

-- `fs::metadata`: the device and inode, the nanoseconds of the change time, and for a device node
-- the device that it stands for.
pub record Metadata : Type 0 where
  pub dev : ℕ
  pub ino : ℕ
  pub ctime_nsec : ℕ
  pub is_block_device : Bool
  pub rdev : ℕ

-- What one look at the file system finds. A path that cannot be read is an error.
pub record Files : Type 0 where
  pub exists : String → Bool
  pub is_file : String → Bool
  pub read : String → Result String
  pub read_bytes : String → Result (List ℕ)
  -- A directory's names; an entry that cannot be read is an error of its own.
  pub read_dir : String → Result (List (Result String))
  pub read_link : String → Result String
  pub canonicalize : String → Result String
  pub metadata : String → Option Metadata
