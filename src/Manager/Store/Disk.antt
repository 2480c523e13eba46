-- ===== src/Manager/Store/Disk.antt =====
-- What file calls do to a disk that may lose its power: the contents that were not synced may be lost.
use ghaf_device_manager.Base.{
  String, ◌<>◌, ◌=s◌, Bool, true, false, ◌≡◌, Option, none, some, [], ◌∷◌, ◌++◌, if◌then◌else◌,
}
use ghaf_device_manager.Machine.{
  FileCall, write, create_dir_all, open_truncated, append, sync_all, rename, chown, called, Trace,
  Setup,
}

pub record File : Type 0 where
  pub content : String
  pub synced : Bool

unfoldable pub set : String → Option File → (String → Option File) → String → Option File
set p f disk q = if p =s q then f else disk q

abbrev pub fresh : String → Option File
fresh text = some record { content = text; synced = false }

abbrev pub extended : String → Option File → Option File
extended text none = none
extended text (some f) = fresh (f.content <> text)

abbrev pub synced : Option File → Option File
synced none = none
synced (some f) = some record { content = f.content; synced = true }

-- A call that succeeds.
unfoldable pub apply : FileCall → (String → Option File) → String → Option File
apply (write p text) disk = set p (fresh text) disk
apply (open_truncated p mode) disk = set p (fresh "") disk
apply (append p text) disk = set p (extended text (disk p)) disk
apply (sync_all p) disk = set p (synced (disk p)) disk
apply (rename p q) disk = set p none (set q (disk p) disk)
apply (create_dir_all p) disk = disk
apply (chown p uid gid) disk = disk

-- The file whose content a call that fails may have spoiled: a rename is atomic.
abbrev pub spoilt : FileCall → Option String
spoilt (write p text) = some p
spoilt (open_truncated p mode) = some p
spoilt (append p text) = some p
spoilt (sync_all p) = none
spoilt (rename p q) = none
spoilt (create_dir_all p) = none
spoilt (chown p uid gid) = none

-- The content of a file after a loss of power.
pub data Survives : Option File → Option String → Type 0 where
  missing : Survives none none
  kept : (f : File) → Survives (some f) (some (f.content))
  lost : (f : File) (x : Option String) → f.synced ≡ false → Survives (some f) x

module _ ⦃d : Setup⦄ (before : Trace) (disk : String → Option File) where
  -- The disk after the calls of a trace, which is newer than `before`.
  pub data Runs : Trace → (String → Option File) → Type 0 where
    start : Runs [] disk
    done :
        (c : FileCall) (t : Trace) (now : String → Option File)
        → Runs t now
        → d.world.call (t ++ before) c ≡ none
        → Runs (called c ∷ t) (apply c now)
    failed :
        (c : FileCall) (t : Trace) (now : String → Option File) (e : String)
        → Runs t now
        → d.world.call (t ++ before) c ≡ some e
        → Runs (called c ∷ t) now
    spoiled :
        (c : FileCall) (t : Trace) (now : String → Option File) (e p : String) (f : Option File)
        → Runs t now
        → d.world.call (t ++ before) c ≡ some e
        → spoilt c ≡ some p
        → Runs (called c ∷ t) (set p f now)
