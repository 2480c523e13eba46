-- ===== src/Manager/Store.antt =====
-- src/state.rs: loading and saving the state file. A new file is written aside and renamed.
pub mod Save
pub mod Disk
pub mod Untouched
pub mod Spans
pub mod Crash
use ghaf_device_manager.Base.{
  ℕ, String, Bool, not, Option, some, none, ◌&&◌, ◌<>◌, ◌/s◌, if◌then◌else◌, unwrap_or, file_name,
  parent, [],
}
use ghaf_device_manager.Base.Outcome.{Result, ok, err, said, or_error, ◌>>=◌ as ◌>>=r◌}
use ghaf_device_manager.Files.{Files}
use ghaf_device_manager.Config.Types.{Config}
use ghaf_device_manager.Config.Vms.{validate}
use ghaf_device_manager.State.{PersistentState, State, default_state, with_mark, with_selection}
use ghaf_device_manager.Machine.{
  create_dir_all, open_truncated, append, sync_all, rename, World, Setup, Machine,
}
use ghaf_device_manager.Machine.Monad.{M, pure, lift, gets, modify, ◌>>=◌, ◌>>◌, call}

abbrev pub tmp_path : String → String → String
tmp_path directory path = directory /s ("." <> (unwrap_or (file_name path) "state" <> ".tmp"))

abbrev pub owner_only : ℕ
owner_only = 0o600

-- `State::load`: what cannot be read or parsed is discarded.
unfoldable pub load : World → Files → Bool → String → State
load w f enabled path = record {
  persistent =
      if enabled && f.exists path
      then (elim (f.read path) [
        | err e ↦ default_state
        | ok text ↦ elim (w.decode text) [ err e ↦ default_state | ok p ↦ p ]
      ])
      else default_state;
  usb_vms = [];
  pci_vms = [];
  enabled = enabled;
  path = path;
}

-- `DeviceManager::with_roots`: the fields at the start.
unfoldable pub with_roots : World → Config → Result Machine
unfolding load
with_roots w c = validate c >>=r λ _. ok (record {
  trace = [];
  state = load w (w.files []) c.general.persistency c.general.state_path;
  observed_usb = [];
  observed_pci = [];
  pending_usb_selection = [];
  usb_routing = [];
  reported_usb_hubs = [];
  deferred = Bool.false;
})

abbrev pub update_state : (State → State) → Machine → Machine
update_state f s = record s { state = f s.state }

module _ ⦃d : Setup⦄ where
  -- serde_json writes the text in many writes, one after the other. They are one append here, which may
  -- leave any part of it.
  unfoldable pub write_tmp : String → PersistentState → M (Unit {0})
  write_tmp tmp persistent = do
    call (open_truncated tmp owner_only)
    text ← lift (d.world.encode persistent)
    call (append tmp text)
    call (append tmp "\n")

  unfoldable pub replace_file : String → State → M (Unit {0})
  replace_file directory state = do
    let tmp = tmp_path directory state.path
    call (create_dir_all directory)
    write_tmp tmp state.persistent
    call (sync_all tmp)
    call (rename tmp state.path)

  unfoldable pub save : M (Unit {0})
  save = do
    state ← gets (λ s. s.state)
    if not state.enabled then pure tt else do
      directory ← lift (or_error (said "state path has no parent") (parent state.path))
      replace_file directory state

  unfoldable pub set_disconnected : String → Bool → M (Unit {0})
  set_disconnected id value = do modify (update_state (with_mark id value)); save

  unfoldable pub select_vm : String → String → M (Unit {0})
  select_vm id vm = do modify (update_state (with_selection id vm)); save
