-- ===== src/Cli/Run/Ends.antt =====
-- The client always ends, and panics only where standard output fails.
use ghaf_device_manager.Base.{Bool, true, false, Option, none, some}
use ghaf_device_manager.Cli.Commands.{Cli}
use ghaf_device_manager.Cli.Run.{ended, stdout_failed, Exit}
use ghaf_device_manager.Cli.Run.Plans.{is_calm}

-- There is an exit, and it is no panic but that of `println!`.
unfoldable pub exits : {S : Type 0} → Option (Exit × S) → Bool
exits none = false
exits (some ((text, ended e), s)) = is_calm e
exits (some ((text, stdout_failed), s)) = true
