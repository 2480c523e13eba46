-- ===== src/Manager/Store/Save.antt =====
-- `State::save` of src/state.rs: the order of its calls, and what it leaves alone.
use mathlib.Core.Path.{subst}
use ghaf_device_manager.Base.{
  String, true, ◌≡◌, refl, ap, ◌∙◌, sym, none, some, [], ◌∷◌, ◌++◌, parent,
}
use ghaf_device_manager.Base.Outcome.{Result, ok}
use ghaf_device_manager.State.{State}
use ghaf_device_manager.Machine.{
  FileCall, called, create_dir_all, open_truncated, append, sync_all, rename, Trace, Setup, Machine,
}
use ghaf_device_manager.Machine.Monad.{◌>>=◌, call}
use ghaf_device_manager.Machine.Outcomes.{
  call_result-ok, Yields, Yields-lift, Yields-bind, Yields-weaken,
}
use ghaf_device_manager.Manager.Store.{tmp_path, owner_only, write_tmp, replace_file, save}

-- The calls of a save that writes `text`, the newest first.
abbrev pub save_events : String → String → String → Trace
save_events directory path text =
    let tmp = tmp_path directory path in
    called (rename tmp path)
    ∷ called (sync_all tmp)
    ∷ called (append tmp "\n")
    ∷ called (append tmp text)
    ∷ called (open_truncated tmp owner_only)
    ∷ called (create_dir_all directory)
    ∷ []

module _ ⦃d : Setup⦄ where
  -- Each call among the newer events has succeeded, after the events before it.
  abbrev pub HaveSucceeded : Trace → Trace → Type 0
  HaveSucceeded [] before = Unit
  HaveSucceeded (called c ∷ new) before =
      (d.world.call (new ++ before) c ≡ none) × HaveSucceeded new before
  HaveSucceeded (e ∷ new) before = HaveSucceeded new before

  -- The events since those of `t`, each with success, over an unmoved state.
  abbrev IsAt : State → Trace → Trace → Machine → Type 0
  IsAt state t new s = (s.trace ≡ new ++ t) × (s.state ≡ state) × HaveSucceeded new t

  Yields-call :
      (c : FileCall) (state : State) (t new : Trace)
      → Yields (IsAt state t new) (call c) (λ _. IsAt state t (called c ∷ new))
  unfolding call
  Yields-call c state t new = record {
    at = λ s (same, unmoved, before) u e. (
      ap (λ x. called c ∷ x) same,
      unmoved,
      (ap (λ x. d.world.call x c) (sym same) ∙ call_result-ok (d.world.call s.trace c) e, before),
    );
  }

  -- That `text` is the state's text is known besides.
  abbrev IsAtText : String → State → Trace → Trace → Machine → Type 0
  IsAtText text state t new s = (d.world.encode state.persistent ≡ ok text) × IsAt state t new s

  Yields-next :
      (c : FileCall) (text : String) (state : State) (t new : Trace)
      → Yields (IsAtText text state t new) (call c) (λ _. IsAtText text state t (called c ∷ new))
  Yields-next c text state t new = record {
    at = λ s (known, here) u e. (known, (Yields-call c state t new).at s here u e);
  }

  IsWritten : String → State → Trace → Trace → Machine → Type 0
  IsWritten tmp state t new s =
      (text : String) × IsAtText text state t
        (called (append tmp "\n") ∷ called (append tmp text) ∷ new) s

  Yields-write_tmp :
      (tmp : String) (state : State) (t new : Trace)
      → Yields
          (IsAt state t new)
          (write_tmp tmp state.persistent)
          (λ _. IsWritten tmp state t (called (open_truncated tmp owner_only) ∷ new))
  unfolding write_tmp IsWritten
  Yields-write_tmp tmp state t new =
      let opened = called (open_truncated tmp owner_only) ∷ new in
      Yields-bind _ _ (Yields-call (open_truncated tmp owner_only) state t new) λ _.
        Yields-bind _ _
          (Yields-lift {Q = λ text. IsAtText text state t opened} (d.world.encode state.persistent)
            (λ text s e h. (e, h)))
          λ text. Yields-bind _ _ (Yields-next (append tmp text) text state t opened) λ _.
            Yields-weaken _ (λ s h. h) (λ u s h. (text, h))
              (Yields-next (append tmp "\n") text state t (called (append tmp text) ∷ opened))

  pub IsSaved : String → State → Trace → Machine → Type 0
  IsSaved directory state t s =
      (text : String) × IsAtText text state t (save_events directory state.path text) s

  Yields-replace_file :
      (directory : String) (state : State) (t : Trace)
      → Yields (IsAt state t []) (replace_file directory state) (λ _. IsSaved directory state t)
  unfolding replace_file IsWritten IsSaved
  Yields-replace_file directory state t =
      let tmp = tmp_path directory state.path in
      Yields-bind _ _ (Yields-call _ state t []) λ _.
        Yields-bind _ _ (Yields-write_tmp tmp state t (called (create_dir_all directory) ∷ [])) λ _.
          record {
            at = λ s (text, h) u e.
                let written =
                  called (append tmp "\n")
                  ∷ called (append tmp text)
                  ∷ called (open_truncated tmp owner_only)
                  ∷ called (create_dir_all directory)
                  ∷ [] in
                let two =
                  Yields-bind (call (sync_all tmp)) _
                    (Yields-next (sync_all tmp) text state t written)
                    (λ _.
                      Yields-next (rename tmp state.path) text state t
                        (called (sync_all tmp) ∷ written)) in
                (text, two.at s h u e);
          }

  pub save-replace_file :
      (directory : String) (s : Machine)
      → s.state.enabled ≡ true
      → parent s.state.path ≡ some directory
      → save s ≡ replace_file directory s.state s
  unfolding save ◌>>=◌
  save-replace_file directory s enabled in_directory = simp (enabled, in_directory)

  -- Persistency is on, and the state's path has a parent: a save that succeeds has created the parent,
  -- opened the temporary file beside the state's with mode 0600, written the state's text to it and a line
  -- feed, synced it, and then renamed it over the state's file, in this order and nothing else; each of
  -- these calls has succeeded; and it leaves the state as it is.
  pub save-IsSaved :
      (directory : String) (s : Machine)
      → s.state.enabled ≡ true
      → parent s.state.path ≡ some directory
      → (save s).0 ≡ ok tt
      → IsSaved directory s.state s.trace (save s).1
  save-IsSaved directory s enabled in_directory h =
      let same = save-replace_file directory s enabled in_directory in
      subst (λ (r : Result (Unit {0}) × Machine). IsSaved directory s.state s.trace r.1) (sym same)
        ((Yields-replace_file directory s.state s.trace).at s (refl, refl, tt) tt
          (ap (λ r. r.0) (sym same) ∙ h))
