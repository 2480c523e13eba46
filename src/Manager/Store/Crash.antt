-- ===== src/Manager/Store/Crash.antt =====
-- `State::save` of src/state.rs, when the power goes or a call fails at any point of it.
use mathlib.Core.Path.{subst}
use text.Mathlib.TextLemmas.{nil-append}
use ghaf_device_manager.Base.{
  String, ◌<>◌, ◌=s◌, eq_iff, eq_refl, true, false, ◌≡◌, ◌≢◌, refl, ap, sym, ◌∙◌, Option, none,
  some, [], ◌∷◌, ◌++◌, ◌⊎◌, inl, inr, Bool-cases, false≢true, parent,
}
use ghaf_device_manager.Base.Outcome.{ok}
use ghaf_device_manager.State.{State}
use ghaf_device_manager.Machine.{
  FileCall, called, create_dir_all, open_truncated, append, sync_all, rename, Trace, Setup, Machine,
}
use ghaf_device_manager.Machine.Monad.{M, ◌>>=◌, call, lift, record_event}
use ghaf_device_manager.Machine.Binds.{bind_assoc, bind-cong}
use ghaf_device_manager.Manager.Store.{tmp_path, owner_only, write_tmp, replace_file, save}
use ghaf_device_manager.Manager.Store.Save.{save-replace_file}
use ghaf_device_manager.Manager.Store.Spans.{
  Ends, Spans, Spans-error, call-Spans, then-Spans, lift-Spans,
}
use ghaf_device_manager.Manager.Store.Untouched.{
  touches, Leaves, Leaves-untouched, Leaves-success, Leaves-either,
}
use ghaf_device_manager.Manager.Store.Disk.{
  File, set, fresh, extended, synced, apply, Survives, missing, kept, lost, Runs, start,
}

module _ ⦃d : Setup⦄ where
  -- The calls of a save in one row.
  in_row : String → String → String → State → M (Unit {0})
  in_row directory tmp path state = call (create_dir_all directory) >>= λ u.
      call (open_truncated tmp owner_only) >>= λ u.
      lift (d.world.encode state.persistent) >>= λ text. call (append tmp text) >>= λ u.
      call (append tmp "\n") >>= λ u. call (sync_all tmp) >>= λ u. call (rename tmp path)

  replace_file-in_row :
      (directory : String) (state : State) (s : Machine)
      → replace_file directory state s
        ≡ in_row directory (tmp_path directory state.path) state.path state s
  unfolding replace_file write_tmp in_row
  replace_file-in_row directory state s =
      let tmp = tmp_path directory state.path in
      bind-cong (call (create_dir_all directory)) _ _ s λ u s1.
        bind_assoc (call (open_truncated tmp owner_only)) _ _ s1
        ∙ bind-cong (call (open_truncated tmp owner_only)) _ _ s1 λ u s2.
          bind_assoc (lift (d.world.encode state.persistent)) _ _ s2
          ∙ bind-cong (lift (d.world.encode state.persistent)) _ _ s2
              λ text s3. bind_assoc (call (append tmp text)) _ _ s3

-- What is left of a file that was synced is its content.
abbrev pub IsDurable : Option File → Type 0
IsDurable none = Unit
IsDurable (some f) = f.synced ≡ true

abbrev pub content_of : Option File → Option String
content_of none = none
content_of (some f) = some (f.content)

module _ ⦃d : Setup⦄ (before : Trace) (disk : String → Option File) (state : State) where
  -- The content from before the save, or the whole text of the state.
  abbrev pub IsOldOrNew : Option String → Type 0
  IsOldOrNew x =
      (x ≡ content_of (disk state.path))
      ⊎ ((text : String) × (d.world.encode state.persistent ≡ ok text) × (x ≡ some (text <> "\n")))

  -- What a loss of power leaves of the state's file is old or new, whatever the calls so far did.
  abbrev pub IsSafe : Trace → Type 0
  IsSafe t =
      (now : String → Option File) (x : Option String)
      → Runs before disk t now
      → Survives (now state.path) x
      → IsOldOrNew x

module _ ⦃d : Setup⦄ (before : Trace) (disk : String → Option File) (tmp : String) (state : State)
    (apart : (tmp =s state.path) ≡ false) (whole : IsDurable (disk state.path)) where
  abbrev path : String
  path = state.path

  abbrev Safe : Trace → Type 0
  Safe t = IsSafe before disk state t

  Survives-content :
      (f : Option File) (x : Option String) → IsDurable f → Survives f x → x ≡ content_of f
  Survives-content _ _ w missing = refl
  Survives-content _ _ w (kept f) = refl
  Survives-content _ _ w (lost f x e) = absurd (false≢true (sym e ∙ w))

  -- The state's file is as it was before.
  abbrev IsKept : Trace → Type 0
  IsKept t = Leaves before disk (λ now. now path ≡ disk path) t

  -- The temporary file is `f`.
  abbrev IsWritten : Option File → Trace → Type 0
  IsWritten f t = Leaves before disk (λ now. now tmp ≡ f) t

  IsKept-start : IsKept []
  IsKept-start _ start = refl

  IsKept-IsSafe : (t : Trace) → IsKept t → Safe t
  IsKept-IsSafe t k now x r v =
      inl (Survives-content (disk path) x whole (subst (λ f. Survives f x) (k now r) v))

  set-same : (f : Option File) (now : String → Option File) → set tmp f now tmp ≡ f
  unfolding set
  set-same f now = rw (eq_refl tmp) refl

  -- A call on the temporary file that has succeeded, and made `f` of it.
  IsWritten-success :
      (c : FileCall) (f : Option File) (t : Trace)
      → d.world.call (t ++ before) c ≡ none
      → ((now : String → Option File) → Runs before disk t now → apply c now tmp ≡ f)
      → IsWritten f (called c ∷ t)
  IsWritten-success c f t h k = Leaves-success before disk (λ now. now tmp ≡ f) c t h k

  renamed-path : (now : String → Option File) → apply (rename tmp path) now path ≡ now tmp
  unfolding apply set
  renamed-path now = rw (apart, eq_refl path) refl

  is_new :
      (text : String) (now : String → Option File) (x : Option String)
      → now tmp ≡ some record { content = ("" <> text) <> "\n"; synced = true }
      → Survives (apply (rename tmp path) now path) x
      → x ≡ some (text <> "\n")
  is_new text now x h v =
      Survives-content _ x refl (subst (λ f. Survives f x) (renamed-path now ∙ h) v)
      ∙ ap (λ t. some (t <> "\n")) (nil-append text)

  -- The rename puts the synced file in place, or nothing happens.
  renamed-IsSafe :
      (text : String) (t : Trace)
      → d.world.encode state.persistent ≡ ok text
      → IsKept t
      → IsWritten (some record { content = ("" <> text) <> "\n"; synced = true }) t
      → Safe (called (rename tmp path) ∷ t)
  renamed-IsSafe text t e k h now x r v =
      Leaves-either before disk
        (λ now. (x : Option String) → Survives (now path) x → IsOldOrNew before disk state x)
        (rename tmp path) t refl (λ now r x v. IsKept-IsSafe t k now x r v)
        (λ now r x v. inr (text, e, is_new text now x (h now r) v)) now r x v

  -- A point of the save before the rename.
  record Stage (t : Trace) (s : Machine) : Type 0 where
    trace : s.trace ≡ t ++ before
    ends : Ends Safe t
    kept : IsKept t

  next-Stage :
      (c : FileCall) (t : Trace) (s : Machine)
      → touches c path ≡ false
      → Stage t s
      → Stage (called c ∷ t) (record_event (called c) s)
  next-Stage c t s h st =
      let still = Leaves-untouched before disk c path (disk path) t h (st.kept) in
      record {
        trace = ap (λ x. called c ∷ x) (st.trace);
        ends = (IsKept-IsSafe (called c ∷ t) still, st.ends);
        kept = still;
      }

  Stage-Spans :
      (c : FileCall) (rest : M (Unit {0})) (t : Trace) (s : Machine)
      → touches c path ≡ false
      → Stage t s
      → (d.world.call (t ++ before) c ≡ none
          → Stage (called c ∷ t) (record_event (called c) s)
          → Spans before Safe (rest (record_event (called c) s)))
      → Spans before Safe ((call c >>= λ u. rest) s)
  Stage-Spans c rest t s h st k =
      let st' = next-Stage c t s h st in
      then-Spans before Safe c rest t s (st.trace) (st.ends) (st'.ends.0) (λ o. k o st')

  -- From the temporary file opened to the end.
  written-Spans :
      (text : String) (t : Trace) (s : Machine)
      → d.world.encode state.persistent ≡ ok text
      → Stage t s
      → IsWritten (fresh "") t
      → Spans before Safe (
          (call (append tmp text) >>= λ u.
          call (append tmp "\n") >>= λ u. call (sync_all tmp) >>= λ u. call (rename tmp path))
            s)
  unfolding apply
  written-Spans text t s e st h = Stage-Spans (append tmp text) _ t s apart st λ o1 st1.
      let h1 =
        IsWritten-success (append tmp text) (fresh ("" <> text)) t o1
          (λ now r. set-same _ now ∙ ap (extended text) (h now r)) in
      Stage-Spans (append tmp "\n") _ _ _ apart st1 λ o2 st2.
        let h2 =
          IsWritten-success (append tmp "\n") (fresh (("" <> text) <> "\n")) _ o2
            (λ now r. set-same _ now ∙ ap (extended "\n") (h1 now r)) in
        Stage-Spans (sync_all tmp) _ _ _ apart st2 λ o3 st3.
          let h3 =
            IsWritten-success (sync_all tmp) _ _ o3
              (λ now r. set-same _ now ∙ ap synced (h2 now r)) in
          call-Spans before Safe (rename tmp path) _ _ (st3.trace) (st3.ends)
            (renamed-IsSafe text _ e (st3.kept) h3)

  row-Spans :
      (directory : String) (s : Machine)
      → s.trace ≡ before
      → Spans before Safe (in_row directory tmp path state s)
  unfolding in_row apply
  row-Spans directory s e =
      let st : Stage [] s = record {
        trace = e;
        ends = IsKept-IsSafe [] IsKept-start;
        kept = IsKept-start;
      } in
      Stage-Spans (create_dir_all directory) _ [] s refl st λ o1 st1.
        Stage-Spans (open_truncated tmp owner_only) _ _ _ apart st1 λ o2 st2.
          lift-Spans before Safe (d.world.encode state.persistent) _ _
            (λ e.
              Spans-error before Safe
                (called (open_truncated tmp owner_only) ∷ called (create_dir_all directory) ∷ []) e
                (record_event (called (open_truncated tmp owner_only))
                  (record_event (called (create_dir_all directory)) s))
                (st2.trace) (st2.ends))
            (λ text k. written-Spans text _ _ k st2 (
              IsWritten-success (open_truncated tmp owner_only) (fresh "") _ o2
                (λ now r. set-same _ now)))

tmp≢path : (a b : String) → a ≢ b → (a =s b) ≡ false
tmp≢path a b h = elim (Bool-cases (a =s b)) [ inl e ↦ absurd (h ((eq_iff a b).0 e)) | inr e ↦ e ]

-- Persistency is on, the state's path has a parent, the temporary path is another, and the state's
-- file, if there is one, was synced. Then at each point of a save, whichever of its calls fail and
-- whatever they leave of the file that they write, a loss of power leaves the state's file with
-- its content from before, or with the whole text of the state and a line feed.
pub save-IsSafe :
    ⦃d : Setup⦄ (directory : String) (s : Machine) (disk : String → Option File)
    → s.state.enabled ≡ true
    → parent s.state.path ≡ some directory
    → tmp_path directory s.state.path ≢ s.state.path
    → IsDurable (disk s.state.path)
    → Spans s.trace (IsSafe s.trace disk s.state) (save s)
save-IsSafe directory s disk enabled in_directory apart whole =
    subst (λ r. Spans s.trace (IsSafe s.trace disk s.state) r)
      (sym (
        save-replace_file directory s enabled in_directory
        ∙ replace_file-in_row directory s.state s))
      (row-Spans s.trace disk (tmp_path directory s.state.path) s.state (tmp≢path _ _ apart) whole
        directory s refl)
