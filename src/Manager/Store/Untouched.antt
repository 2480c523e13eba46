-- ===== src/Manager/Store/Untouched.antt =====
-- The files that a call does not touch, and the disk after a call that has succeeded.
use ghaf_device_manager.Base.{
  String, ◌=s◌, Bool, false, ◌||◌, ◌≡◌, refl, ap, sym, ◌∙◌, Option, none, some, ◌∷◌, ◌++◌, arith,
}
use ghaf_device_manager.Machine.{
  FileCall, write, create_dir_all, open_truncated, append, sync_all, rename, chown, called, Trace,
  Setup,
}
use ghaf_device_manager.Manager.Store.Disk.{File, set, apply, spoilt, Runs, done, failed, spoiled}

abbrev pub touches : FileCall → String → Bool
touches (write p text) q = p =s q
touches (open_truncated p mode) q = p =s q
touches (append p text) q = p =s q
touches (sync_all p) q = p =s q
touches (rename p p') q = (p =s q) || (p' =s q)
touches (create_dir_all p) q = false
touches (chown p uid gid) q = false

pub set-other :
    (p q : String) (f : Option File) (now : String → Option File)
    → (p =s q) ≡ false
    → set p f now q ≡ now q
unfolding set
set-other p q f now h = rw h refl

or-false : (a b : Bool) → (a || b) ≡ false → (a ≡ false) × (b ≡ false)
or-false a b h = ground (arith)

pub apply-untouched :
    (c : FileCall) (q : String) (now : String → Option File)
    → touches c q ≡ false
    → apply c now q ≡ now q
unfolding apply
apply-untouched (write p text) q now h = set-other p q _ now h
apply-untouched (open_truncated p mode) q now h = set-other p q _ now h
apply-untouched (append p text) q now h = set-other p q _ now h
apply-untouched (sync_all p) q now h = set-other p q _ now h
apply-untouched (rename p p') q now h =
    let (h1, h2) = or-false (p =s q) (p' =s q) h in set-other p q _ _ h1 ∙ set-other p' q _ now h2
apply-untouched (create_dir_all p) q now h = refl
apply-untouched (chown p uid gid) q now h = refl

some-injective : {A : Type 0} (a b : A) → some a ≡ some b → a ≡ b
some-injective a b e = cc

none≢some : {A P : Type 0} (a : A) → none ≡ some a → P
none≢some a e = cc

spoilt-touched :
    (c : FileCall) (p q : String) → spoilt c ≡ some p → touches c q ≡ false → (p =s q) ≡ false
spoilt-touched (write p' text) p q e h = ap (λ r. r =s q) (sym (some-injective p' p e)) ∙ h
spoilt-touched (open_truncated p' mode) p q e h = ap (λ r. r =s q) (sym (some-injective p' p e)) ∙ h
spoilt-touched (append p' text) p q e h = ap (λ r. r =s q) (sym (some-injective p' p e)) ∙ h
spoilt-touched (sync_all p') p q e h = none≢some p e
spoilt-touched (rename p' p2) p q e h = none≢some p e
spoilt-touched (create_dir_all p') p q e h = none≢some p e
spoilt-touched (chown p' uid gid) p q e h = none≢some p e

module _ ⦃d : Setup⦄ (before : Trace) (disk : String → Option File) where
  -- Every disk that a trace may leave has the property.
  abbrev pub Leaves : ((String → Option File) → Type 0) → Trace → Type 0
  Leaves P t = (now : String → Option File) → Runs before disk t now → P now

  abbrev Has : String → Option File → (String → Option File) → Type 0
  Has q f now = now q ≡ f

  pub Leaves-untouched :
      (c : FileCall) (q : String) (f : Option File) (t : Trace)
      → touches c q ≡ false
      → Leaves (Has q f) t
      → Leaves (Has q f) (called c ∷ t)
  Leaves-untouched c q f t h k _ (done _ _ now r e) = apply-untouched c q now h ∙ k now r
  Leaves-untouched c q f t h k _ (failed _ _ now e r x) = k now r
  Leaves-untouched c q f t h k _ (spoiled _ _ now e p g r x y) =
      set-other p q g now (spoilt-touched c p q y h) ∙ k now r

  -- A call that has succeeded.
  pub Leaves-success :
      (P : (String → Option File) → Type 0) (c : FileCall) (t : Trace)
      → d.world.call (t ++ before) c ≡ none
      → Leaves (λ now. P (apply c now)) t
      → Leaves P (called c ∷ t)
  Leaves-success P c t h k _ (done _ _ now r e) = k now r
  Leaves-success P c t h k _ (failed _ _ now e r x) = none≢some e (sym h ∙ x)
  Leaves-success P c t h k _ (spoiled _ _ now e p g r x y) = none≢some e (sym h ∙ x)

  -- A call that is over, and spoils nothing where it fails.
  pub Leaves-either :
      (P : (String → Option File) → Type 0) (c : FileCall) (t : Trace)
      → spoilt c ≡ none
      → Leaves P t
      → Leaves (λ now. P (apply c now)) t
      → Leaves P (called c ∷ t)
  Leaves-either P c t h k l _ (done _ _ now r e) = l now r
  Leaves-either P c t h k l _ (failed _ _ now e r x) = k now r
  Leaves-either P c t h k l _ (spoiled _ _ now e p g r x y) = none≢some p (sym h ∙ y)
