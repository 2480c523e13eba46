-- ===== src/Config/Load/Cached.antt =====
-- The cache of module paths: an alias is looked up once, and keeps its answer.
use ghaf_device_manager.Base.{
  String, ◌≡◌, refl, sym, ap, ◌∙◌, Option, none, some, List, [], ◌∷◌, ◌=s◌, eq_iff, inl, inr,
  Bool-cases, Option-cases, eq_refl,
}
use ghaf_device_manager.Base.Dict
use ghaf_device_manager.Base.Dict.{Dict, get-insert}
use ghaf_device_manager.Config.Load.{looked_up, module_paths}

none≢some : {A P : Type 0} (a : A) → none ≡ some a → P
none≢some a e = cc

module _ {S : Type 0} (run : String → List String → S → Option String × S)
    (modprobe modinfo : String) where
  -- Lookups of other aliases, one after the other.
  abbrev pub lookups : List String → Dict (List String) → S → Dict (List String) × S
  lookups [] cache s = (cache, s)
  lookups (a ∷ rest) cache s =
      let (paths, cache', s') = module_paths run modprobe modinfo a cache s in
      lookups rest cache' s'

  hit :
      (a : String) (cache : Dict (List String)) (s : S) (paths : List String)
      → Dict.get cache a ≡ some paths
      → module_paths run modprobe modinfo a cache s ≡ (paths, cache, s)
  unfolding module_paths
  hit a cache s paths h = rw (module_paths, h) refl

  miss :
      (a : String) (cache : Dict (List String)) (s : S)
      → Dict.get cache a ≡ none
      → module_paths run modprobe modinfo a cache s ≡ looked_up run modprobe modinfo a cache s
  unfolding module_paths
  miss a cache s h = rw (module_paths, h) refl

  -- What a lookup returns is in the cache after it.
  pub found :
      (a : String) (cache : Dict (List String)) (s : S)
      → Dict.get (module_paths run modprobe modinfo a cache s).1 a
        ≡ some (module_paths run modprobe modinfo a cache s).0
  unfolding looked_up
  found a cache s = elim (Option-cases (Dict.get cache a)) [
    | inl e ↦ rw (miss a cache s e) (get-insert cache a _ a ∙ rw (eq_refl a) refl)
    | inr (paths, e) ↦ rw (hit a cache s paths e) e
  ]

  pub kept_entry :
      (a b : String) (cache : Dict (List String)) (s : S) (paths : List String)
      → Dict.get cache a ≡ some paths
      → Dict.get (module_paths run modprobe modinfo b cache s).1 a ≡ some paths
  unfolding looked_up
  kept_entry a b cache s paths h = elim (Option-cases (Dict.get cache b)) [
    | inl e ↦ rw (miss b cache s e) (
        get-insert cache b _ a ∙ elim (Bool-cases (b =s a)) [
          | inl same ↦ none≢some paths (sym e ∙ ap (Dict.get cache) ((eq_iff b a).0 same) ∙ h)
          | inr apart ↦ rw apart h
        ])
    | inr (known, e) ↦ rw (hit b cache s known e) h
  ]

  pub kept_entries :
      (bs : List String) (a : String) (cache : Dict (List String)) (s : S) (paths : List String)
      → Dict.get cache a ≡ some paths
      → Dict.get (lookups bs cache s).0 a ≡ some paths
  kept_entries [] a cache s paths h = h
  kept_entries (b ∷ bs) a cache s paths h =
      kept_entries bs a _ _ paths (kept_entry a b cache s paths h)

  -- Once an alias has been looked up, a later lookup of it, after any others, returns the same paths, runs no
  -- program and leaves the cache as it is.
  pub module_paths-lookups :
      (a : String) (cache : Dict (List String)) (s : S) (bs : List String) (later : S)
      → let (paths, cache', s') = module_paths run modprobe modinfo a cache s in
        let cached = (lookups bs cache' s').0 in
        module_paths run modprobe modinfo a cached later ≡ (paths, cached, later)
  module_paths-lookups a cache s bs later =
      let (paths, cache', s') = module_paths run modprobe modinfo a cache s in
      hit a ((lookups bs cache' s').0) later paths
        (kept_entries bs a cache' s' paths (found a cache s))
