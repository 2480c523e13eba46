-- ===== src/Config/Load/Answers.antt =====
-- `Config::usb_selector_matches` with its cache of module paths, against the matching that the rules
-- use, for which the paths of an alias are given.
use ghaf_device_manager.Base.{
  String, Bool, true, false, ◌||◌, ◌≡◌, refl, sym, ap, ◌∙◌, Option, none, some, List, [], ◌∷◌, ◌++◌,
  any, flat_map, is_some_and, if◌then◌else◌, inl, inr, Bool-cases, arith, unwrap_or,
}
use ghaf_device_manager.Base.Dict
use ghaf_device_manager.Base.Dict.{Dict}
use ghaf_device_manager.Json.{Value, str_at}
use ghaf_device_manager.Device.{UsbDevice, UsbInterface}
use ghaf_device_manager.Config.Types.{Matchers}
use ghaf_device_manager.Config.Selectors.{anchored}
use ghaf_device_manager.Config.Usb.{
  regex_match, usb_fields_match, valid_class, usb_selector_matches,
}
use ghaf_device_manager.Config.Load.{
  module_paths, any_module, any_driver, on_regex, on_pattern, cached_selector_matches,
}
use ghaf_device_manager.Config.Load.Cached.{lookups, found, kept_entry, kept_entries}

-- The paths that a cache has for an alias.
abbrev pub answers : Dict (List String) → String → List String
answers cache modalias = unwrap_or (Dict.get cache modalias) []

-- The rules' matchers, with the paths of an alias as the cache has them.
abbrev pub with_answers : Matchers → Dict (List String) → Matchers
with_answers x cache = record { build_regex = x.build_regex; module_paths = answers cache }

kept_answer :
    (cache : Dict (List String)) (a : String) (paths : List String)
    → Dict.get cache a ≡ some paths
    → answers cache a ≡ paths
kept_answer cache a paths h = ap (λ (o : Option (List String)). unwrap_or o []) h

any-append :
    {A : Type 0} (f : A → Bool) (xs ys : List A) → any f (xs ++ ys) ≡ (any f xs || any f ys)
any-append f [] ys = refl
any-append f (x ∷ xs) ys = ground (arith, any-append f xs ys)

same_fields :
    (x : Matchers) (cache : Dict (List String)) (selector : Value) (device : UsbDevice)
    → usb_fields_match (with_answers x cache) selector device ≡ usb_fields_match x selector device
unfolding usb_fields_match regex_match
same_fields x cache selector device = refl

module _ {S : Type 0} (run : String → List String → S → Option String × S)
    (modprobe modinfo : String) where
  -- Every entry of a cache is in another.
  abbrev IsKept : Dict (List String) → Dict (List String) → Type 0
  IsKept cache later =
      (a : String) (paths : List String)
      → Dict.get cache a ≡ some paths
      → Dict.get later a ≡ some paths

  abbrev looked : String → Dict (List String) → S → List String × Dict (List String) × S
  looked a cache s = module_paths run modprobe modinfo a cache s

  any_module-true :
      (f : String → Bool) (a : String) (rest : List String) (cache : Dict (List String)) (s : S)
      → any f (looked a cache s).0 ≡ true
      → any_module run modprobe modinfo f (a ∷ rest) cache s
        ≡ (true, (looked a cache s).1, (looked a cache s).2)
  unfolding any_module
  any_module-true f a rest cache s h = rw (any_module, h) refl

  any_module-false :
      (f : String → Bool) (a : String) (rest : List String) (cache : Dict (List String)) (s : S)
      → any f (looked a cache s).0 ≡ false
      → any_module run modprobe modinfo f (a ∷ rest) cache s ≡ (
          let (paths, cache', s') = looked a cache s in
          any_module run modprobe modinfo f rest cache' s')
  unfolding any_module
  any_module-false f a rest cache s h = rw (any_module, h) refl

  any_module-IsKept :
      (f : String → Bool) (aliases : List String) (cache : Dict (List String)) (s : S)
      → IsKept cache (any_module run modprobe modinfo f aliases cache s).1
  unfolding any_module
  any_module-IsKept f [] cache s a paths h = h
  any_module-IsKept f (b ∷ rest) cache s a paths h =
      let kept = kept_entry run modprobe modinfo a b cache s paths h in
      elim (Bool-cases (any f (looked b cache s).0)) [
        | inl e ↦ rw (any_module-true f b rest cache s e) kept
        | inr e ↦
            rw (any_module-false f b rest cache s e) (any_module-IsKept f rest _ _ a paths kept)
      ]

  any_module-answers :
      (f : String → Bool) (aliases : List String) (cache : Dict (List String)) (s : S)
      (later : Dict (List String))
      → IsKept (any_module run modprobe modinfo f aliases cache s).1 later
      → (any_module run modprobe modinfo f aliases cache s).0
        ≡ any f (flat_map (answers later) aliases)
  unfolding any_module
  any_module-answers f [] cache s later k = refl
  any_module-answers f (b ∷ rest) cache s later k =
      let (paths, cache', s') = looked b cache s in
      let after = found run modprobe modinfo b cache s in
      let others = flat_map (answers later) rest in
      elim (Bool-cases (any f paths)) [
        | inl e ↦
            let step = any_module-true f b rest cache s e in
            let same = kept_answer later b paths (k b paths (rw step after)) in
            ap (λ r. r.0) step ∙ sym (any-append f (answers later b) others ∙ rw (same, e) refl)
        | inr e ↦
            let step = any_module-false f b rest cache s e in
            let kept = any_module-IsKept f rest cache' s' b paths after in
            let same = kept_answer later b paths (k b paths (rw step kept)) in
            ap (λ r. r.0) step
            ∙ (any_module-answers f rest cache' s' later (λ a ps h. k a ps (rw step h))
                ∙ sym (any-append f (answers later b) others ∙ rw (same, e) refl))
      ]

  any_driver-answers :
      (f : String → Bool) (device : UsbDevice) (cache : Dict (List String)) (s : S)
      (later : Dict (List String))
      → IsKept (any_driver run modprobe modinfo f device cache s).1 later
      → (any_driver run modprobe modinfo f device cache s).0
        ≡ any f (device.driver_paths ++ flat_map (answers later) device.modaliases)
  unfolding any_driver
  any_driver-answers f device cache s later k = elim (Bool-cases (any f device.driver_paths)) [
    | inl e ↦ rw (any_driver, any-append, e) refl
    | inr e ↦
        rw (any_driver, any-append, e)
          (any_module-answers f device.modaliases cache s later
            (λ a ps h. k a ps (rw (any_driver, e) h)))
  ]

  on_regex-answers :
      (o : Option (String → Bool)) (device : UsbDevice) (cache : Dict (List String)) (s : S)
      (later : Dict (List String))
      → IsKept (on_regex run modprobe modinfo o device cache s).1 later
      → (on_regex run modprobe modinfo o device cache s).0
        ≡ is_some_and o
            λ f. any f (device.driver_paths ++ flat_map (answers later) device.modaliases)
  on_regex-answers none device cache s later k = refl
  on_regex-answers (some f) device cache s later k = any_driver-answers f device cache s later k

  on_pattern-answers :
      (x : Matchers) (o : Option String) (device : UsbDevice) (cache : Dict (List String)) (s : S)
      (later : Dict (List String))
      → IsKept (on_pattern run modprobe modinfo x o device cache s).1 later
      → (on_pattern run modprobe modinfo x o device cache s).0
        ≡ is_some_and o λ pattern.
          is_some_and
            (x.build_regex (anchored pattern))
            λ f. any f (device.driver_paths ++ flat_map (answers later) device.modaliases)
  on_pattern-answers x none device cache s later k = refl
  on_pattern-answers x (some pattern) device cache s later k =
      on_regex-answers (x.build_regex (anchored pattern)) device cache s later k

  chosen :
      (fields valid : Bool) (cache : Dict (List String)) (s : S) (r : Bool × Dict (List String) × S)
      (later : Dict (List String)) (t : Bool)
      → (IsKept (r.1) later → r.0 ≡ t)
      → IsKept
          ((if fields then (true, cache, s) else if valid then (false, cache, s) else r).1)
          later
      → (if fields then (true, cache, s) else if valid then (false, cache, s) else r).0
        ≡ (if fields then true else if valid then false else t)
  chosen true valid cache s r later t h k = refl
  chosen false true cache s r later t h k = refl
  chosen false false cache s r later t h k = h k

  cached_selector_matches-answers :
      (x : Matchers) (selector : Value) (device : UsbDevice) (cache : Dict (List String)) (s : S)
      (later : Dict (List String))
      → IsKept (cached_selector_matches run modprobe modinfo x selector device cache s).1 later
      → (cached_selector_matches run modprobe modinfo x selector device cache s).0
        ≡ usb_selector_matches (with_answers x later) selector device
  unfolding cached_selector_matches usb_selector_matches
  cached_selector_matches-answers x selector device cache s later k =
      chosen (usb_fields_match x selector device)
        (any (λ (i : UsbInterface). valid_class x i.class) device.interfaces) cache s
        (on_pattern run modprobe modinfo x (str_at selector "driverPath") device cache s) later _
        (on_pattern-answers x (str_at selector "driverPath") device cache s later) k
      ∙ rw (usb_selector_matches, same_fields x later selector device) refl

  -- A USB selector that is matched with the runs of modprobe and modinfo and the cache of module paths, whatever
  -- else is looked up afterwards, gives what the rules' pure matching gives with the paths that the cache then has.
  pub cached_selector_matches-lookups :
      (x : Matchers) (selector : Value) (device : UsbDevice) (cache : Dict (List String)) (s : S)
      (bs : List String) (surroundings : S)
      → let (matches, cache', s') =
          cached_selector_matches run modprobe modinfo x selector device cache s in
        let later = (lookups run modprobe modinfo bs cache' surroundings).0 in
        matches ≡ usb_selector_matches (with_answers x later) selector device
  cached_selector_matches-lookups x selector device cache s bs surroundings =
      let (matches, cache', s') =
        cached_selector_matches run modprobe modinfo x selector device cache s in
      cached_selector_matches-answers x selector device cache s _
        (λ a paths h. kept_entries run modprobe modinfo bs a cache' surroundings paths h)
