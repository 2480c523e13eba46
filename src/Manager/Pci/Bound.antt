-- ===== src/Manager/Pci/Bound.antt =====
-- `attach_one_pci` of src/manager.rs: the addresses that it binds to vfio-pci.
use ghaf_device_manager.Base.{
  ℕ, suc, String, Bool, true, false, ◌&&◌, ◌||◌, ◌≡◌, refl, Option, none, some, List, [], ◌∷◌, ◌/s◌,
  all, is_text, is_none, is_some_and, parent, if◌then◌else◌, eq_refl, arith, ltb, length, ◌<>◌,
  ◌=s◌,
}
use ghaf_device_manager.Base.Outcome.{Result, Error, ok, or_error}
use ghaf_device_manager.Device.{PciDevice}
use ghaf_device_manager.Config.Types.{RuleMatch}
use ghaf_device_manager.Machine.{FileCall, write, looked, called, ran, Trace, Setup, Machine}
use ghaf_device_manager.Machine.Monad.{bail, look, query, call, run, each, in_context}
use ghaf_device_manager.Machine.Rules.{
  Keeps, Keeps-bind, Keeps-then, Keeps-if, Keeps-pure, Keeps-bail, Keeps-lift, Keeps-when,
  Keeps-each, Keeps-in_context,
}
use ghaf_device_manager.Machine.Outcomes.{
  Yields, Yields-lift, Yields-pure, Yields-bail, Yields-if, Yields-bind, call_result-ok,
  with_context-ok,
}
use ghaf_device_manager.Crosvm.Vfio.{fs_driver, rebind, bind_vfio}
use ghaf_device_manager.Crosvm.Commands.{command, vfio_list}
use ghaf_device_manager.Manager.Pci.{quarantine_of, quarantine}

abbrev is_add : List String → Bool
is_add (option ∷ kind ∷ verb ∷ rest) = (kind =s "vfio") && (verb =s "add")
is_add _ = false

-- How often Crosvm was asked to add a PCI device.
abbrev pub vfio_adds : Trace → ℕ
vfio_adds [] = 0
vfio_adds (ran program args time ∷ t) = if is_add args then suc (vfio_adds t) else vfio_adds t
vfio_adds (_ ∷ t) = vfio_adds t

module _ ⦃d : Setup⦄ where
  -- The write that lets the kernel bind an address by its `driver_override`.
  abbrev is_probe : String → FileCall → Bool
  is_probe address (write path value) =
      (value =s address)
      && is_some_and (parent d.pci_root) (λ bus. path =s (bus /s "drivers_probe"))
  is_probe address _ = false

  -- At a look the address had the driver vfio-pci, or a probe of it has succeeded.
  abbrev pub bound : String → Trace → Bool
  bound address [] = false
  bound address (looked ∷ t) =
      is_text (fs_driver (d.world.files t) (d.pci_root /s address)) "vfio-pci" || bound address t
  bound address (called c ∷ t) =
      (is_probe address c && is_none (d.world.call t c)) || bound address t
  bound address (_ ∷ t) = bound address t

  -- What looks and calls leave alone.
  pub record Grows (P : Trace → Type 0) : Type 0 where
    pub at_look : (t : Trace) → P t → P (looked ∷ t)
    pub at_call : (c : FileCall) (t : Trace) → P t → P (called c ∷ t)

  module _ {P : Trace → Type 0} (g : Grows P) where
    abbrev Inv : Machine → Type 0
    Inv s = P s.trace

    Keeps-bind_vfio : (address : String) → Keeps Inv (bind_vfio address d.pci_root)
    unfolding bind_vfio rebind look call
    Keeps-bind_vfio address =
        Keeps-bind _ _ (record { at = λ s h. g.at_look s.trace h })
          λ current. Keeps-if _ _ _ (Keeps-pure tt) (
            Keeps-then _ _
              (Keeps-when _ _ (Keeps-in_context _ _ (record { at = λ s h. g.at_call _ s.trace h })))
              (Keeps-then _ _ (Keeps-in_context _ _ (record { at = λ s h. g.at_call _ s.trace h }))
                (Keeps-bind _ _ (Keeps-lift _)
                  λ bus. Keeps-in_context _ _ (record { at = λ s h. g.at_call _ s.trace h }))))

    pub Keeps-quarantine :
        (device : PciDevice) (rule : RuleMatch) → Keeps Inv (quarantine device rule)
    unfolding quarantine query
    Keeps-quarantine device rule =
        Keeps-bind _ _ (record { at = λ s h. g.at_look s.trace h })
          λ group.
            Keeps-if _ _ _ (Keeps-bail _)
              (Keeps-then _ _ (Keeps-each _ _ Keeps-bind_vfio) (Keeps-pure group))

  pub same_adds : (n : ℕ) → Grows (λ t. vfio_adds t ≡ n)
  same_adds n = record { at_look = λ t h. h; at_call = λ c t h. h }

  or_true : (a b : Bool) → b ≡ true → (a || b) ≡ true
  or_true a b h = ground (arith)

  stays_bound : (address : String) → Grows (λ t. bound address t ≡ true)
  stays_bound address = record { at_look = λ t h. or_true _ _ h; at_call = λ c t h. or_true _ _ h }

  pub Keeps-vfio_list :
      (n : ℕ) (socket : String) → Keeps (λ s. vfio_adds s.trace ≡ n) (vfio_list socket)
  unfolding vfio_list command run
  Keeps-vfio_list n socket =
      Keeps-bind _ _
        (Keeps-bind _ _ (record { at = λ s h. h })
          λ output. Keeps-if _ _ _ (Keeps-pure _) (Keeps-bail _))
        λ output. Keeps-lift _

  abbrev Any : Machine → Type 0
  Any s = Unit {0}

  -- The last write of a bind that succeeds.
  Yields-probe :
      (address bus message : String)
      → parent d.pci_root ≡ some bus
      → Yields Any
          (in_context message (call (write (bus /s "drivers_probe") address)))
          (λ u s. bound address s.trace ≡ true)
  unfolding call in_context
  Yields-probe address bus message h = record {
    at = λ s a u e.
        rw
          (
            h,
            eq_refl address,
            eq_refl (bus /s "drivers_probe"),
            call_result-ok (d.world.call s.trace (write (bus /s "drivers_probe") address))
                (with_context-ok _ _ e),
          )
          refl;
  }

  or_error-some : {A : Type 0} (e : Error) (o : Option A) (a : A) → or_error e o ≡ ok a → o ≡ some a
  or_error-some e none a h = cc
  or_error-some e (some x) a h = cc

  Yields-rebind :
      (address : String) (current : Option String)
      → Yields Any (rebind address d.pci_root current) (λ u s. bound address s.trace ≡ true)
  unfolding rebind
  Yields-rebind address current =
      Yields-bind {Q = λ u. Any} _ _ (record { at = λ s h u e. tt })
        λ u.
          Yields-bind {Q = λ u. Any} _ _ (record { at = λ s h u e. tt })
            λ u'.
              Yields-bind {Q = λ bus s. parent d.pci_root ≡ some bus} _ _
                (Yields-lift _ λ bus s e h. or_error-some _ _ _ e)
                λ bus. record { at = λ s h u e. (Yields-probe address bus _ h).at s tt u e }

  seen_driver :
      (found current : Option String)
      → Result.ok found ≡ ok current
      → is_text current "vfio-pci" ≡ true
      → is_text found "vfio-pci" ≡ true
  seen_driver found current e h = cc

  Yields-bind_vfio :
      (address : String)
      → Yields Any (bind_vfio address d.pci_root) (λ u s. bound address s.trace ≡ true)
  unfolding bind_vfio look
  Yields-bind_vfio address =
      Yields-bind
        {Q = λ current s. is_text current "vfio-pci" ≡ true → bound address s.trace ≡ true} _ _
        (record { at = λ s h current e k. rw (seen_driver _ current e k) refl })
        λ current.
          Yields-if _ _ _ (λ e. Yields-pure tt λ s h. h e)
            (λ e. record { at = λ s h u k. (Yields-rebind address current).at s tt u k })

  abbrev pub all_bound : List String → Trace → Bool
  all_bound addresses t = all (λ a. bound a t) addresses

  Yields-each :
      (addresses : List String)
      → Yields Any
          (each addresses λ a. bind_vfio a d.pci_root)
          (λ u s. all_bound addresses s.trace ≡ true)
  unfolding each
  Yields-each [] = Yields-pure tt λ s h. refl
  Yields-each (a ∷ rest) =
      Yields-bind {Q = λ u s. bound a s.trace ≡ true} _ _ (Yields-bind_vfio a) λ u. record {
        at = λ s h u' e.
            rw
              (
                (Keeps-each rest _ (Keeps-bind_vfio (stays_bound a))).at s h,
                (Yields-each rest).at s tt u' e,
              )
              refl;
      }

  pub Yields-quarantine :
      (device : PciDevice) (rule : RuleMatch)
      → Yields Any
          (quarantine device rule)
          (λ group s. all_bound (quarantine_of device group) s.trace ≡ true)
  unfolding quarantine
  Yields-quarantine device rule =
      Yields-bind {Q = λ group. Any} _ _ (record { at = λ s h u e. tt })
        λ group.
          Yields-if (rule.iommu_skip_if_shared && ltb 1 (length group))
            (bail ("IOMMU group for " <> (device.address <> " is shared"))) _ (λ e. Yields-bail _)
            λ e.
              Yields-bind _ _ (Yields-each (quarantine_of device group))
                λ u. Yields-pure group λ s h. h
