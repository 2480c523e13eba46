-- ===== src/Crosvm/Settled.antt =====
-- `vfio_add`, `vfio_remove` and `usb_attach` of src/crosvm.rs: what a success means.
use ghaf_device_manager.Base.{
  ℕ, zero, suc, String, Bool, true, false, not, ◌≡◌, ap, List, contains, if◌then◌else◌, arith, ◌==◌,
  Bool-cases,
}
use ghaf_device_manager.Base.Outcome.{ok}
use ghaf_device_manager.Machine.{Setup, Machine}
use ghaf_device_manager.Machine.Monad.{pure, when, sleep}
use ghaf_device_manager.Machine.Outcomes.{Yields, Yields-pure, Yields-bail, Yields-if, Yields-bind}
use ghaf_device_manager.Crosvm.Commands.{pci_path, vfio_list, await_vfio, vfio_add, vfio_remove}

module _ ⦃d : Setup⦄ (socket path : String) where
  -- The last command was a listing of the VM's devices, and `path` was there, or was not.
  pub IsListed : Bool → Machine → Type 0
  IsListed present s =
      (t : Machine) × ((live : List String) × ((vfio_list socket t ≡ (ok live, s))
          × (contains live path ≡ present)))

  Listing : List String → Machine → Type 0
  Listing live s = (t : Machine) × (vfio_list socket t ≡ (ok live, s))

  Yields-vfio_list : {P : Machine → Type 0} → Yields P (vfio_list socket) Listing
  unfolding Listing
  Yields-vfio_list = record { at = λ s h live e. (s, ap (λ r. (r, (vfio_list socket s).1)) e) }

  listed :
      (present : Bool) (live : List String) (s : Machine)
      → Listing live s
      → contains live path ≡ present
      → IsListed present s
  unfolding Listing IsListed
  listed present live s (t, e) h = (t, (live, (e, h)))

  abbrev Anything : Machine → Type 0
  Anything s = Unit {0}

  Yields-await_vfio :
      {P : Machine → Type 0} (present : Bool) (left : ℕ) (message : String)
      → Yields P (await_vfio present left socket path message) (λ _. IsListed present)
  unfolding await_vfio
  Yields-await_vfio present zero message = Yields-bail message
  Yields-await_vfio present (suc left) message = Yields-bind _ _ Yields-vfio_list λ live.
      Yields-if (if contains live path then present else not present) (pure tt) _
        (λ hit. Yields-pure tt λ s h.
          listed present live s h
            (ground (arith, Bool-cases (contains live path), Bool-cases present)))
        (λ miss.
          Yields-bind {Q = λ _. Anything} (when (not (left == 0)) (sleep 250)) _
            (record { at = λ s h u e. tt }) (λ _. Yields-await_vfio present left message))

module _ ⦃d : Setup⦄ where
  Yields-vfio_add :
      (socket address : String)
      → Yields
          (λ s. Unit {0})
          (vfio_add socket address)
          (λ _. IsListed socket (pci_path address) true)
  unfolding vfio_add
  Yields-vfio_add socket address =
      let path = pci_path address in
      Yields-bind _ _ (Yields-vfio_list socket path) λ live.
        Yields-if (contains live path) (pure tt) _
          (λ hit. Yields-pure tt λ s h. listed socket path true live s h hit)
          (λ miss.
            Yields-bind {Q = λ _ s. Unit {0}} _ _ (record { at = λ s h u e. tt })
              (λ _. Yields-await_vfio socket path true 6 _))

  Yields-vfio_remove :
      (socket address : String)
      → Yields
          (λ s. Unit {0})
          (vfio_remove socket address)
          (λ _. IsListed socket (pci_path address) false)
  unfolding vfio_remove
  Yields-vfio_remove socket address =
      let path = pci_path address in
      Yields-bind _ _ (Yields-vfio_list socket path) λ live.
        Yields-if (not (contains live path)) (pure tt) _
          (λ miss. Yields-pure tt λ s h.
            listed socket path false live s h (ground (arith, Bool-cases (contains live path))))
          (λ hit.
            Yields-bind {Q = λ _ s. Unit {0}} _ _ (record { at = λ s h u e. tt })
              (λ _. Yields-await_vfio socket path false 6 _))

  -- A `vfio_add` that succeeds ends with a listing of the VM's devices that has the device.
  pub vfio_add-IsListed :
      (socket address : String) (s : Machine)
      → (vfio_add socket address s).0 ≡ ok tt
      → IsListed socket (pci_path address) true (vfio_add socket address s).1
  vfio_add-IsListed socket address s h = (Yields-vfio_add socket address).at s tt tt h

  -- A `vfio_remove` that succeeds ends with a listing of the VM's devices that lacks the device.
  pub vfio_remove-IsListed :
      (socket address : String) (s : Machine)
      → (vfio_remove socket address s).0 ≡ ok tt
      → IsListed socket (pci_path address) false (vfio_remove socket address s).1
  vfio_remove-IsListed socket address s h = (Yields-vfio_remove socket address).at s tt tt h
