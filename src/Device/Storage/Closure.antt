-- ===== src/Device/Storage/Closure.antt =====
-- `usb_backs_active_storage` of src/device.rs: its loop ends, and has then found every block that stands on the device.
use ghaf_device_manager.Base.{
  ℕ, zero, suc, ◌+◌, ◌≤◌, ◌<◌, String, true, false, ◌&&◌, ◌≡◌, List, [], ◌∷◌, ◌++◌, map,
  if◌then◌else◌, is_empty, any, all, length, contains, arith, any-append, all-contains, all-weaken,
  ◌=s◌, Bool-cases,
}
use ghaf_device_manager.Device.Storage.{BlockDevice, dependents, closure, direct, backs_active}

-- How many blocks the list lacks.
missing : List BlockDevice → List String → ℕ
missing [] backing = 0
missing (b ∷ bs) backing = (if contains backing b.name then 0 else 1) + missing bs backing

missing-append :
    (bs : List BlockDevice) (backing more : List String)
    → missing bs (backing ++ more) ≤ missing bs backing
unfolding missing
missing-append [] backing more = ground arith
missing-append (b ∷ bs) backing more =
    ground (arith, missing-append bs backing more, any-append (λ y. y =s b.name) backing more)

missing-length : (bs : List BlockDevice) (backing : List String) → missing bs backing ≤ length bs
unfolding missing
missing-length [] backing = ground arith
missing-length (b ∷ bs) backing = ground (arith, missing-length bs backing)

missing-dependents :
    (bs : List BlockDevice) (backing more : List String)
    → all (contains more) (dependents bs backing) ≡ true
    → is_empty (dependents bs backing) ≡ false
    → missing bs (backing ++ more) < missing bs backing
unfolding missing dependents
missing-dependents [] backing more inside found = ground arith
missing-dependents (b ∷ bs) backing more inside found = ground (
  arith,
  missing-append bs backing more,
  missing-dependents bs backing more,
  any-append (λ y. y =s b.name) backing more,
  Bool-cases (contains backing b.name),
  Bool-cases (any (contains backing) b.slaves),
)

closure-fixed :
    (fuel : ℕ) (bs : List BlockDevice) (backing : List String)
    → missing bs backing ≤ fuel
    → is_empty (dependents bs (closure fuel bs backing)) ≡ true
unfolding closure
closure-fixed zero bs backing enough = ground (
  arith,
  missing-dependents bs backing (dependents bs backing),
  all-contains (dependents bs backing),
  Bool-cases (is_empty (dependents bs backing)),
)
closure-fixed (suc fuel) bs backing enough = ground (
  arith,
  missing-dependents bs backing (dependents bs backing),
  all-contains (dependents bs backing),
  Bool-cases (is_empty (dependents bs backing)),
  closure-fixed fuel bs (backing ++ dependents bs backing),
)

closure-grows :
    (fuel : ℕ) (bs : List BlockDevice) (backing : List String) (name : String)
    → contains backing name ≡ true
    → contains (closure fuel bs backing) name ≡ true
unfolding closure
closure-grows zero bs backing name h = h
closure-grows (suc fuel) bs backing name h = ground (
  arith,
  closure-grows fuel bs (backing ++ dependents bs backing) name,
  any-append (λ y. y =s name) backing (dependents bs backing),
  Bool-cases (is_empty (dependents bs backing)),
)

-- A set of blocks that contains the device's own, and each block that stands on a member, and in which no block
-- is active.
pub record IsClear (blocks : List BlockDevice) (device : String) (active : List String)
    : Type 0 where
  pub backing : List String
  pub own : all (contains backing) (map (λ (b : BlockDevice). b.name) (direct blocks device)) ≡ true
  pub closed : is_empty (dependents blocks backing) ≡ true
  pub inactive :
      any (λ (b : BlockDevice). contains backing b.name && contains active b.device_id) blocks
      ≡ false

-- Where `backs_active` answers no, no block under the device has a holder, and there is a set of
-- blocks that contains those under the device and whatever stands on one of its members, and has
-- no active member.
pub backs_active-IsClear :
    (blocks : List BlockDevice) (device : String) (active : List String)
    → backs_active blocks device active ≡ false
    → (any (λ (b : BlockDevice). b.has_holders) (direct blocks device) ≡ false)
      × IsClear blocks device active
unfolding backs_active
backs_active-IsClear blocks device active h =
    let start = map (λ (b : BlockDevice). b.name) (direct blocks device) in
    let held = any (λ (b : BlockDevice). b.has_holders) (direct blocks device) in
    (
      ground (arith, Bool-cases held),
      record {
        backing = closure (length blocks) blocks start;
        own =
            all-weaken (contains start) (contains (closure (length blocks) blocks start))
              (closure-grows (length blocks) blocks start) start (all-contains start);
        closed = closure-fixed (length blocks) blocks start (missing-length blocks start);
        inactive = ground (arith, Bool-cases held);
      },
    )
