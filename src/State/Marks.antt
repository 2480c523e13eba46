-- ===== src/State/Marks.antt =====
-- The marks of permanently disconnected devices.
use ghaf_device_manager.Base.Sorted.{sort, any-sort_by}
use Prim.Native.String.{String, compare}
use text.Mathlib.Text.{is_le}
use ghaf_device_manager.Base.{
  Bool, true, false, not, ◌≡◌, List, [], ◌∷◌, ◌++◌, ◌=s◌, any, any-append, filter, arith, eq_iff,
  if◌then◌else◌,
}
use ghaf_device_manager.State.{State, disconnected, mark, with_mark}

any-others :
    (id j : String) (xs : List String)
    → any (λ item. item =s j) (filter (λ item. not (item =s id)) xs)
      ≡ (if id =s j then false else any (λ item. item =s j) xs)
any-others id j [] = ground arith
any-others id j (x ∷ xs) = ground (arith, any-others id j xs, eq_iff x id, eq_iff x j, eq_iff id j)

-- After a mark is set or lifted exactly the marked device reads as marked, and every other device
-- reads as before.
pub disconnected-mark :
    (s : State) (id : String) (value : Bool) (j : String)
    → disconnected (with_mark id value s) j ≡ (if id =s j then value else disconnected s j)
unfolding disconnected mark sort
disconnected-mark s id true j = ground (
  arith,
  any-sort_by (λ x y. is_le (compare x y)) (λ item. item =s j)
      (filter (λ item. not (item =s id)) s.persistent.disconnected_devices ++ (id ∷ [])),
  any-append (λ item. item =s j)
      (filter (λ item. not (item =s id)) s.persistent.disconnected_devices) (id ∷ []),
  any-others id j s.persistent.disconnected_devices,
)
disconnected-mark s id false j = any-others id j s.persistent.disconnected_devices
