-- ===== src/Manager/VmmArgs/Once.antt =====
-- `vmm_args` of src/manager.rs: its two sets, by which no address is bound or handed over twice.
use ghaf_device_manager.Base.{
  ℕ, ◌+◌, String, not, ◌&&◌, ◌≡◌, refl, List, [], ◌∷◌, ◌=s◌, if◌then◌else◌, contains, arith, eq_iff,
  Bool-cases,
}
use ghaf_device_manager.Manager.VmmArgs.{first_seen}

abbrev pub occurrences : List String → String → ℕ
occurrences [] a = 0
occurrences (b ∷ bs) a = (if b =s a then 1 else 0) + occurrences bs a

-- Of the addresses of a list those that were not seen before are taken, each exactly once, however
-- often the list names it, and no others.
pub occurrences-first_seen :
    (seen addresses : List String) (a : String)
    → occurrences (first_seen seen addresses) a
      ≡ (if contains addresses a && not (contains seen a) then 1 else 0)
unfolding first_seen
occurrences-first_seen seen [] a = refl
occurrences-first_seen seen (b ∷ rest) a = ground (
  arith,
  occurrences-first_seen seen rest a,
  occurrences-first_seen (b ∷ seen) rest a,
  eq_iff b a,
  Bool-cases (contains seen b),
  Bool-cases (contains seen a),
  Bool-cases (b =s a),
)
