-- ===== src/Cli/Retry.antt =====
-- src/bin/ghaf-device.rs: a request that is repeated until a deadline.
use ghaf_device_manager.Base.{
  ℕ, zero, suc, ◌+◌, ◌-◌, ◌*◌, ◌≤◌, ◌<◌, String, ◌≡◌, refl, Bool, true, false, Option, none, some,
  if◌then◌else◌, ltb, leb, arith, Bool-cases, ◌⊎◌, inl, inr,
}
use ghaf_device_manager.Base.Outcome.{Error, context, Result, ok, err}
use ghaf_device_manager.Protocol.{Action, Response}
use ghaf_device_manager.Client.{Transport}
pub mod Deadline

-- The client's calls, on a state of its surroundings. Times are in nanoseconds.
pub record Calls (S : Type 0) : Type 0 where
  pub now : S → ℕ × S
  -- `client::request` with what is left of the deadline.
  pub request : Transport → Action → ℕ → S → Result Response × S
  pub sleep : ℕ → S → S

abbrev pub second : ℕ
second = 1000000000

abbrev min : ℕ → ℕ → ℕ
min a b = if leb a b then a else b

module _ {S : Type 0} (calls : Calls S) (transport : Transport) (message : Action)
    (deadline : ℕ) where
  -- `start.elapsed()`.
  abbrev elapsed : ℕ → S → ℕ × S
  elapsed start s = let (t, s') = calls.now s in (t - start, s')

  -- One request, with what was left of the deadline before it.
  abbrev attempt : ℕ → S → Result Response × S
  attempt start s =
      let (gone, s') = elapsed start s in calls.request transport message (deadline - gone) s'

  -- The pause before the next request.
  abbrev pause : ℕ → S → S
  pause start s = let (gone, s') = elapsed start s in calls.sleep (min second (deadline - gone)) s'

  -- What follows an answer: it is returned, or the rest of the loop runs, or the deadline is over.
  abbrev answered :
      ℕ → S → Option (Result Response × S) → Result Response → Option (Result Response × S)
  answered start s rest (ok response) = some (ok response, s)
  answered start s rest (err e) =
      let (gone, s') = elapsed start s in
      if ltb gone deadline
      then rest
      else some (err (context "timed out waiting for ghaf-device-manager" e), s')

  -- The loop; `none` where the fuel is used up.
  unfoldable pub retry_from : ℕ → ℕ → S → Option (Result Response × S)
  retry_from zero start s = none
  retry_from (suc fuel) start s =
      let (r, s1) = attempt start s in
      let (gone, s2) = elapsed start s1 in
      answered start s1 (retry_from fuel start (pause start s2)) r

  unfoldable pub request_with_retry : ℕ → S → Option (Result Response × S)
  request_with_retry fuel s = let (start, s') = calls.now s in retry_from fuel start s'
