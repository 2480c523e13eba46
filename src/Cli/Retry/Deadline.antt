-- ===== src/Cli/Retry/Deadline.antt =====
-- The repeated request ends, and it does not give up early.
use ghaf_device_manager.Base.{
  ℕ, zero, suc, ◌+◌, ◌-◌, ◌*◌, ◌/◌, ◌≤◌, ◌≡◌, true, false, Option, none, some, ltb, false≢true, sym,
  ◌∙◌, arith, Bool-cases, inl, inr,
}
use ghaf_device_manager.Base.Outcome.{Error, Result, ok, err}
use ghaf_device_manager.Protocol.{Action, Response}
use ghaf_device_manager.Client.{Transport}
use ghaf_device_manager.Cli.Retry.{
  Calls, second, min, attempt, pause, answered, retry_from, request_with_retry,
}

-- What the client relies on: time does not run backwards, a reading of the clock lies between its
-- beginning and its end, and a sleep takes at least as long as it is asked to.
pub record IsClock {S : Type 0} (calls : Calls S) (clock : S → ℕ) : Type 0 where
  pub not_before : (s : S) → clock s ≤ (calls.now s).0
  pub not_after : (s : S) → (calls.now s).0 ≤ clock ((calls.now s).1)
  pub forward :
      (t : Transport) (a : Action) (left : ℕ) (s : S)
      → clock s ≤ clock ((calls.request t a left s).1)
  pub slept : (time : ℕ) (s : S) → clock s + time ≤ clock (calls.sleep time s)

module _ {S : Type 0} (calls : Calls S) (clock : S → ℕ) (transport : Transport) (message : Action)
    (deadline : ℕ) where
  -- There is a result, and an error only where the clock has passed the deadline counted from `start`.
  abbrev pub IsSettled : ℕ → Option (Result Response × S) → Type 0
  IsSettled start none = ⊥
  IsSettled start (some (ok response, s)) = Unit
  IsSettled start (some (err e, s)) = start + deadline ≤ clock s

  IsSettled-weaken :
      (a b : ℕ) (o : Option (Result Response × S)) → a ≤ b → IsSettled b o → IsSettled a o
  IsSettled-weaken a b none l k = k
  IsSettled-weaken a b (some (ok response, s)) l k = tt
  IsSettled-weaken a b (some (err e, s)) l k = omega (arith)

  module _ (h : IsClock calls clock) where
    attempt-forward :
        (start : ℕ) (s : S) → clock s ≤ clock ((attempt calls transport message deadline start s).1)
    attempt-forward start s =
        let left = deadline - ((calls.now s).0 - start) in
        omega
          (arith, h.not_before s, h.not_after s, h.forward transport message left ((calls.now s).1))

    -- A pause uses up a second of what was left, or all of it.
    pause-forward :
        (start : ℕ) (s : S) (f : ℕ)
        → start ≤ clock s
        → start + deadline ≤ clock s + suc f * second
        → start + deadline ≤ clock (pause calls transport message deadline start s) + f * second
    pause-forward start s f l b =
        let (t, s') = calls.now s in
        let time = min second (deadline - (t - start)) in
        ground (arith, h.not_before s, h.not_after s, h.slept time s')

    start_kept :
        (start : ℕ) (s : S)
        → start ≤ clock s
        → start ≤ clock (pause calls transport message deadline start s)
    start_kept start s l =
        let (t, s') = calls.now s in
        let time = min second (deadline - (t - start)) in
        omega (arith, h.not_before s, h.not_after s, h.slept time s')

    settled_here :
        (start : ℕ) (s : S) (e : Error)
        → start ≤ clock s
        → ltb ((calls.now s).0 - start) deadline ≡ false
        → start + deadline ≤ clock ((calls.now s).1)
    settled_here start s e l k = ground (arith, h.not_before s, h.not_after s)

    reading-forward : (s : S) → clock s ≤ clock ((calls.now s).1)
    reading-forward s = omega (arith, h.not_before s, h.not_after s)

    -- With no second left, the clock has passed the deadline.
    none_left :
        (start : ℕ) (s : S)
        → start ≤ clock s
        → start + deadline ≤ clock s
        → ltb ((calls.now s).0 - start) deadline ≡ false
    none_left start s l b = ground (arith, h.not_before s)

    -- What a round makes of its request's answer.
    after_attempt :
        (fuel start : ℕ) (s1 : S) (r : Result Response)
        → start ≤ clock s1
        → (ltb ((calls.now s1).0 - start) deadline ≡ true
            → IsSettled start (
                retry_from calls transport message deadline fuel start
                  (pause calls transport message deadline start ((calls.now s1).1))))
        → IsSettled start (
            answered calls transport message deadline start s1
              (retry_from calls transport message deadline fuel start
                (pause calls transport message deadline start ((calls.now s1).1)))
              r)
    after_attempt fuel start s1 (ok response) l k = tt
    after_attempt fuel start s1 (err e) l k =
        elim (Bool-cases (ltb ((calls.now s1).0 - start) deadline)) [
          | inl c ↦ rw c (k c)
          | inr c ↦ rw c (settled_here start s1 e l c)
        ]

    retry_from-IsSettled :
        (f start : ℕ) (s : S)
        → start ≤ clock s
        → start + deadline ≤ clock s + f * second
        → IsSettled start (retry_from calls transport message deadline (suc f) start s)
    unfolding retry_from
    retry_from-IsSettled zero start s l b =
        let (r, s1) = attempt calls transport message deadline start s in
        let fwd = attempt-forward start s in
        after_attempt 0 start s1 r (omega (arith, fwd)) (λ c.
          absurd
            (false≢true (sym (none_left start s1 (omega (arith, fwd)) (omega (arith, fwd))) ∙ c)))
    retry_from-IsSettled (suc f) start s l b =
        let (r, s1) = attempt calls transport message deadline start s in
        let fwd = attempt-forward start s in
        let s2 = (calls.now s1).1 in
        let later = reading-forward s1 in
        after_attempt (suc f) start s1 r (omega (arith, fwd)) (λ c.
          retry_from-IsSettled f start (pause calls transport message deadline start s2)
            (start_kept start s2 (omega (arith, fwd, later)))
            (pause-forward start s2 f (omega (arith, fwd, later)) (omega (arith, fwd, later))))

    retried :
        (fuel : ℕ) (s : S)
        → deadline / second + 2 ≤ fuel
        → IsSettled
            (clock s)
            (retry_from calls transport message deadline fuel ((calls.now s).0) ((calls.now s).1))
    retried zero s l = absurd (omega (arith))
    retried (suc f) s l =
        let start = (calls.now s).0 in
        IsSettled-weaken (clock s) start _ (h.not_before s) (
          retry_from-IsSettled f start ((calls.now s).1) (h.not_after s)
            (omega (arith, h.not_after s)))

    -- Where time does not run backwards, a reading of the clock lies between its beginning and its
    -- end, and a sleep lasts as long as it is asked to: with a round for each whole second of the
    -- deadline and two more, a repeated request ends; and it ends with an error only where the
    -- whole deadline has passed since it began.
    pub request_with_retry-IsSettled :
        (fuel : ℕ) (s : S)
        → deadline / second + 2 ≤ fuel
        → IsSettled (clock s) (request_with_retry calls transport message deadline fuel s)
    unfolding request_with_retry
    request_with_retry-IsSettled fuel s l = retried fuel s l
