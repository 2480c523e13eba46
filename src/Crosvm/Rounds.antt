-- ===== src/Crosvm/Rounds.antt =====
-- `usb_attach` of src/crosvm.rs: how often it asks Crosvm to attach a device.
use ghaf_device_manager.Base.{
  ℕ, zero, suc, ◌+◌, ◌≤◌, ◌==◌, String, Bool, true, false, not, ◌<>◌, Option, none, some, List, [],
  ◌∷◌, if◌then◌else◌, arith, is_text, first, trim, split_whitespace,
}
use ghaf_device_manager.Base.Outcome.{Result, ok, err}
use ghaf_device_manager.Machine.{looked, called, ran, slept, notified, Trace, Setup, Machine}
use ghaf_device_manager.Machine.Monad.{
  M, pure, bail, lift, ◌>>=◌, continue, when, on_option, run, sleep,
}
use ghaf_device_manager.Crosvm.Replies.{UsbEntry}
use ghaf_device_manager.Invariant.{is_attach}
use ghaf_device_manager.Crosvm.Commands.{
  command, usb_list, attached_port, usb_attach_rounds, usb_attach,
}

-- The attach commands of a trace.
abbrev pub attaches : Trace → ℕ
attaches [] = 0
attaches (ran program args time ∷ t) = (if is_attach args then 1 else 0) + attaches t
attaches (looked ∷ t) = attaches t
attaches (called c ∷ t) = attaches t
attaches (slept n ∷ t) = attaches t
attaches (notified n ∷ t) = attaches t

-- `m` runs at most `k` attach commands.
record AtMost {A : Type 0} (k : ℕ) (m : M A) : Type 0 where
  at : (s : Machine) → attaches (m s).1.trace ≤ attaches s.trace + k

module _ {A : Type 0} where
  AtMost-pure : (k : ℕ) (a : A) → AtMost k (pure a)
  unfolding pure
  AtMost-pure k a = record { at = λ s. omega arith }

  AtMost-bail : (k : ℕ) (message : String) → AtMost k (bail {A = A} message)
  unfolding bail
  AtMost-bail k message = record { at = λ s. omega arith }

  AtMost-lift : (k : ℕ) (r : Result A) → AtMost k (lift r)
  unfolding lift
  AtMost-lift k r = record { at = λ s. omega arith }

  AtMost-weaken : (j k : ℕ) (m : M A) → j ≤ k → AtMost j m → AtMost k m
  AtMost-weaken j k m le h = record { at = λ s. let here = h.at s in omega arith }

  AtMost-if :
      (k : ℕ) (b : Bool) (m n : M A) → AtMost k m → AtMost k n → AtMost k (if b then m else n)
  AtMost-if k true m n h j = h
  AtMost-if k false m n h j = j

module _ {A B : Type 0} where
  AtMost-continue :
      (k : ℕ) (r : Result A) (f : A → M B) → ((a : A) → AtMost k (f a)) → AtMost k (continue r f)
  AtMost-continue k (ok a) f h = record { at = (h a).at }
  AtMost-continue k (err e) f h = record { at = λ s. omega arith }

  AtMost-bind :
      (j k : ℕ) (m : M A) (f : A → M B)
      → AtMost j m
      → ((a : A) → AtMost k (f a))
      → AtMost (j + k) (m >>= f)
  unfolding ◌>>=◌
  AtMost-bind j k m f h i = record {
    at = λ s.
        let first_part = h.at s in
        let second_part = (AtMost-continue k (m s).0 f i).at (m s).1 in omega arith;
  }

module _ ⦃d : Setup⦄ (socket node : String) where
  AtMost-command :
      (k : ℕ) (args : List String)
      → (if is_attach ("--no-syslog" ∷ args) then 1 else 0) ≤ k
      → AtMost (k + 0) (command args)
  unfolding command run
  AtMost-command k args enough =
      AtMost-bind k 0 _ _ (record { at = λ s. omega arith })
        λ output. AtMost-if 0 _ (pure output.stdout) _ (AtMost-pure 0 _) (AtMost-bail 0 _)

  AtMost-usb_list : AtMost 0 (usb_list socket)
  unfolding usb_list
  AtMost-usb_list =
      AtMost-bind 0 0 _ _ (AtMost-command 0 ("usb" ∷ "list" ∷ socket ∷ []) (omega arith))
        (λ output. AtMost-lift 0 _)

  AtMost-read_port :
      (before : List UsbEntry) (port : Option ℕ) (m : M ℕ)
      → AtMost 0 m
      → AtMost 0 (on_option port m pure)
  unfolding on_option
  AtMost-read_port before none m h = h
  AtMost-read_port before (some p) m h = AtMost-pure 0 p

  AtMost-attached_port :
      (before : List UsbEntry) (fields : List String)
      → AtMost 0 (attached_port socket before fields)
  unfolding attached_port
  AtMost-attached_port before fields =
      AtMost-read_port before _ _ (AtMost-bind 0 0 _ _ AtMost-usb_list (λ after. AtMost-lift 0 _))

  AtMost-pause : (left : ℕ) → AtMost 0 (when (not (left == 0)) (sleep 250))
  unfolding when sleep
  AtMost-pause left =
      AtMost-if 0 (not (left == 0)) (sleep 250) (pure tt) (record { at = λ s. omega arith })
        (AtMost-pure 0 tt)

  AtMost-usb_attach_rounds :
      (left : ℕ) (before : List UsbEntry) → AtMost left (usb_attach_rounds left socket node before)
  unfolding usb_attach_rounds
  AtMost-usb_attach_rounds zero before = AtMost-bail 0 _
  AtMost-usb_attach_rounds (suc left) before = AtMost-weaken (1 + left) (suc left) _ (omega arith) (
      AtMost-bind 1 left _ _
        (AtMost-command 1 ("usb" ∷ "attach" ∷ "00:00:00:00" ∷ node ∷ socket ∷ []) (omega arith))
        λ output.
          let fields = split_whitespace output in
          let found = AtMost-weaken 0 left _ (omega arith) (AtMost-attached_port before fields) in
          let refused = bail ("unexpected Crosvm USB attach response: " <> trim output) in
          let again =
            AtMost-bind 0 left _ _ (AtMost-pause left)
              (λ _. AtMost-usb_attach_rounds left before) in
          AtMost-if left (is_text (first fields) "ok") (attached_port socket before fields) _ found
            (AtMost-if left (not (is_text (first fields) "no_available_port")) refused _
              (AtMost-bail left _) (AtMost-weaken (0 + left) left _ (omega arith) again)))

  -- `usb_attach` sends Crosvm at most six attach commands, whatever the replies are.
  pub usb_attach-rounds :
      (s : Machine) → attaches (usb_attach socket node s).1.trace ≤ attaches s.trace + 6
  unfolding usb_attach
  usb_attach-rounds s = (AtMost-bind 0 6 _ _ AtMost-usb_list (AtMost-usb_attach_rounds 6)).at s
