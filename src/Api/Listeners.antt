-- ===== src/Api/Listeners.antt =====
-- src/api.rs: the loops of `serve` that accept clients, under one limit for all transports.
use ghaf_device_manager.Base.{
  ℕ, zero, suc, ◌+◌, Bool, true, false, ◌||◌, ◌≡◌, Option, none, some, List, [], ◌∷◌, ◌++◌, ◌==◌,
  any, is_empty, if◌then◌else◌,
}
pub mod Limit

abbrev pub max_connections : ℕ
max_connections = 64

-- A client, and the context identifier of one over vsock.
pub data Client : Type 0 where
  unix : Client
  tcp : Client
  vsock : ℕ → Client

-- `allowed_cids`: an empty list allows every one.
unfoldable pub admits : List ℕ → Client → Bool
admits allowed unix = true
admits allowed tcp = true
admits allowed (vsock cid) = is_empty allowed || any (λ c. c == cid) allowed

-- The permits that are free, those that a listener holds while it waits for a client, and the clients
-- whose connections hold one.
pub record Listening : Type 0 where
  pub free : ℕ
  pub waiting : ℕ
  pub connected : List Client

abbrev pub start : Listening
start = record { free = max_connections; waiting = 0; connected = [] }

-- A permit goes back.
abbrev pub released : ℕ → Listening → Listening
released waiting l = record l { free = suc l.free; waiting = waiting }

-- What `accept` gives a listener that holds a permit: none where it fails.
unfoldable pub accepted : List ℕ → Option Client → ℕ → Listening → Listening
accepted allowed none waiting l = released waiting l
accepted allowed (some c) waiting l =
    if admits allowed c
    then record l { waiting = waiting; connected = c ∷ l.connected }
    else released waiting l

pub data Step (allowed : List ℕ) : Listening → Listening → Type 0 where
  acquires :
      (free : ℕ) (l : Listening)
      → l.free ≡ suc free
      → Step allowed l (record l { free = free; waiting = suc l.waiting })
  accepts :
      (client : Option Client) (waiting : ℕ) (l : Listening)
      → l.waiting ≡ suc waiting
      → Step allowed l (accepted allowed client waiting l)
  -- A connection ends.
  closes :
      (before after : List Client) (c : Client) (l : Listening)
      → l.connected ≡ before ++ (c ∷ after)
      → Step allowed l (record l { free = suc l.free; connected = before ++ after })

pub data Reach (allowed : List ℕ) : Listening → Type 0 where
  here : Reach allowed start
  next : (l m : Listening) → Reach allowed l → Step allowed l m → Reach allowed m
