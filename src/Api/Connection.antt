-- ===== src/Api/Connection.antt =====
-- src/api.rs: one client's connection, among everything else that the manager does.
use ghaf_device_manager.Base.{
  ℕ, zero, suc, ◌+◌, ◌-◌, String, Bool, true, false, not, ◌&&◌, ◌||◌, ◌≡◌, Option, none, some, List,
  [], ◌∷◌, ◌++◌, if◌then◌else◌, ◌<>◌, length, filter_map,
}
use ghaf_device_manager.Base.Outcome.{Result, ok, err, shown}
use ghaf_device_manager.Protocol
use ghaf_device_manager.Protocol.{Action, Response}
use ghaf_device_manager.Machine.{
  Setup, Machine, Trace, Event, Notification, looked, called, ran, slept, notified,
}
use ghaf_device_manager.Api.{handle}
mod Cases
pub mod Served

-- What is sent to a client.
pub data Sent : Type 0 where
  response : Response → Sent
  notification : Notification → Sent

-- The channel's receiver holds what was broadcast and not yet taken, the oldest first.
pub record Connection : Type 0 where
  pub machine : Machine
  pub unread : List Notification
  pub enabled : Bool
  pub closed : Bool
  pub received : List (Result String)
  pub sent : List Sent

-- serde_json on messages and responses.
pub record Wire : Type 0 where
  pub from_str : String → Result Action
  pub to_string : Response → Result String

abbrev notified_by : Event → Option Notification
notified_by (notified v) = some v
notified_by looked = none
notified_by (called c) = none
notified_by (ran program args time) = none
notified_by (slept time) = none

abbrev reverse_onto : List Notification → List Notification → List Notification
reverse_onto [] acc = acc
reverse_onto (v ∷ vs) acc = reverse_onto vs (v ∷ acc)

abbrev newest : ℕ → Trace → Trace
newest zero t = []
newest (suc n) [] = []
newest (suc n) (e ∷ t) = e ∷ newest n t

-- What an operation has broadcast, the oldest first.
unfoldable pub news : Machine → Machine → List Notification
news old new =
    let added = newest (length new.trace - length old.trace) new.trace in
    reverse_onto (filter_map notified_by added) []

abbrev pub is_enabling : Action → Bool
is_enabling Action.enable_notifications = true
is_enabling _ = false

module _ ⦃d : Setup⦄ (wire : Wire) where
  -- Whether a message asks for notifications, and the response to it.
  abbrev pub answer : Result Action → Machine → Bool × Response × Machine
  answer (err e) s = (false, Response.failed ("Invalid API message: " <> shown e), s)
  answer (ok message) s = let (r, s') = handle message s in (is_enabling message, r, s')

  abbrev pub message_of : Result String → Result Action
  message_of (err e) = err e
  message_of (ok text) = wire.from_str text

  unfoldable pub respond : Result String → Machine → Bool × Response × Machine
  respond line s = answer (message_of line) s

  abbrev pub answered : Result String → Response → Bool → Connection → Connection
  answered (err e) r taken c = record c { closed = true }
  answered (ok text) r taken c = record c {
    closed = not taken;
    sent = c.sent ++ (Sent.response r ∷ []);
  }

  -- A line, or the end of the stream, and whether the stream takes the response.
  unfoldable pub handle_line : Option (Result String) → Bool → Connection → Connection
  handle_line none taken c = record c { closed = true }
  handle_line (some line) taken c =
      let (enabling, r, s') = respond line c.machine in
      let c' = record c {
        machine = s';
        unread = c.unread ++ news c.machine s';
        enabled = c.enabled || enabling;
        received = c.received ++ (line ∷ []);
      } in
      answered (wire.to_string r) r taken c'

  -- A notification is taken from the channel and sent.
  unfoldable pub notify : Bool → Notification → List Notification → Connection → Connection
  notify taken v rest c = record c {
    unread = rest;
    closed = not taken;
    sent = c.sent ++ (Sent.notification v ∷ []);
  }

  -- A step of the connection or of anything else, with what the manager broadcasts in it.
  pub data Step : List Notification → Connection → Connection → Type 0 where
    line :
        (l : Result String) (taken : Bool) (c : Connection)
        → c.closed ≡ false
        → Step (news c.machine ((respond l c.machine).2)) c (handle_line (some l) taken c)
    ended :
        (taken : Bool) (c : Connection) → c.closed ≡ false → Step [] c (handle_line none taken c)
    -- The select polls the channel only once notifications are enabled.
    takes :
        (taken : Bool) (v : Notification) (rest : List Notification) (c : Connection)
        → c.closed ≡ false
        → c.enabled ≡ true
        → c.unread ≡ v ∷ rest
        → Step [] c (notify taken v rest c)
    -- The channel is full and its oldest values are lost.
    lagged :
        (lost kept : List Notification) (c : Connection)
        → c.unread ≡ lost ++ kept
        → Step [] c (record c { unread = kept })
    -- Another client, the event loop, or nothing.
    elsewhere :
        (m : Machine) (c : Connection)
        → Step
            (news c.machine m)
            c
            (record c { machine = m; unread = c.unread ++ news c.machine m })

  -- `subscribe`, before the first line.
  abbrev pub connected : Machine → Connection
  connected m = record {
    machine = m;
    unread = [];
    enabled = false;
    closed = false;
    received = [];
    sent = [];
  }

  -- The connections that a client can come to, with all that was broadcast since it connected.
  pub data Reach (m : Machine) : List Notification → Connection → Type 0 where
    here : Reach m [] (connected m)
    next :
        (vs new : List Notification) (c c' : Connection)
        → Reach m vs c
        → Step new c c'
        → Reach m (vs ++ new) c'
