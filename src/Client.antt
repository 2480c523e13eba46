-- ===== src/Client.antt =====
-- src/client.rs: where the API is, and the exchange of messages over a stream of lines.
use ghaf_device_manager.Base.{ℕ, String, Bool, false, not, ◌&&◌, List, [], ◌∷◌, ◌==◌, ◌<>◌}
use ghaf_device_manager.Base.Outcome.{Error, said, Result, ok, err, ◌>>=◌, with_context}
use ghaf_device_manager.Json.{Value}
use ghaf_device_manager.Protocol.{Action, Response}

pub data Transport : Type 0 where
  unix : String → Transport
  tcp : String → ℕ → Transport
  vsock : ℕ → ℕ → Transport

-- On what `vsock::get_local_cid` answers.
unfoldable pub running_in_vm : Result ℕ → Bool
running_in_vm (ok cid) = not (cid == 4294967295) && (not (cid == 2) && not (cid == 1))
running_in_vm (err e) = false

-- serde_json on the messages of the API.
pub record Codec : Type 0 where
  pub to_string : Action → Result String
  pub read_response : String → Result Response
  pub read_value : String → Result Value

-- A stream: whether it takes the line that is sent, and the lines that arrive until it closes.
pub record Stream : Type 0 where
  pub sent : Result (Unit {0})
  pub lines : List (Result String)

-- `framed.next()`, and the lines behind.
unfoldable pub next : List (Result String) → Result (String × List (Result String))
next [] = err (said "API connection closed by remote")
next (ok l ∷ ls) = ok (l, ls)
next (err e ∷ ls) = err e

-- What the first line of the answer says about the request for notifications.
unfoldable pub is_enabled : Response → Result (Unit {0})
is_enabled (Response.ok payload) = ok tt
is_enabled (Response.failed e) = err (said ("failed to enable notifications: " <> e))

module _ (codec : Codec) where
  unfoldable pub send : Action → Stream → Result (Unit {0})
  send message stream = codec.to_string message >>= λ text. stream.sent

  unfoldable pub exchange : Action → Stream → Result Response
  exchange message stream = send message stream >>= λ u. next stream.lines >>= λ l.
      with_context "invalid JSON in API response" (codec.read_response l.0)

  -- The values passed to the callback, and the error that ends the loop.
  unfoldable pub notified : List (Result String) → List Value × Error
  notified [] = ([], said "API connection closed by remote")
  notified (err e ∷ ls) = ([], e)
  notified (ok l ∷ ls) =
      let rest = notified ls in
      elim (codec.read_value l) [ err e ↦ ([], e) | ok v ↦ (v ∷ rest.0, rest.1) ]

  unfoldable pub listen_stream : Stream → List Value × Error
  listen_stream stream =
      let answer = send Action.enable_notifications stream >>= λ u.
      next stream.lines >>= λ l. codec.read_response l.0 >>= λ r. is_enabled r >>= λ u. ok l.1 in
      elim answer [ err e ↦ ([], e) | ok ls ↦ notified ls ]
