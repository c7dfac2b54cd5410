-- ===== src/Connect/Buffer.antt =====
-- connect/buffer.go: the responses that wait for an acknowledgement, and those to send again. The
-- buffer's lock makes each method one step. A call of addPending starts a goroutine that wakes
-- after the timeout and, since its `break` leaves only the `select`, wakes again and again:
-- `watchers` holds the response of each such goroutine, and `wake` is one round of one of them.
pub mod Flush
pub mod Loss
mod Tests
use inngestgo.Prelude.{
  ℕ, zero, suc, ◌+◌, String, Bool, true, false, Option, none, some, List, [], ◌∷◌, ◌++◌, is_some,
  is_nil, Map, lookup, insert, erase, if◌then◌else◌,
}
use inngestgo.Json.{Json}
use inngestgo.Errors.{Error}
use inngestgo.SdkRequest.{GeneratorOpcode}

pub data Status : Type 0 where
  not_completed error done : Status

-- A body: ops or a value as JSON, or the text of an error.
pub data Body : Type 0 where
  ops_body : List GeneratorOpcode → Body
  value_body : Json → Body
  error_body : Error → Body

-- connectproto.SDKResponse. A time stands for its text in retry_after.
pub record SdkResponse : Type 0 where
  pub request_id : String
  pub env_id : String
  pub app_id : String
  pub status : Status
  pub body : Body
  pub no_retry : Bool
  pub retry_after : Option ℕ

pub record MessageBuffer : Type 0 where
  pub buffered : Map SdkResponse
  pub pending_ack : Map SdkResponse
  pub watchers : List SdkResponse

unfoldable pub new_message_buffer : MessageBuffer
new_message_buffer = record { buffered = []; pending_ack = []; watchers = [] }

unfoldable pub has_messages : MessageBuffer → Bool
has_messages m = if is_nil m.buffered then false else true

unfoldable pub append : SdkResponse → MessageBuffer → MessageBuffer
append msg m = record m {
  buffered = insert msg.request_id msg m.buffered;
  pending_ack = erase msg.request_id m.pending_ack;
}

unfoldable pub add_pending : SdkResponse → MessageBuffer → MessageBuffer
add_pending resp m = record m {
  pending_ack = insert resp.request_id resp m.pending_ack;
  watchers = m.watchers ++ resp ∷ [];
}

-- One round of the goroutine of addPending, after its timeout.
unfoldable pub wake : SdkResponse → MessageBuffer → MessageBuffer
wake resp m =
    if is_some (lookup resp.request_id m.pending_ack)
    then (record m {
      buffered = insert resp.request_id resp m.buffered;
      pending_ack = erase resp.request_id m.pending_ack;
    })
    else m

unfoldable pub acknowledge : String → MessageBuffer → MessageBuffer
acknowledge id m = record m { pending_ack = erase id m.pending_ack }

-- What one flush has done: the messages that the API took, in order, and the calls made.
pub record Flushed : Type 0 where
  pub left : Map SdkResponse
  pub sent : List SdkResponse
  pub calls : ℕ

-- The API client is a parameter: whether its n-th call, with the message, succeeds. So is the
-- order in which the runtime goes through the map in each attempt.
module _ (sends : ℕ → SdkResponse → Bool) (order : ℕ → Map SdkResponse → Map SdkResponse) where
  -- `for id, msg := range m.buffered`, up to the first message that is not sent.
  unfoldable pub send_all : Map SdkResponse → ℕ → Flushed
  send_all [] n = record { left = []; sent = []; calls = n }
  send_all ((id, msg) ∷ m) n =
      let rest = send_all m (n + 1) in
      if sends n msg
      then (record rest { sent = msg ∷ rest.sent })
      else record { left = (id, msg) ∷ m; sent = []; calls = n + 1 }

  -- The attempts that are left, from the messages that are left; `false` is the error.
  unfoldable pub attempts : ℕ → Map SdkResponse → ℕ → Flushed × Bool
  unfolding send_all
  attempts zero m n = (record { left = m; sent = []; calls = n }, false)
  attempts (suc k) m n =
      let f = send_all (order k m) n in
      let r = attempts k f.left f.calls in
      let again : Flushed × Bool =
        (record { left = (r.0).left; sent = f.sent ++ (r.0).sent; calls = (r.0).calls }, r.1) in
      if is_nil f.left then (f, true) else again

  -- flush: five attempts. The result is the new buffer, what was sent, and whether all was.
  unfoldable pub flush : MessageBuffer → MessageBuffer × Flushed × Bool
  unfolding attempts
  flush m = let r = attempts 5 m.buffered 0 in (record m { buffered = (r.0).left }, r.0, r.1)
