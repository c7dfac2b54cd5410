-- ===== src/Connect/Reading.antt =====
-- connect/connection.go, the read loop of handleConnection: what becomes of the messages of the
-- gateway. The reads, each with its outcome, are the input; a read's time is given with it.
pub mod Ends
mod Tests
use inngestgo.Prelude.{ℕ, Bool, true, false, Option, none, some, List, [], ◌∷◌, ◌++◌, if◌then◌else◌}
use inngestgo.Errors.{Error, sentinel, gateway_draining}
use inngestgo.Results.{Result, ok, err}
use inngestgo.Connect.Buffer.{MessageBuffer}
use inngestgo.Connect.Handshake.{
  MessageKind, gateway_closing, gateway_executor_request, gateway_heartbeat, worker_reply_ack,
  gateway_hello, gateway_connection_ready, other_kind, handle_message_reply_ack,
}

-- A message, told apart from others by its number, and what its decoding as one gives.
pub record Message : Type 0 where
  pub number : ℕ
  pub kind : MessageKind
  pub at : ℕ
  pub decoded : Result (Unit {0})

-- What the loop changes: the messages that it gave to the worker pool, in their order, the time of
-- the last heartbeat, and the message buffer.
pub record ReadState : Type 0 where
  pub added : List Message
  pub last_heartbeat : Option ℕ
  pub buffer : MessageBuffer

-- One message; `none` goes on, an error ends the loop.
unfoldable pub handle_message : Message → ReadState → Option Error × ReadState
unfolding handle_message_reply_ack
handle_message msg s = elim msg.kind [
  | gateway_closing ↦ (some (sentinel gateway_draining), s)
  | gateway_executor_request ↦ (none, record s { added = s.added ++ msg ∷ [] })
  | gateway_heartbeat ↦ (none, record s { last_heartbeat = some msg.at })
  | worker_reply_ack ↦
      (none, record s { buffer = (handle_message_reply_ack msg.decoded s.buffer).1 })
  | _ ↦ (none, s)
]

-- The loop; `none` where it waits for a further message.
unfoldable pub read_loop : List (Result Message) → ReadState → Option Error × ReadState
unfolding handle_message
read_loop [] s = (none, s)
read_loop (err e ∷ reads) s = (some e, s)
read_loop (ok msg ∷ reads) s =
    let step = handle_message msg s in
    let rest = read_loop reads step.1 in elim step.0 [ some e ↦ (some e, step.1) | none ↦ rest ]
