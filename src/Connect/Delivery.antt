-- ===== src/Connect/Delivery.antt =====
-- The way of a worker's responses: connect/invoke.go and connect/handler.go make them, the buffer
-- of connect/buffer.go keeps them, and connect/connection.go takes acknowledgements and flushes.
-- What happens to them is one sequence, in which each call that holds the buffer's lock is one step;
-- a write that fails is a step of its own too, unless nothing happens while it goes on.
pub mod Filed
pub mod Distinct
pub mod Kept
pub mod Flushes
mod Tests
use inngestgo.Prelude.{ℕ, String, Bool, Option, none, some, List, [], ◌∷◌, ◌++◌, Map, if◌then◌else◌}
use inngestgo.Results.{Result}
use inngestgo.SdkRequest.{Request}
use inngestgo.Execution.{Invoked}
use inngestgo.Connect.Buffer.{
  SdkResponse, MessageBuffer, new_message_buffer, append, wake, has_messages, flush,
}
use inngestgo.Connect.Handshake.{handle_message_reply_ack}
use inngestgo.Connect.Invoke.{InvokeCalls, handle_invoke_message}

pub data Happening : Type 0 where
  -- a worker of the pool handles a request
  invokes : InvokeCalls → (marshalled written : Result (Unit {0})) → Happening
  -- a write that has gone on since then turns out to have failed
  write_fails : SdkResponse → Happening
  -- a goroutine of addPending wakes
  wakes : SdkResponse → Happening
  -- WORKER_REPLY_ACK, with what its decoding gives
  acks : Result (Unit {0}) → Happening
  -- a connection starts or ends, or the run loop retries or ends
  flushes : (ℕ → SdkResponse → Bool) → (ℕ → Map SdkResponse → Map SdkResponse) → Happening

-- The buffer, and the responses that the API has taken.
pub record Ledger : Type 0 where
  pub buffer : MessageBuffer
  pub sent : List SdkResponse

abbrev pub new_ledger : Ledger
new_ledger = record { buffer = new_message_buffer; sent = [] }

-- `if h.messageBuffer.hasMessages() { … flush … }`
unfoldable pub flush_ledger :
    (ℕ → SdkResponse → Bool) → (ℕ → Map SdkResponse → Map SdkResponse) → Ledger → Ledger
unfolding has_messages flush
flush_ledger sends order l =
    let (m, f, all) = flush sends order l.buffer in
    if has_messages l.buffer then record { buffer = m; sent = l.sent ++ f.sent } else l

module _ (invoker : String → Option String → Request → Invoked) where
  -- `none` ends the process.
  unfoldable pub happen : Happening → Ledger → Option Ledger
  unfolding handle_invoke_message append wake handle_message_reply_ack flush_ledger
  happen (invokes c marshalled written) l =
      elim (handle_invoke_message invoker c marshalled written l.buffer) [
        | none ↦ none
        | some x ↦ some (record l { buffer = x.1 })
      ]
  happen (write_fails r) l = some (record l { buffer = append r l.buffer })
  happen (wakes r) l = some (record l { buffer = wake r l.buffer })
  happen (acks payload) l =
      some (record l { buffer = (handle_message_reply_ack payload l.buffer).1 })
  happen (flushes sends order) l = some (flush_ledger sends order l)

  unfoldable pub happen_all : List Happening → Ledger → Option Ledger
  unfolding happen
  happen_all [] l = some l
  happen_all (h ∷ hs) l = elim (happen h l) [ none ↦ none | some m ↦ happen_all hs m ]
