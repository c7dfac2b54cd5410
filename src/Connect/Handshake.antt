-- ===== src/Connect/Handshake.antt =====
-- connect/workerapi.go, connect/handshake.go and connect/connection.go: how one connection is set
-- up and how it ends. What the API, the gateway and the WebSocket answer is an input; an error of
-- theirs is given as a value. Deadlines and the heartbeat reach the code as such errors.
pub mod Reports
pub mod Tests
use inngestgo.Prelude.{
  ℕ, String, Bool, true, false, ◌&&◌, ◌||◌, Option, none, some, List, [], ◌∷◌, ◌==◌, if◌then◌else◌,
  str_eq,
}
use inngestgo.Errors.{
  Error, text, sentinel, wrapped, formatted, reconnect, close_error, unauthenticated,
  too_many_connections, gateway_draining, io_eof, net_closed, context_canceled, any_link,
  close_reason,
}
pub use inngestgo.Results.{Result, ok, err, ◌>>=◌, ◌>>◌, plain}
use inngestgo.Connect.Buffer.{
  SdkResponse, MessageBuffer, Flushed, add_pending, append, acknowledge, has_messages, flush,
}
use inngestgo.Connect.RunLoop.Defs.{ConnectReport}

-- `if err != nil { return …, newReconnectErr(fmt.Errorf("…: %w", err)) }`
abbrev pub retriable {ℓ} : {A : Type ℓ} → String → Result A → Result A
retriable what (ok a) = ok a
retriable what (err e) = err (reconnect (wrapped what e))

unfoldable pub is_reconnect : Error → Bool
is_reconnect (reconnect e) = true
is_reconnect _ = false

unfoldable pub should_reconnect : Error → Bool
unfolding is_reconnect
should_reconnect e = any_link is_reconnect e

-- connectproto.StartResponse, by the fields that are used.
pub record StartResponse : Type 0 where
  pub gateway_endpoint : String
  pub gateway_group : String
  pub session_token : String
  pub sync_token : String

-- The steps of workerApiClient.start, each with its outcome.
pub record StartCall : Type 0 where
  pub marshalled : Result (Unit {0})
  pub created : Result (Unit {0})
  pub sent : Result ℕ  -- the status code
  pub body_read : Result (Unit {0})
  pub unmarshalled : Result StartResponse

unfoldable pub start_status : StartCall → ℕ → Result StartResponse
start_status c status =
    if status == 200
    then (plain "could not read start response" c.body_read
        >> plain "could not unmarshal start response" c.unmarshalled)
    else if status == 401
    then err (reconnect (sentinel unauthenticated))
    else if status == 429
    then err (reconnect (sentinel too_many_connections))
    else (plain "could not read start error" c.body_read >> err (text "unexpected status code"))

unfoldable pub api_start : StartCall → Result StartResponse
unfolding start_status
api_start c = do
  plain "could not marshal start request" c.marshalled
  plain "could not create start request" c.created
  status ← plain "could not send start request" c.sent
  start_status c status

pub data MessageKind : Type 0 where
  gateway_hello gateway_connection_ready gateway_closing gateway_executor_request : MessageKind
  gateway_heartbeat worker_reply_ack other_kind : MessageKind

abbrev is_hello : MessageKind → Bool
is_hello gateway_hello = true
is_hello _ = false

abbrev is_ready : MessageKind → Bool
is_ready gateway_connection_ready = true
is_ready _ = false

abbrev expect : String → Bool → Result (Unit {0})
expect what true = ok tt
expect what false = err (reconnect (text what))

-- The two messages that are read, and the marshalling and sending of the one in between.
pub record HandshakeCalls : Type 0 where
  pub hello : Result MessageKind
  pub marshalled : Result (Unit {0})
  pub sent : Result (Unit {0})
  pub ready : Result MessageKind

-- The error of the send is not wrapped.
abbrev sent_or_retry : Result (Unit {0}) → Result (Unit {0})
sent_or_retry (ok t) = ok t
sent_or_retry (err e) = err (reconnect (text "could not send initial message"))

unfoldable pub perform_connect_handshake : HandshakeCalls → Result (Unit {0})
perform_connect_handshake c = do
  hello ← retriable "did not receive gateway hello message" c.hello
  expect "expected gateway hello message" (is_hello hello)
  plain "could not serialize sdk connect message" c.marshalled
  sent_or_retry c.sent
  ready ← retriable "did not receive gateway connection ready message" c.ready
  expect "expected gateway connection ready message" (is_ready ready)

-- connection, by its group; the WebSocket and the random connection id are not looked into.
pub record Connection : Type 0 where
  pub gateway_group_name : String

-- The URL of the gateway, RewriteGatewayEndpoint and the WebSocket's dialing, with their outcomes;
-- without a rewrite its outcome is ok.
pub record PrepareCalls : Type 0 where
  pub start : StartCall
  pub parsed : Result (Unit {0})
  pub rewritten : Result (Unit {0})
  pub dialled : Result (Unit {0})
  pub handshake : HandshakeCalls

unfoldable pub prepare_connection : PrepareCalls → Result Connection
unfolding api_start perform_connect_handshake
prepare_connection c = do
  res ← retriable "could not start connection" (api_start c.start)
  retriable "received invalid start gateway host" c.parsed
  retriable "rewriting gateway host failed" c.rewritten
  retriable "could not connect to gateway" c.dialled
  retriable "could not perform connect handshake" (perform_connect_handshake c.handshake)
  ok (record { gateway_group_name = res.gateway_group })

unfoldable pub is_draining : Error → Bool
is_draining (sentinel gateway_draining) = true
is_draining _ = false

unfoldable pub is_lost : Error → Bool
is_lost (sentinel io_eof) = true
is_lost (sentinel net_closed) = true
is_lost _ = false

-- What handleConnection returns when its read loop ended with an error while the worker was not
-- being closed. The last two branches differ in their texts only.
unfoldable pub read_error : Error → Error
unfolding is_draining is_lost
read_error e =
    if any_link is_draining e then sentinel gateway_draining else (elim (close_reason e) [
      | some reason ↦ reconnect (wrapped "connection closed with reason" (close_error reason))
      | none ↦
          if any_link is_lost e
          then reconnect (wrapped "connection closed unexpectedly" (close_error ""))
          else reconnect (text "connection closed unexpectedly")
    ])

-- The end of a connection: the flush on entry may fail; then the read loop ends with its error,
-- `none` if the worker is being closed.
unfoldable pub handle_connection : Result (Unit {0}) → Option Error → Option Error
unfolding read_error
handle_connection (err e) read = some (reconnect (wrapped "could not send buffered messages" e))
handle_connection (ok t) none = none
handle_connection (ok t) (some e) = some (read_error e)

-- The goroutine `connect`: what it sends to notifyConnectedChan and notifyConnectDoneChan.
pub data Notice : Type 0 where
  connected : Notice
  done : ConnectReport → Notice

unfoldable pub after_connection : Option Error → List Notice
unfolding should_reconnect is_draining
after_connection none = done (record { reconnect = false; err = none }) ∷ []
after_connection (some e) =
    if any_link is_draining e
    then []
    else done (record {
      reconnect = should_reconnect e;
      err = some (wrapped "could not handle connection" e);
    })
      ∷ []

unfoldable pub connect : Result Connection → Result (Unit {0}) → Option Error → List Notice
unfolding after_connection handle_connection should_reconnect
connect (err e) flushed read =
    done (record {
      reconnect = should_reconnect e;
      err = some (wrapped "could not establish connection" e);
    })
    ∷ []
connect (ok c) flushed read = connected ∷ after_connection (handle_connection flushed read)

-- handleMessageReplyAck: the message is decoded into itself, and the payload's request id, which
-- stays empty, is acknowledged.
unfoldable pub handle_message_reply_ack :
    Result (Unit {0}) → MessageBuffer → Result (Unit {0}) × MessageBuffer
handle_message_reply_ack (err e) m = (err (wrapped "could not unmarshal reply ack data" e), m)
handle_message_reply_ack (ok t) m = (ok tt, acknowledge "" m)
