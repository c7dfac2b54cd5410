-- ===== src/Connect/Invoke.antt =====
-- connect/invoke.go, and InvokeFunction of connect.go: how a worker answers a request. What the
-- marshalling of messages and the WebSocket answer is an input. A panic that nothing recovers ends
-- the process; it is the outcome `crashes`.
pub mod Replies
pub mod Tests
use inngestgo.Prelude.{
  ℕ, String, Bool, true, false, Option, none, some, List, [], ◌∷◌, str_eq, if◌then◌else◌, is_nil,
  is_some,
}
use inngestgo.Json.{Json, null}
use inngestgo.Errors.{
  Error, text, sentinel, wrapped, formatted, no_retry, retry_at, reconnect, public, public_cause,
  syscode, close_error, is_step_error, is_no_retry_error, get_retry_at_time, text_panics,
}
use inngestgo.Errors
use inngestgo.SdkRequest.{Opcode, GeneratorOpcode, Request}
use inngestgo.Funcs.{Any, nil, json, unserializable, ServableFunc, slug}
use inngestgo.Registry.{get_servable_function_by_slug}
use inngestgo.Execution.Verdict.{Verdict, judge}
use inngestgo.Execution.{Invoked, finished, crashed}
use inngestgo.Execution
use inngestgo.Connect.Buffer.{
  Status, SdkResponse, Body, ops_body, value_body, error_body, MessageBuffer, add_pending, append,
}
use inngestgo.Connect.Handshake.{Result, ok, err, plain, ◌>>=◌, ◌>>◌}

module _ (slug_make : String → String) where
  unfoldable pub invoke_function :
      (app_name : String) → List ServableFunc → String → Option String → Request → Invoked
  invoke_function app_name funcs s step_id req =
      elim (get_servable_function_by_slug slug_make app_name s funcs) [
        | none ↦ finished nil [] (some (public 410 "function not found"))
        | some f ↦ Execution.invoke f req step_id
      ]

-- connectproto.GatewayExecutorRequestData, by the fields that are used.
pub record ExecutorRequest : Type 0 where
  pub request_id : String
  pub env_id : String
  pub app_id : String
  pub function_slug : String
  pub step_id : Option String

abbrev pub respond : ExecutorRequest → Verdict → Status → Body → SdkResponse
respond req v status body = record {
  request_id = req.request_id;
  env_id = req.env_id;
  app_id = req.app_id;
  status = status;
  body = body;
  no_retry = v.no_retry;
  retry_after = v.retry_after;
}

-- json.Marshal of what a function returned.
abbrev pub marshal_any : Any → Result Json
marshal_any nil = ok null
marshal_any (json v) = ok v
marshal_any unserializable = err (text "json: unsupported value")

pub data Reply : Type 0 where
  replies : Result SdkResponse → Reply
  crashes : Reply

-- The response for an invocation that finished; the marshalling of the ops is an input.
unfoldable pub response_for :
    ExecutorRequest → Result (Unit {0}) → Any → List GeneratorOpcode → Verdict → Reply
unfolding text_panics
response_for req marshalled v ops w = elim w.err [
  | some e ↦
      if text_panics e
      then crashes
      else replies
          (ok (respond req w Status.error (error_body (formatted "error calling function" e))))
  | none ↦
      if is_nil ops
      then replies (
          plain "could not serialize resp" (marshal_any v) >>= λ j.
          ok (respond req w Status.done (value_body j)))
      else replies (
          plain "could not serialize ops" marshalled
          >> ok (respond req w Status.not_completed (ops_body ops)))
]

abbrev pub target : Option String → Option String
target none = none
target (some id) = if str_eq id "step" then none else some id

-- The decoding of the two messages, and the marshalling and sending of the acknowledgement.
pub record InvokeCalls : Type 0 where
  pub payload : Result ExecutorRequest
  pub request : Result Request
  pub ack_marshalled : Result (Unit {0})
  pub ack_sent : Result (Unit {0})
  pub ops_marshalled : Result (Unit {0})

abbrev pub refused : String → Result (Unit {0}) → Result (Unit {0})
refused message (ok t) = ok t
refused message (err e) = err (public 400 message)

-- What comes before the function is called.
unfoldable pub accept_request : InvokeCalls → Result (ExecutorRequest × Request)
accept_request c = do
  body ← plain "invalid gateway message data" c.payload
  req ← plain "invalid SDK request payload" c.request
  refused "malformed input" c.ack_marshalled
  refused "failed to ack worker request" c.ack_sent
  ok (body, req)

abbrev pub reply_to : ExecutorRequest → Result (Unit {0}) → Invoked → Reply
reply_to body marshalled crashed = crashes
reply_to body marshalled (finished v ops e) = response_for body marshalled v ops (judge ops e)

-- The invoker is a parameter, as in the source.
module _ (invoker : String → Option String → Request → Invoked) where
  unfoldable pub connect_invoke : InvokeCalls → Reply
  unfolding accept_request response_for judge
  connect_invoke c = elim (accept_request c) [
    | err e ↦ replies (err e)
    | ok q ↦ reply_to q.0 c.ops_marshalled (invoker (q.0).function_slug (target (q.0).step_id) q.1)
  ]

  -- handleInvokeMessage, by the marshalling and the sending of the reply; `none` is a crash.
  unfoldable pub handle_invoke_message :
      InvokeCalls
      → Result (Unit {0})
      → Result (Unit {0})
      → MessageBuffer
      → Option (Result (Unit {0}) × MessageBuffer)
  unfolding connect_invoke
  handle_invoke_message c marshalled written m = elim (connect_invoke c) [
    | crashes ↦ none
    | replies (err e) ↦ some (err (wrapped "could not handle sdk request" e), m)
    | replies (ok resp) ↦ some (elim marshalled [
      | err e ↦ (err (wrapped "could not serialize sdk response" e), m)
      | ok t ↦ elim written [
        | ok u ↦ (ok tt, add_pending resp m)
        | err e ↦ (err (wrapped "could not send sdk response" e), append resp (add_pending resp m))
      ]
    ])
  ]
