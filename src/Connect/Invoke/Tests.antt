-- ===== src/Connect/Invoke/Tests.antt =====
-- The theorems about replies, for one request.
use inngestgo.Prelude.{String, ◌≡◌, ◌⊎◌, refl, false, Option, none, some, [], lookup, pos}
use inngestgo.Json.{number}
use inngestgo.Errors.{Error, text, is_step_error, is_no_retry_error, get_retry_at_time}
use inngestgo.SdkRequest.{Request}
use inngestgo.Funcs.{json}
use inngestgo.Execution.{Invoked, finished}
use inngestgo.Connect.Buffer.{Status, SdkResponse, value_body, MessageBuffer, new_message_buffer}
use inngestgo.Connect.Handshake.{Result, ok, err}
use inngestgo.Registry.{get_servable_function_by_slug}
use inngestgo.Execution.Verdict.{judge}
use inngestgo.Connect.Invoke.{
  ExecutorRequest, InvokeCalls, replies, accept_request, connect_invoke, handle_invoke_message,
}
use inngestgo.Connect.Invoke.Replies.{IsAnswer, handle_invoke_message-kept, connect_invoke-status}

abbrev pub request : Request
request = record {
  event = none;
  events = [];
  steps = [];
  call_ctx = record {
    disable_immediate_execution = false;
    env = "";
    function_id = "fn";
    run_id = "r";
    step_id = "step";
    attempt = pos 0;
  };
  use_api = false;
}

abbrev pub body : ExecutorRequest
body = record {
  request_id = "r1";
  env_id = "env";
  app_id = "app";
  function_slug = "app-fn";
  step_id = some "step";
}

abbrev pub calls : InvokeCalls
calls = record {
  payload = ok body;
  request = ok request;
  ack_marshalled = ok tt;
  ack_sent = ok tt;
  ops_marshalled = ok tt;
}

abbrev pub one : String → Option String → Request → Invoked
one s id req = finished (json (number "1")) [] none

abbrev pub response : SdkResponse
response = record {
  request_id = "r1";
  env_id = "env";
  app_id = "app";
  status = Status.done;
  body = value_body (number "1");
  no_retry = false;
  retry_after = none;
}

abbrev lost : Result (Unit {0})
lost = err (text "closed")

abbrev slug_make : String → String
slug_make s = s

accepted : accept_request calls ≡ ok (body, request)
unfolding accept_request
accepted = refl

pub answered : connect_invoke one calls ≡ replies (ok response)
unfolding connect_invoke judge is_step_error is_no_retry_error get_retry_at_time
answered = refl

nothing_found : get_servable_function_by_slug slug_make "app" "app-fn" [] ≡ none
unfolding get_servable_function_by_slug
nothing_found = refl

handle_invoke_message-kept_example :
    (x : Result (Unit {0}) × MessageBuffer) × (handle_invoke_message one calls
        (ok tt)
        lost
        new_message_buffer
      ≡ some x)
    × (((lost ≡ ok tt) × (lookup "r1" (x.1).pending_ack ≡ some response))
        ⊎ ((e : Error) × (lost ≡ err e)
            × (lookup "r1" (x.1).buffered ≡ some response)
            × (lookup "r1" (x.1).pending_ack ≡ none)))
handle_invoke_message-kept_example =
    handle_invoke_message-kept one calls lost new_message_buffer response answered

connect_invoke-status_example : IsAnswer body [] none response
connect_invoke-status_example =
    connect_invoke-status one calls body request (json (number "1")) [] none response accepted refl
      answered
