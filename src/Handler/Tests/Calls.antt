-- ===== src/Handler/Tests/Calls.antt =====
-- The theorems about calls of functions, at the handler of the tests.
use inngestgo.Prelude.{◌≤◌, ◌≡◌, refl, inl, false, none, some, [], ◌∷◌, length, lookup}
use inngestgo.Json.{number}
use inngestgo.Errors.{Sentinel, sentinel, is_step_error, is_no_retry_error, get_retry_at_time}
use inngestgo.Results.{ok}
use inngestgo.Funcs.{json, slug}
use inngestgo.Execution.{finished}
use inngestgo.Execution.Verdict.{judge}
use inngestgo.Signature.{validate_request_signature}
use inngestgo.Options.{is_dev}
use inngestgo.Connect.Buffer.{Status, SdkResponse, value_body}
use inngestgo.Connect.Invoke.{ExecutorRequest, response_for, replies}
use inngestgo.Http.{HttpRequest, ResponseWriter, get_query, limit_of, set_basic_headers, new_writer}
use inngestgo.Handler.Core.{Payload, or_default_size}
use inngestgo.Handler.Invoke.{accept, signature_of, find_function, respond_to}
use inngestgo.Handler.Invoke.Guards.{IsAuthentic, accept-IsAuthentic}
use inngestgo.Handler.Invoke.Agreement.{Agrees, respond_to-response_for}
use inngestgo.Handler.Inspect.{inspect}
use inngestgo.Handler.Inspect.Pages.{IsInspection, inspect-IsInspection}
use inngestgo.Handler.Serve.{serve_http, report_answer, write_invoke_error, basic_writer}
use inngestgo.Handler.Serve.Refused.{IsCall, IsUnsigned, serve_http-unauthorized}
use inngestgo.Handler.Tests.{world, sync_world, request, a_function, a_handler, a_call, a_signature}

accepted : accept world a_handler a_call ≡ ok (a_function, request)
unfolding accept is_dev validate_request_signature slug get_query lookup
accepted = refl

accept-IsAuthentic_example :
    IsAuthentic world a_handler a_call.signature a_call.body
    × (length a_call.body ≤ limit_of (or_default_size a_handler.opts.max_body_size))
    × (world.decode a_call.body ≡ ok request)
    × (find_function world.slug_make "app" (get_query "fnId" a_call.query) a_handler.funcs
        ≡ some a_function)
accept-IsAuthentic_example = accept-IsAuthentic world a_handler a_call a_function request accepted

abbrev unsigned : HttpRequest
unsigned = record a_call { signature = [] }

unsigned-IsCall : IsCall a_handler unsigned
unfolding get_query lookup
unsigned-IsCall = (refl, refl, λ e. cc)

unsigned-IsUnsigned : IsUnsigned world a_handler unsigned
unfolding is_dev
unsigned-IsUnsigned = (refl, inl refl)

serve_http-unauthorized_example :
    (w : ResponseWriter Payload) × (serve_http world sync_world a_handler unsigned ≡ ([], some w))
    × (w.sent ≡ some (401, set_basic_headers []))
    × (w ≡ write_invoke_error world (sentinel Sentinel.unauthorized) basic_writer)
serve_http-unauthorized_example =
    serve_http-unauthorized world sync_world a_handler unsigned unsigned-IsCall unsigned-IsUnsigned

-- Its five bytes are one more than the limit.
abbrev long_call : HttpRequest
long_call = record a_call { body = 1 ∷ 2 ∷ 3 ∷ 4 ∷ 5 ∷ [] }

long_call-IsCall : IsCall a_handler long_call
unfolding get_query lookup
long_call-IsCall = (refl, refl, λ e. cc)

long_call_signature : signature_of world a_handler long_call ≡ ok a_signature
unfolding signature_of is_dev
long_call_signature = refl

abbrev executor_request : ExecutorRequest
executor_request = record {
  request_id = "r1";
  env_id = "env";
  app_id = "app";
  function_slug = "app-fn";
  step_id = none;
}

abbrev response : SdkResponse
response = record {
  request_id = "r1";
  env_id = "env";
  app_id = "app";
  status = Status.done;
  body = value_body (number "1");
  no_retry = false;
  retry_after = none;
}

replied :
    response_for executor_request (ok tt) (json (number "1")) [] (judge [] none)
    ≡ replies (ok response)
unfolding response_for judge is_step_error is_no_retry_error get_retry_at_time
replied = refl

respond_to-response_for_example :
    (w : ResponseWriter Payload) × (report_answer write_invoke_error world
        (respond_to world a_handler basic_writer (finished (json (number "1")) [] none))
      ≡ some w)
    × Agrees (judge [] none).err response w
respond_to-response_for_example =
    respond_to-response_for world a_handler executor_request (json (number "1")) [] none response
      refl (λ p. refl) refl replied

inspect-IsInspection_example :
    IsInspection world a_handler a_call (inspect world a_handler a_call new_writer).1.body
inspect-IsInspection_example = inspect-IsInspection world a_handler a_call new_writer refl
