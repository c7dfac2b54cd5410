-- ===== src/Connect/Invoke/Replies.antt =====
-- What a worker replies, and what becomes of the reply.
use inngestgo.Prelude.{
  String, Bool, false, ◌||◌, ◌≡◌, ◌⊎◌, inl, inr, refl, Option, none, some, List, arith, lookup,
  insert, lookup-insert, lookup-erase, str_eq_iff, if◌then◌else◌, sym, ap, ◌∙◌, is_some, is_nil,
}
use inngestgo.Errors.{Error, is_step_error, is_no_retry_error, get_retry_at_time, wrapped}
use inngestgo.SdkRequest.{GeneratorOpcode, Request}
use inngestgo.Funcs.{Any, ServableFunc}
use inngestgo.Execution.{Invoked, finished}
use inngestgo.Connect.Buffer.{Status, SdkResponse, MessageBuffer, add_pending, append}
use inngestgo.Connect.Handshake.{Result, ok, err}
use inngestgo.Registry.{get_servable_function_by_slug}
use inngestgo.Execution.Verdict.{reports_step_error, judge}
use inngestgo.Errors.{text_panics}
use inngestgo.Connect.Invoke.{
  invoke_function, ExecutorRequest, InvokeCalls, replies, crashes, accept_request, connect_invoke,
  handle_invoke_message, target, reply_to, response_for,
}

-- A response that was made and marshalled waits for its acknowledgement if it was written, and is
-- buffered if the write failed.
pub handle_invoke_message-kept :
    (invoker : String → Option String → Request → Invoked) (c : InvokeCalls)
    (written : Result (Unit {0})) (m : MessageBuffer) (resp : SdkResponse)
    → connect_invoke invoker c ≡ replies (ok resp)
    → (x : Result (Unit {0}) × MessageBuffer) × (handle_invoke_message invoker c (ok tt) written m
        ≡ some x)
      × (((written ≡ ok tt) × (lookup resp.request_id (x.1).pending_ack ≡ some resp))
          ⊎ ((e : Error) × (written ≡ err e)
              × (lookup resp.request_id (x.1).buffered ≡ some resp)
              × (lookup resp.request_id (x.1).pending_ack ≡ none)))
unfolding handle_invoke_message add_pending append
handle_invoke_message-kept invoker c (ok t) m resp h = (
  (ok tt, add_pending resp m),
  rw (h, handle_invoke_message) refl,
  inl (
    refl,
    ground (
      arith,
      lookup-insert resp.request_id resp.request_id resp m.pending_ack,
      str_eq_iff resp.request_id resp.request_id,
    ),
  ),
)
handle_invoke_message-kept invoker c (err f) m resp h = (
  (err (wrapped "could not send sdk response" f), append resp (add_pending resp m)),
  rw (h, handle_invoke_message) refl,
  inr (
    f,
    refl,
    ground (
      arith,
      lookup-insert resp.request_id resp.request_id resp m.buffered,
      str_eq_iff resp.request_id resp.request_id,
    ),
    ground (
      arith,
      lookup-erase resp.request_id resp.request_id (insert resp.request_id resp m.pending_ack),
      str_eq_iff resp.request_id resp.request_id,
    ),
  ),
)

connect_invoke-accepted :
    (invoker : String → Option String → Request → Invoked) (c : InvokeCalls)
    (body : ExecutorRequest) (req : Request)
    → accept_request c ≡ ok (body, req)
    → connect_invoke invoker c
      ≡ reply_to body c.ops_marshalled (invoker body.function_slug (target body.step_id) req)
unfolding connect_invoke
connect_invoke-accepted invoker c body req h = rw (h, connect_invoke) refl

-- A request for a function that the worker does not have ends the process: the error that
-- InvokeFunction returns has no cause, and its text is asked for.
connect_invoke-unknown :
    (slug_make : String → String) (app_name : String) (funcs : List ServableFunc) (c : InvokeCalls)
    (body : ExecutorRequest) (req : Request)
    → accept_request c ≡ ok (body, req)
    → get_servable_function_by_slug slug_make app_name body.function_slug funcs ≡ none
    → connect_invoke (invoke_function slug_make app_name funcs) c ≡ crashes
unfolding invoke_function judge is_step_error response_for text_panics
connect_invoke-unknown slug_make app_name funcs c body req h u =
    rw (connect_invoke-accepted (invoke_function slug_make app_name funcs) c body req h)
      (rw (u, invoke_function) refl)

-- The error that counts, after a step's own error was left out.
abbrev pub counts : List GeneratorOpcode → Option Error → Bool
counts ops e = if reports_step_error ops then false else is_some e

-- A response's fields, by how the function ended.
abbrev pub IsAnswer : ExecutorRequest → List GeneratorOpcode → Option Error → SdkResponse → Type 0
IsAnswer body ops e resp =
    (resp.request_id ≡ body.request_id)
    × (resp.status ≡ (
        if counts ops e
        then Status.error
        else if is_nil ops
        then Status.done
        else Status.not_completed))
    × (resp.no_retry
        ≡ (is_no_retry_error e || (if reports_step_error ops then false else is_step_error e)))
    × (resp.retry_after ≡ get_retry_at_time e)

response_for-IsAnswer :
    (body : ExecutorRequest) (marshalled : Result (Unit {0})) (v : Any) (ops : List GeneratorOpcode)
    (e : Option Error) (resp : SdkResponse)
    → response_for body marshalled v ops (judge ops e) ≡ replies (ok resp)
    → IsAnswer body ops e resp
unfolding response_for judge is_step_error
response_for-IsAnswer body marshalled v ops none resp h = ground arith
response_for-IsAnswer body marshalled v ops (some e) resp h = ground arith

-- The status of a response to an accepted request: an error exactly if the function ended with one,
-- that of a single failed step not counted; else not completed exactly if ops are reported; else
-- done. It asks for no retry exactly if the error is marked so or is an unhandled step error, and
-- it has the time that the error gives for a retry.
pub connect_invoke-status :
    (invoker : String → Option String → Request → Invoked) (c : InvokeCalls)
    (body : ExecutorRequest) (req : Request) (v : Any) (ops : List GeneratorOpcode)
    (e : Option Error) (resp : SdkResponse)
    → accept_request c ≡ ok (body, req)
    → invoker body.function_slug (target body.step_id) req ≡ finished v ops e
    → connect_invoke invoker c ≡ replies (ok resp)
    → IsAnswer body ops e resp
connect_invoke-status invoker c body req v ops e resp h i r =
    response_for-IsAnswer body c.ops_marshalled v ops e resp (
      sym (ap (reply_to body c.ops_marshalled) i)
      ∙ sym (connect_invoke-accepted invoker c body req h)
      ∙ r)
