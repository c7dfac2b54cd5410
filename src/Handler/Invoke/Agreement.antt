-- ===== src/Handler/Invoke/Agreement.antt =====
-- The answer over HTTP and the worker's reply tell the same of an invocation.
use inngestgo.Prelude.{
  ℕ, Bool, true, false, ◌≡◌, refl, sym, ap, ◌∙◌, Option, none, some, List, [], ◌∷◌, arith, lookup,
  insert, if◌then◌else◌,
}
use inngestgo.Errors.{Error, text_panics}
use inngestgo.Results.{ok}
use inngestgo.SdkRequest.{GeneratorOpcode}
use inngestgo.Funcs.{Any, nil, json, unserializable}
use inngestgo.Execution.Verdict.{Verdict, judge}
use inngestgo.Execution.{finished}
use inngestgo.Connect.Buffer.{Status, SdkResponse}
use inngestgo.Connect.Invoke.{ExecutorRequest, response_for, replies}
use inngestgo.Http.Sent.{write_header-first, write_header-sent, encode-sent, encode-ok}
use inngestgo.Http.{
  ResponseWriter, HeaderValue, words, time, Headers, no_retry_header, retry_after_header,
  write_header, write, add_header, set_basic_headers,
}
use inngestgo.Handler.Core.{World, Handler, Payload, value, error_response, status_of}
use inngestgo.Handler.Invoke.{respond_plain, retry_headers, respond_to}
use inngestgo.Handler.Serve.{report_answer, write_invoke_error, basic_writer}

-- The status over HTTP that stands for one of the worker.
abbrev pub http_status : Option Error → Status → ℕ
http_status e Status.done = 200
http_status e Status.not_completed = 206
http_status none Status.error = 500
http_status (some e) Status.error = status_of e

abbrev time_header : Option ℕ → Option (List HeaderValue)
time_header none = none
time_header (some at) = some (time at ∷ [])

abbrev pub Agrees : Option Error → SdkResponse → ResponseWriter Payload → Type 0
Agrees e resp w =
    (headers : Headers) × (w.sent ≡ some (http_status e resp.status, headers))
    × (lookup no_retry_header headers ≡ (if resp.no_retry then some (words "true" ∷ []) else none))
    × (lookup retry_after_header headers ≡ time_header resp.retry_after)

-- The headers of an answer, before its status is sent.
abbrev headers_for : Option Error → Bool → Option ℕ → Headers
headers_for e no_retry at =
    (retry_headers (record { err = e; no_retry = no_retry; retry_after = at }) basic_writer).headers

retry_headers_lem :
    (e : Option Error) (no_retry : Bool) (at : Option ℕ)
    → (lookup no_retry_header (headers_for e no_retry at)
        ≡ (if no_retry then some (words "true" ∷ []) else none))
      × (lookup retry_after_header (headers_for e no_retry at) ≡ time_header at)
unfolding retry_headers basic_writer set_basic_headers add_header lookup insert
retry_headers_lem e true none = (refl, refl)
retry_headers_lem e true (some at) = (refl, refl)
retry_headers_lem e false none = (refl, refl)
retry_headers_lem e false (some at) = (refl, refl)

retry_headers-unsent :
    (e : Option Error) (no_retry : Bool) (at : Option ℕ)
    → (retry_headers (record { err = e; no_retry = no_retry; retry_after = at }) basic_writer).sent
      ≡ none
unfolding retry_headers basic_writer
retry_headers-unsent e true none = refl
retry_headers-unsent e true (some at) = refl
retry_headers-unsent e false none = refl
retry_headers-unsent e false (some at) = refl

-- The answer of an invocation, as it leaves ServeHTTP.
abbrev pub answer_for :
    World → Any → List GeneratorOpcode → Verdict → Option (ResponseWriter Payload)
answer_for o v ops w = report_answer write_invoke_error o (respond_plain o v ops w basic_writer)

-- The status of an answer over HTTP.
abbrev code_for : Option Error → List GeneratorOpcode → ℕ
code_for (some e) ops = status_of e
code_for none [] = 200
code_for none (op ∷ ops) = 206

abbrev silent : Option Error → Bool
silent none = false
silent (some e) = text_panics e

abbrev verdict : Option Error → Bool → Option ℕ → Verdict
verdict e no_retry at = record { err = e; no_retry = no_retry; retry_after = at }

answer_for-sent :
    (o : World) (v : Any) (ops : List GeneratorOpcode) (e : Option Error) (b : Bool) (at : Option ℕ)
    → ((p : Payload) → o.marshalled p ≡ ok tt)
    → o.written ≡ ok tt
    → silent e ≡ false
    → (w : ResponseWriter Payload) × (answer_for o v ops (verdict e b at) ≡ some w)
      × (w.sent ≡ some (code_for e ops, headers_for e b at))
unfolding respond_plain report_answer write_invoke_error write
answer_for-sent o v [] none b at m u p =
    let w = retry_headers (verdict none b at) basic_writer in
    (
      write (value v) w,
      rw (encode-ok (o.marshalled (value v)) o.written (value v) w (m (value v)) u) refl,
      write_header-first 200 w (retry_headers-unsent none b at),
    )
answer_for-sent o v (op ∷ results) none b at m u p =
    let w = write_header 206 (retry_headers (verdict none b at) basic_writer) in
    let sent =
      write_header-first 206 (retry_headers (verdict none b at) basic_writer)
        (retry_headers-unsent none b at) in
    (
      write (Payload.ops (op ∷ results)) w,
      rw
          (encode-ok (o.marshalled (Payload.ops (op ∷ results))) o.written
            (Payload.ops (op ∷ results)) w (m (Payload.ops (op ∷ results))) u)
          refl,
      write_header-sent 200 w _ sent,
    )
answer_for-sent o v ops (some e) b at m u p =
    let w = retry_headers (verdict (some e) b at) basic_writer in
    (
      write_invoke_error o e w,
      rw p refl,
      encode-sent (o.marshalled (error_response e)) o.written (error_response e) _ _
          (write_header-first (status_of e) w (retry_headers-unsent (some e) b at)),
    )

response_for-fields :
    (body : ExecutorRequest) (v : Any) (ops : List GeneratorOpcode) (e : Option Error) (b : Bool)
    (at : Option ℕ) (resp : SdkResponse)
    → response_for body (ok tt) v ops (verdict e b at) ≡ replies (ok resp)
    → (silent e ≡ false)
      × (http_status e resp.status ≡ code_for e ops)
      × (b ≡ resp.no_retry)
      × (at ≡ resp.retry_after)
unfolding response_for
response_for-fields body nil [] none b at resp h = ground arith
response_for-fields body (json j) [] none b at resp h = ground arith
response_for-fields body unserializable [] none b at resp h = ground arith
response_for-fields body v (op ∷ ops) none b at resp h = ground arith
response_for-fields body v ops (some e) b at resp h = ground arith

respond-Agrees :
    (o : World) (body : ExecutorRequest) (v : Any) (ops : List GeneratorOpcode) (e : Option Error)
    (b : Bool) (at : Option ℕ) (resp : SdkResponse)
    → ((p : Payload) → o.marshalled p ≡ ok tt)
    → o.written ≡ ok tt
    → response_for body (ok tt) v ops (verdict e b at) ≡ replies (ok resp)
    → (w : ResponseWriter Payload) × (answer_for o v ops (verdict e b at) ≡ some w)
      × Agrees e resp w
respond-Agrees o body v ops e b at resp m u h =
    let (p, c, n, r) = response_for-fields body v ops e b at resp h in
    let (w, a, s) = answer_for-sent o v ops e b at m u p in
    let (hn, hr) = retry_headers_lem e b at in
    (
      w,
      a,
      (
        headers_for e b at,
        s ∙ ap (λ k. some (k, headers_for e b at)) (sym c),
        hn ∙ ap (λ k. if k then some (words "true" ∷ []) else none) n,
        hr ∙ ap time_header r,
      ),
    )

-- An invocation that the worker replies to has the same outcome over HTTP, without streaming and
-- where responses can be marshalled and written: the status is 200 for DONE, 206 for NOT_COMPLETED
-- and that of the error for ERROR, and the headers ask for no retry, or for one at a time, exactly
-- if the worker's reply does.
pub respond_to-response_for :
    (o : World) (h : Handler) (body : ExecutorRequest) (v : Any) (ops : List GeneratorOpcode)
    (e : Option Error) (resp : SdkResponse)
    → h.opts.use_streaming ≡ false
    → ((p : Payload) → o.marshalled p ≡ ok tt)
    → o.written ≡ ok tt
    → response_for body (ok tt) v ops (judge ops e) ≡ replies (ok resp)
    → (w : ResponseWriter Payload) × (report_answer write_invoke_error o
          (respond_to o h basic_writer (finished v ops e))
        ≡ some w)
      × Agrees (judge ops e).err resp w
unfolding respond_to
respond_to-response_for o h body v ops e resp n m u k = rw n (
    respond-Agrees o body v ops (judge ops e).err (judge ops e).no_retry (judge ops e).retry_after
      resp m u k)
