-- ===== src/Handler/Invoke.antt =====
-- handler.go, the handler's `invoke`: a POST request that calls a function. The blanks that are
-- streamed while the function runs are left out.
pub mod Guards
pub mod Agreement
use inngestgo.Prelude.{
  ℕ, String, Bool, true, false, ◌||◌, Option, none, some, List, [], ◌∷◌, str_eq, if◌then◌else◌,
  is_nil,
}
use inngestgo.Errors.{Error, Sentinel, text, sentinel, wrapped, formatted, text_panics}
use inngestgo.Results.{Result, ok, err, ◌>>=◌, ◌>>◌}
use inngestgo.SdkRequest.{GeneratorOpcode, Request}
use inngestgo.Funcs.{Any, ServableFunc, slug}
use inngestgo.Signature.Query.{Bytes}
use inngestgo.Options.{is_dev}
use inngestgo.Execution.Verdict.{Verdict, judge}
use inngestgo.Execution.{Invoked, finished, crashed}
use inngestgo.Execution
use inngestgo.Http.{
  HttpRequest, ResponseWriter, HeaderValue, words, time, read_limited, get_query, write_header,
  encode, add, no_retry_header, retry_after_header,
}
use inngestgo.Handler.Core.{
  Handler, World, Answer, answers, aborts, Payload, value, ops, streamed, StreamResponse, failure,
  reported, result, authenticate, or_default_size,
}

-- The signature's header, which is needed outside of dev mode.
unfoldable pub signature_of : World → Handler → HttpRequest → Result Bytes
signature_of o h r =
    if is_dev o.environment h.opts
    then ok []
    else if is_nil r.signature
    then err (sentinel Sentinel.unauthorized)
    else ok r.signature

-- `fmt.Errorf("%w: %s", errBadRequest, err)`
abbrev pub bad_request_error : Error → Error
bad_request_error e = wrapped ": " (sentinel Sentinel.bad_request)

abbrev pub or_bad_request {ℓ} : {A : Type ℓ} → Result A → Result A
or_bad_request (ok a) = ok a
or_bad_request (err e) = err (bad_request_error e)

-- The first function whose slug is the id, with the app's name or without it.
unfoldable pub find_function :
    (String → String) → String → String → List ServableFunc → Option ServableFunc
find_function slug_make app_name id [] = none
find_function slug_make app_name id (f ∷ fs) =
    let rest = find_function slug_make app_name id fs in
    if str_eq (slug slug_make f app_name) id || str_eq (slug slug_make f "") id
    then some f
    else rest

abbrev pub or_missing : Option ServableFunc → Result ServableFunc
or_missing none = err (wrapped ": " (sentinel Sentinel.function_missing))
or_missing (some f) = ok f

abbrev pub authorized : Bool → Result (Unit {0})
authorized true = ok tt
authorized false = err (sentinel Sentinel.unauthorized)

-- What comes before the function is called.
unfoldable pub accept : World → Handler → HttpRequest → Result (ServableFunc × Request)
unfolding signature_of read_limited authenticate find_function
accept o h r = do
  sig ← signature_of o h r
  body ← or_bad_request (read_limited (or_default_size h.opts.max_body_size) r)
  authorized (authenticate o h sig body).0
  request ← or_bad_request (o.decode body)
  f ← or_missing (find_function o.slug_make h.app_name (get_query "fnId" r.query) h.funcs)
  ok (f, request)

abbrev pub target_step : String → Option String
target_step id = if str_eq id "" || str_eq id "step" then none else some id

abbrev pub streamed_body : Any → List GeneratorOpcode → Verdict → StreamResponse
streamed_body v results w = elim w.err [
  | some e ↦ record {
    status_code = 500;
    body = failure (formatted "error calling function" e);
    retry_at = w.retry_after;
    no_retry = w.no_retry;
  }
  | none ↦
      if is_nil results
      then record { status_code = 200; body = result v; retry_at = none; no_retry = false }
      else record { status_code = 206; body = reported results; retry_at = none; no_retry = false }
]

abbrev error_panics : Option Error → Bool
error_panics none = false
error_panics (some e) = text_panics e

abbrev pub answer : Result (Unit {0}) × ResponseWriter Payload → Answer
answer (r, w) = answers r w

abbrev send : World → Payload → ResponseWriter Payload → Answer
send o p w = answer (encode (o.marshalled p) o.written p w)

-- `if noRetry { … }; if retryAt != nil { … }`
unfoldable pub retry_headers : Verdict → ResponseWriter Payload → ResponseWriter Payload
retry_headers v w =
    let first = if v.no_retry then add no_retry_header (words "true") w else w in
    elim v.retry_after [ none ↦ first | some at ↦ add retry_after_header (time at) first ]

-- The answer for a function that finished, without streaming and with it.
unfoldable pub respond_plain :
    World → Any → List GeneratorOpcode → Verdict → ResponseWriter Payload → Answer
unfolding retry_headers
respond_plain o v results verdict w =
    let headed = retry_headers verdict w in
    elim verdict.err [
      | some e ↦ answers (err e) headed
      | none ↦
          if is_nil results
          then send o (value v) headed
          else send o (ops results) (write_header 206 headed)
    ]

unfoldable pub respond_streaming :
    World → Any → List GeneratorOpcode → Verdict → ResponseWriter Payload → Answer
unfolding text_panics
respond_streaming o v results verdict w =
    if error_panics verdict.err
    then aborts
    else send o (streamed (streamed_body v results verdict)) (write_header 201 w)

unfoldable pub respond_to : World → Handler → ResponseWriter Payload → Invoked → Answer
unfolding respond_plain respond_streaming judge
respond_to o h w crashed = aborts
respond_to o h w (finished v results e) =
    if h.opts.use_streaming
    then respond_streaming o v results (judge results e) w
    else respond_plain o v results (judge results e) w

unfoldable pub invoke : World → Handler → HttpRequest → ResponseWriter Payload → Answer
unfolding accept respond_to
invoke o h r w = elim (accept o h r) [
  | err e ↦ answers (err e) w
  | ok q ↦ respond_to o h w (Execution.invoke q.0 q.1 (target_step (get_query "stepId" r.query)))
]
