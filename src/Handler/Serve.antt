-- ===== src/Handler/Serve.antt =====
-- handler.go, ServeHTTP: a request is dispatched by its method, and an error becomes a response.
pub mod Refused
use inngestgo.Prelude.{
  ℕ, String, Bool, true, false, Option, none, some, List, [], ◌==◌, str_eq, if◌then◌else◌, or_else,
}
use inngestgo.Errors.{
  Error, text, sentinel, wrapped, formatted, step_error, no_retry, retry_at, reconnect, close_error,
  public, public_cause, syscode, text_panics,
}
use inngestgo.Errors
use inngestgo.Results.{Result, ok, err}
use inngestgo.Http.{
  HttpRequest, ResponseWriter, new_writer, get_query, write_header, encode, set, set_basic_headers,
  content_type,
}
use inngestgo.Handler.Core.{
  Handler, World, Answer, answers, aborts, Payload, error_response, error_value, error_code,
  status_of,
}
use inngestgo.Handler.Invoke.{invoke}
use inngestgo.Handler.Trust.{json_type, trust}
use inngestgo.Handler.Inspect.{inspect}
use inngestgo.Handler.Sync.{SyncWorld, RegisterRequest}
use inngestgo.Handler.Fetch.{OutRequest}
use inngestgo.Handler.Register.{register}

-- The status of an error that is a publicerr.Error.
abbrev pub public_status : Error → Option ℕ
public_status (public status message) = some status
public_status (public_cause status message cause) = some status
public_status _ = none

abbrev pub code_of : Error → String
code_of (public_cause status message (syscode code reason)) = code
code_of _ = "unknown"

-- errors.As into a publicerr.Error.
unfoldable pub as_public : Error → Option Error
as_public (wrapped s e) = as_public e
as_public (no_retry e) = as_public e
as_public (retry_at e at) = as_public e
as_public (reconnect e) = as_public e
as_public (public_cause status message e) = some (public_cause status message e)
as_public (public status message) = some (public status message)
as_public _ = none

-- A status of 0 becomes 500.
abbrev or_500 : Error → Error
or_500 (public status message) = public (if status == 0 then 500 else status) message
or_500 (public_cause status message e) =
    public_cause (if status == 0 then 500 else status) message e
or_500 e = e

-- The message is the error's text.
abbrev probe_error : Error → Error
probe_error e = or_500 (elim (as_public e) [ some p ↦ p | none ↦ public_cause 500 "" e ])

-- Encode, whose error is dropped.
abbrev pub put : World → Payload → ResponseWriter Payload → ResponseWriter Payload
put o p w = (encode (o.marshalled p) o.written p w).1

abbrev with_status : Option ℕ → ResponseWriter Payload → ResponseWriter Payload
with_status none w = w
with_status (some status) w = write_header status w

-- WriteHTTP of publicerr, which writes a status for its own errors only.
unfoldable pub write_http : World → Error → ResponseWriter Payload → ResponseWriter Payload
unfolding write_header encode
write_http o e w = put o (error_value e) (with_status (public_status e) w)

-- The response; `none` where the code panics, and the server ends the connection.
abbrev Served : Type 0
Served = Option (ResponseWriter Payload)

abbrev or_report :
    (World → Error → ResponseWriter Payload → ResponseWriter Payload)
    → World
    → Result (Unit {0}) × ResponseWriter Payload
    → ResponseWriter Payload
or_report reports o (ok t, w) = w
or_report reports o (err e, w) = reports o e w

-- The statements after an error: the status, the type, which comes too late, and the text.
unfoldable pub write_invoke_error : World → Error → ResponseWriter Payload → ResponseWriter Payload
unfolding status_of write_header
write_invoke_error o e w =
    put o (error_response e) (set content_type json_type (write_header (status_of e) w))

unfoldable pub write_register_error :
    World → Error → ResponseWriter Payload → ResponseWriter Payload
unfolding write_header
write_register_error o e w =
    let status = or_else (public_status e) 500 in
    put o (error_code (code_of e) e) (set content_type json_type (write_header status w))

unfoldable pub report_answer :
    (World → Error → ResponseWriter Payload → ResponseWriter Payload) → World → Answer → Served
unfolding text_panics
report_answer reports o aborts = none
report_answer reports o (answers (ok t) w) = some w
report_answer reports o (answers (err e) w) = if text_panics e then none else some (reports o e w)

-- The response's writer at the beginning, with the basic headers.
unfoldable pub basic_writer : ResponseWriter Payload
unfolding set_basic_headers
basic_writer = record new_writer { headers = set_basic_headers [] }

-- The requests to the API, and the response. A probe's response is signed at the same time as one
-- of a registration.
unfoldable pub dispatch :
    World → SyncWorld → Handler → HttpRequest → List (OutRequest RegisterRequest) × Served
unfolding basic_writer inspect trust write_http invoke register report_answer get_query
dispatch o s h r =
    if str_eq r.method "GET"
    then ([], some (or_report write_http o (inspect o h r basic_writer)))
    else if str_eq r.method "POST"
    then (if str_eq (get_query "probe" r.query) "trust"
        then (
          [],
          some (
              or_report (λ o e w. write_http o (probe_error e) w) o
                (trust o s.signed_at h r basic_writer)),
        )
        else ([], report_answer write_invoke_error o (invoke o h r basic_writer)))
    else if str_eq r.method "PUT"
    then (let done = register o s h r basic_writer in
        (done.0, report_answer write_register_error o done.1))
    else ([], some basic_writer)

-- `h.Logger.Debug(…)`, which dereferences the logger.
abbrev pub logged :
    Option (Unit {0})
    → List (OutRequest RegisterRequest) × Served
    → List (OutRequest RegisterRequest) × Served
logged none served = ([], none)
logged (some l) served = served

unfoldable pub serve_http :
    World → SyncWorld → Handler → HttpRequest → List (OutRequest RegisterRequest) × Served
unfolding dispatch
serve_http o s h r = logged h.opts.logger (dispatch o s h r)
