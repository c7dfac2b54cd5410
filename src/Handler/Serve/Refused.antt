-- ===== src/Handler/Serve/Refused.antt =====
-- Requests that ServeHTTP refuses before it calls a function.
use inngestgo.Prelude.{
  ◌<◌, ◌≡◌, ◌≢◌, refl, ap, ◌∙◌, ◌⊎◌, inl, inr, true, false, some, [], arith, is_nil, length, str_eq,
  str_eq_iff, ltb, Bool-cases,
}
use inngestgo.Errors.{Error, Sentinel, sentinel, text, text_panics, any_link}
use inngestgo.Results.{ok, err}
use inngestgo.Signature.Query.{Bytes}
use inngestgo.Options.{is_dev}
use inngestgo.Http.Sent.{write_header-first, encode-sent}
use inngestgo.Http.{
  HttpRequest, read_limited, get_query, limit_of, set_basic_headers, ResponseWriter,
}
use inngestgo.Handler.Core.{
  Handler, World, Payload, error_response, authenticate, or_default_size, status_of,
}
use inngestgo.Handler.Invoke.{accept, invoke, signature_of, bad_request_error}
use inngestgo.Handler.Sync.{SyncWorld}
use inngestgo.Handler.Serve.{
  logged, dispatch, serve_http, report_answer, write_invoke_error, basic_writer,
}

-- A request to call a function, to a handler with a logger.
abbrev pub IsCall : Handler → HttpRequest → Type 0
IsCall h r = (h.opts.logger ≡ some tt) × (r.method ≡ "POST") × (get_query "probe" r.query ≢ "trust")

dispatch-call :
    (o : World) (s : SyncWorld) (h : Handler) (r : HttpRequest)
    → r.method ≡ "POST"
    → get_query "probe" r.query ≢ "trust"
    → dispatch o s h r ≡ ([], report_answer write_invoke_error o (invoke o h r basic_writer))
unfolding dispatch
dispatch-call o s h r p t =
    let no_probe : str_eq (get_query "probe" r.query) "trust" ≡ false =
      ground (arith, str_eq_iff (get_query "probe" r.query) "trust") in
    rw (p, dispatch) (rw no_probe refl)

serve_http-call :
    (o : World) (s : SyncWorld) (h : Handler) (r : HttpRequest)
    → IsCall h r
    → serve_http o s h r ≡ ([], report_answer write_invoke_error o (invoke o h r basic_writer))
unfolding serve_http
serve_http-call o s h r (l, p, t) =
    ap (λ logger. logged logger (dispatch o s h r)) l ∙ dispatch-call o s h r p t

serve_http-refused :
    (o : World) (s : SyncWorld) (h : Handler) (r : HttpRequest) (e : Error)
    → IsCall h r
    → accept o h r ≡ err e
    → text_panics e ≡ false
    → serve_http o s h r ≡ ([], some (write_invoke_error o e basic_writer))
unfolding invoke report_answer
serve_http-refused o s h r e c a p = rw (serve_http-call o s h r c) (rw (a, invoke) (rw p refl))

-- The first status that is sent, with the basic headers.
pub write_invoke_error-sent :
    (o : World) (e : Error)
    → (write_invoke_error o e basic_writer).sent ≡ some (status_of e, set_basic_headers [])
unfolding write_invoke_error basic_writer
write_invoke_error-sent o e =
    encode-sent (o.marshalled (error_response e)) o.written (error_response e) _ _
      (write_header-first (status_of e) basic_writer refl)

-- The signature is missing, or it is none for the body.
abbrev pub IsUnsigned : World → Handler → HttpRequest → Type 0
IsUnsigned o h r =
    (is_dev o.environment h.opts ≡ false)
    × ((is_nil r.signature ≡ true)
        ⊎ ((body : Bytes) × (read_limited (or_default_size h.opts.max_body_size) r ≡ ok body)
            × ((authenticate o h r.signature body).0 ≡ false)))

signature_of-given :
    (o : World) (h : Handler) (r : HttpRequest)
    → is_dev o.environment h.opts ≡ false
    → is_nil r.signature ≡ false
    → signature_of o h r ≡ ok r.signature
unfolding signature_of
signature_of-given o h r d n = rw (d, n) refl

accept-unsigned :
    (o : World) (h : Handler) (r : HttpRequest)
    → IsUnsigned o h r
    → accept o h r ≡ err (sentinel Sentinel.unauthorized)
unfolding accept signature_of
accept-unsigned o h r (d, inl n) = rw (d, n, accept) refl
accept-unsigned o h r (d, inr (body, b, v)) = elim (Bool-cases (is_nil r.signature)) [
  | inl n ↦ rw (d, n, accept) refl
  | inr n ↦ rw (signature_of-given o h r d n, accept) (rw b (rw v refl))
]

status_of-unauthorized : status_of (sentinel Sentinel.unauthorized) ≡ 401
unfolding status_of any_link
status_of-unauthorized = refl

-- Outside of dev mode, a handler with a logger answers a request to call a function that has no
-- signature, or whose signature is none for its body, with 401 and one error, and the answer depends
-- neither on the functions nor on anything else of the handler or of the request.
pub serve_http-unauthorized :
    (o : World) (s : SyncWorld) (h : Handler) (r : HttpRequest)
    → IsCall h r
    → IsUnsigned o h r
    → (w : ResponseWriter Payload) × (serve_http o s h r ≡ ([], some w))
      × (w.sent ≡ some (401, set_basic_headers []))
      × (w ≡ write_invoke_error o (sentinel Sentinel.unauthorized) basic_writer)
unfolding text_panics
serve_http-unauthorized o s h r c u = (
  write_invoke_error o (sentinel Sentinel.unauthorized) basic_writer,
  serve_http-refused o s h r (sentinel Sentinel.unauthorized) c (accept-unsigned o h r u) refl,
  write_invoke_error-sent o (sentinel Sentinel.unauthorized)
      ∙ ap (λ k. some (k, set_basic_headers [])) status_of-unauthorized,
  refl,
)

too_large : Error
too_large = bad_request_error (text "http: request body too large")

accept-too_large :
    (o : World) (h : Handler) (r : HttpRequest) (sig : Bytes)
    → signature_of o h r ≡ ok sig
    → limit_of (or_default_size h.opts.max_body_size) < length r.body
    → accept o h r ≡ err too_large
unfolding accept read_limited too_large
accept-too_large o h r sig s l =
    let long : ltb (limit_of (or_default_size h.opts.max_body_size)) (length r.body) ≡ true =
      ground arith in
    rw (s, accept) (rw (long, read_limited) refl)

-- A handler with a logger answers a request to call a function with 400 where the body is longer
-- than the limit, which is that of the options or 100 MiB where they give 0, if the signature's
-- header is there or not needed.
serve_http-too_large :
    (o : World) (s : SyncWorld) (h : Handler) (r : HttpRequest) (sig : Bytes)
    → IsCall h r
    → signature_of o h r ≡ ok sig
    → limit_of (or_default_size h.opts.max_body_size) < length r.body
    → (w : ResponseWriter Payload) × (serve_http o s h r ≡ ([], some w))
      × (w.sent ≡ some (400, set_basic_headers []))
unfolding text_panics too_large status_of any_link
serve_http-too_large o s h r sig c g l = (
  write_invoke_error o too_large basic_writer,
  serve_http-refused o s h r too_large c (accept-too_large o h r sig g l) refl,
  write_invoke_error-sent o too_large,
)
