-- ===== src/Handler/Core.antt =====
-- handler.go: the handler's state and what it sends. What other packages and the network answer is
-- in a record of the world outside.
use inngestgo.Prelude.{
  ℕ, zero, ◌*◌, String, Bool, true, false, Option, some, List, [], ℤ, pos, if◌then◌else◌, Map,
}
use inngestgo.Errors.{Error, Sentinel, sentinel, any_link}
use inngestgo.Results.{Result}
use inngestgo.SdkRequest.{GeneratorOpcode, Request}
use inngestgo.Funcs.{Any, ServableFunc}
use inngestgo.Signature.Query.{Bytes}
use inngestgo.Signature.{validate_request_signature}
use inngestgo.Options.{
  Environment, Url, HandlerOpts, is_dev, get_signing_key, get_signing_key_fallback,
}
use inngestgo.Http.{ResponseWriter}

-- `l` of the handler is left out.
pub record Handler : Type 0 where
  pub opts : HandlerOpts
  pub app_name : String
  pub funcs : List ServableFunc

abbrev pub default_max_body_size : ℕ
default_max_body_size = 1024 * 1024 * 100

-- `if max == 0 { max = DefaultMaxBodySize }`
abbrev pub or_default_size : ℤ → ℤ
or_default_size (pos zero) = pos default_max_body_size
or_default_size size = size

abbrev pub with_logger : Option (Unit {0}) → Option (Unit {0})
with_logger logger = some tt

unfoldable pub new_handler : String → HandlerOpts → Handler
new_handler app_name opts = record {
  opts = record opts {
    logger = with_logger opts.logger;
    max_body_size = or_default_size opts.max_body_size;
  };
  app_name = app_name;
  funcs = [];
}

-- The defaults go into a copy of the options that is not used any more.
unfoldable pub set_options : HandlerOpts → Handler → Handler
set_options opts h = record h { opts = opts }

unfoldable pub set_app_name : String → Handler → Handler
set_app_name name h = record h { app_name = name }

pub data StreamBody : Type 0 where
  failure : Error → StreamBody
  reported : List GeneratorOpcode → StreamBody
  result : Any → StreamBody

pub record StreamResponse : Type 0 where
  pub status_code : ℕ
  pub body : StreamBody
  pub retry_at : Option ℕ
  pub no_retry : Bool

pub record InsecureInspection : Type 0 where
  pub authentication_succeeded : Option Bool
  pub function_count : ℕ
  pub has_event_key : Bool
  pub has_signing_key : Bool
  pub has_signing_key_fallback : Bool
  pub mode : String

pub record SecureInspection : Type 0 where
  pub insecure : InsecureInspection
  pub api_origin : String
  pub app_id : String
  pub env : Option String
  pub event_api_origin : String
  pub event_key_hash : Option Bytes
  pub serve_origin : Option String
  pub serve_path : Option String
  pub signing_key_fallback_hash : Option Bytes
  pub signing_key_hash : Option Bytes

-- The parts of a response's body: a value, ops, an error's text in an ErrorResponse, an error
-- itself, a code with an error's text, a streamed response, an inspection, or bytes.
pub data Payload : Type 0 where
  value : Any → Payload
  ops : List GeneratorOpcode → Payload
  error_response : Error → Payload
  error_value : Error → Payload
  error_code : String → Error → Payload
  streamed : StreamResponse → Payload
  insecure : InsecureInspection → Payload
  secure : SecureInspection → Payload
  raw : Bytes → Payload

-- The environment, the time (in nanoseconds), the cryptography, url.Parse and whether it
-- finds a host, URL.String, Values.Encode, Duration.String, slug.Make, what json.Unmarshal and
-- json.Marshal make of requests and responses, and whether the client takes what is written.
pub record World : Type 0 where
  pub environment : Environment
  pub now : ℕ
  pub hmac_hex : Bytes → Bytes → Bytes
  pub transform : Bytes → Bytes
  pub sha256_hex : Bytes → Bytes
  pub has_host : String → Bool
  pub parse_url : String → Option Url
  pub url_text : Url → String
  pub encode_query : Map (List String) → String
  pub duration_text : ℤ → String
  pub slug_make : String → String
  pub decode : Bytes → Result Request
  pub marshalled : Payload → Result (Unit {0})
  pub written : Result (Unit {0})

-- A handler's answer with its error, or a panic, which ends the connection.
pub data Answer : Type 0 where
  answers : Result (Unit {0}) → ResponseWriter Payload → Answer
  aborts : Answer

-- ValidateRequestSignature with the keys and the mode of the handler.
unfoldable pub authenticate : World → Handler → Bytes → Bytes → Bool × Bytes × Option Error
authenticate o h sig body =
    validate_request_signature o.hmac_hex o.transform o.now sig
      (get_signing_key o.environment h.opts) (get_signing_key_fallback o.environment h.opts) body
      (is_dev o.environment h.opts)

abbrev is_same : Sentinel → Error → Bool
is_same Sentinel.function_missing (sentinel Sentinel.function_missing) = true
is_same Sentinel.bad_request (sentinel Sentinel.bad_request) = true
is_same Sentinel.unauthorized (sentinel Sentinel.unauthorized) = true
is_same _ _ = false

-- The status that ServeHTTP answers an error of `invoke` with.
unfoldable pub status_of : Error → ℕ
unfolding any_link
status_of e =
    if any_link (is_same Sentinel.function_missing) e
    then 410
    else if any_link (is_same Sentinel.bad_request) e
    then 400
    else if any_link (is_same Sentinel.unauthorized) e
    then 401
    else 500
