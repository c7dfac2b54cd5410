-- ===== src/Handler/Tests.antt =====
-- A handler with one function, and requests to it, for the theorems about the handler. One letter
-- stands for every digest, and every URL is read as one URL.
mod Calls
mod Syncs
use inngestgo.Prelude.{
  ℕ, String, Bool, true, false, ◌≡◌, refl, ◌<◌, ◌^◌, Option, none, some, List, [], ◌∷◌, ℤ, pos,
  arith, Map,
}
use inngestgo.Json.{Json, null, number, object, end}
use inngestgo.Errors.{Error}
use inngestgo.Results.{Result, ok}
use inngestgo.SdkRequest.{Request}
use inngestgo.Funcs.{ServableFunc, FunctionOpts, Any, json, any_event, event_trigger}
use inngestgo.Step.Core.{Ctx}
use inngestgo.Signature.Query.{Bytes}
use inngestgo.Signature.RoundTrip.{IsHex}
use inngestgo.Signature.{normalize_key, is_expired}
use inngestgo.Options.{HandlerOpts, Url}
use inngestgo.Options.Tests.{environment, options}
use inngestgo.Http.{HttpRequest}
use inngestgo.Handler.Core.{Handler, World, Payload}
use inngestgo.Handler.Sync.{SyncWorld, InBandSynchronizeResponse}

abbrev pub digest : Bytes → Bytes → Bytes
digest key message = b'd' ∷ b'6' ∷ []

abbrev pub same : Bytes → Bytes
same body = body

abbrev pub request : Request
request = record {
  event = some null;
  events = [];
  steps = [];
  call_ctx = record {
    disable_immediate_execution = false;
    env = "";
    function_id = "fn";
    run_id = "r";
    step_id = "step";
    attempt = pos 0;
  };
  use_api = false;
}

abbrev pub app_url : Url
app_url = record {
  scheme = "https";
  host = "example.com";
  path = "/api";
  others = "";
  query = ("a", "1" ∷ []) ∷ [];
}

abbrev pub world : World
world = record {
  environment = environment;
  now = 1700000100000000000;
  hmac_hex = digest;
  transform = same;
  sha256_hex = same;
  has_host = λ s. false;
  parse_url = λ s. some app_url;
  url_text = λ u. u.path;
  encode_query = λ q. "";
  duration_text = λ d. "1s";
  slug_make = λ s. s;
  decode = λ b. ok request;
  marshalled = λ p. ok tt;
  written = ok tt;
}

-- "signkey-test-12"
abbrev pub a_key : Bytes
a_key =
    b's' ∷ b'i' ∷ b'g' ∷ b'n' ∷ b'k' ∷ b'e' ∷ b'y' ∷ b'-' ∷ b't' ∷ b'e' ∷ b's' ∷ b't' ∷ b'-' ∷ b'1'
    ∷ b'2' ∷ []

abbrev pub a_function : ServableFunc
a_function = record {
  fc = record {
    id = "fn";
    name = "A function";
    priority = none;
    concurrency = [];
    idempotency = none;
    retries = some (pos 3);
    cancel = [];
    debounce = none;
    timeouts = none;
    throttle = none;
    rate_limit = none;
    batch_events = none;
  };
  trigger = record {
    event_trigger = some (record { event = "app/user.created"; expression = none });
    cron = none;
  };
  event_type = any_event;
  f = none;
}

abbrev pub a_handler : Handler
a_handler = record {
  opts = record options { signing_key = some a_key; max_body_size = pos 4 };
  app_name = "app";
  funcs = a_function ∷ [];
}

-- "t=1700000000&s=d6"
abbrev pub a_signature : Bytes
a_signature =
    b't' ∷ b'=' ∷ b'1' ∷ b'7' ∷ b'0' ∷ b'0' ∷ b'0' ∷ b'0' ∷ b'0' ∷ b'0' ∷ b'0' ∷ b'0' ∷ b'&' ∷ b's'
    ∷ b'=' ∷ b'd' ∷ b'6' ∷ []

abbrev pub a_call : HttpRequest
a_call = record {
  method = "POST";
  signature = a_signature;
  sync_kind = "in_band";
  server_kind = "";
  tls = true;
  host = "example.com";
  path = "/api";
  request_uri = "/api?fnId=app-fn&stepId=step";
  query = ("fnId", "app-fn" ∷ []) ∷ ("stepId", "step" ∷ []) ∷ [];
  body = b'{' ∷ b'}' ∷ [];
  body_error = none;
}

pub digest-IsHex : IsHex digest
digest-IsHex key message = ground arith

pub key_once : normalize_key (normalize_key a_key) ≡ normalize_key a_key
unfolding normalize_key
key_once = refl

pub a_time : 1700000000 < 2 ^ 63
a_time = omega arith

pub in_time : is_expired 1700000100000000000 (pos 1700000000) ≡ false
unfolding is_expired
in_time = refl

abbrev pub a_json : Bytes
a_json = b'1' ∷ []

abbrev pub sync_world : SyncWorld
sync_world = record {
  decode_url = λ b. ok "https://example.com/api";
  inspection_json = ok (object end);
  marshal_response = λ r. ok a_json;
  signed_at = 1700000000;
  config_marshalled = ok tt;
  does = λ n req. ok (record { status_code = 200; body = ok tt });
}
