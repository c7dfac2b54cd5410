-- ===== src/Handler/Register.antt =====
-- handler.go, register, url and outOfBandSync: the handler sends its functions to the API.
pub mod Accepted
use Prim.Native.String.{◌++◌ as str_append}
use inngestgo.Prelude.{
  String, false, ◌&&◌, Option, none, some, List, [], ◌∷◌, str_eq, if◌then◌else◌, erase, insert,
  or_else, ltb,
}
use inngestgo.Errors.{text, wrapped}
use inngestgo.Results.{Result, ok, err, plain, ◌>>=◌}
use inngestgo.Signature.Hashed.{hashed_signing_key}
use inngestgo.Options.{
  Url, is_dev, get_signing_key, get_signing_key_fallback, get_env, platform, dev_server_url,
  is_in_band_sync_allowed, is_set, default_api_origin,
}
use inngestgo.Http.{
  HttpRequest, ResponseWriter, words, Headers, set_header, add_header, set_basic_headers, get_query,
  add, sync_kind_header, env_header, expected_server_kind,
}
use inngestgo.Handler.Core.{Handler, World, Answer, answers, aborts, Payload}
use inngestgo.Handler.Configs.{SdkFunction, create_function_configs}
use inngestgo.Handler.Fetch.{OutRequest, OutResponse, fetch_with_auth_fallback}
use inngestgo.Handler.Sync.{RegisterRequest, SyncWorld, in_band_sync}

-- `scheme://host`
abbrev pub origin_of : HttpRequest → String
origin_of r = str_append (if r.tls then "https" else "http") (str_append "://" r.host)

-- The handler's `url`; `none` is the nil of a URL that is not parsed.
unfoldable pub url_of : World → Handler → HttpRequest → Option Url
url_of o h r = elim h.opts.url [
  | some u ↦ some u
  | none ↦ o.parse_url (str_append (origin_of r) r.request_uri)
]

-- r.URL.String() after deployId is deleted from the query.
unfoldable pub path_and_params : World → HttpRequest → String
path_and_params o r =
    let query = o.encode_query (erase "deployId" r.query) in
    if str_eq query "" then r.path else str_append r.path (str_append "?" query)

unfoldable pub register_request : World → Handler → HttpRequest → List SdkFunction → RegisterRequest
unfolding path_and_params
register_request o h r fns = record {
  url = str_append (origin_of r) (path_and_params o r);
  app_name = h.app_name;
  env = get_env o.environment h.opts;
  platform = platform o.environment;
  app_version = or_else h.opts.app_version "";
  functions = fns;
}

unfoldable pub register_url : World → Handler → String
register_url o h = elim h.opts.register_url [
  | some u ↦ u
  | none ↦
      if is_dev o.environment h.opts
      then str_append (dev_server_url o.has_host o.environment) "/fn/register"
      else str_append default_api_origin "/fn/register"
]

abbrev with_sync_id : String → Url → Url
with_sync_id id u =
    if is_set id then record u { query = insert "deployId" (id ∷ []) u.query } else u

abbrev with_env : String → Headers → Headers
with_env env hs = if is_set env then add_header env_header (words env) hs else hs

abbrev with_kind : String → Headers → Headers
with_kind kind hs = if is_set kind then set_header expected_server_kind (words kind) hs else hs

abbrev pub or_no_request : Option Url → Result Url
or_no_request none = err (text "invalid URL")
or_no_request (some u) = ok u

-- createRequest
unfoldable pub create_request :
    World
    → SyncWorld
    → Handler
    → HttpRequest
    → RegisterRequest
    → Result (OutRequest RegisterRequest)
unfolding register_url get_query set_basic_headers
create_request o s h r config =
    plain "error marshalling function config" s.config_marshalled >>= λ t.
    plain "error creating new request" (or_no_request (o.parse_url (register_url o h))) >>= λ u.
    ok (record {
      url = with_sync_id (get_query "deployId" r.query) u;
      headers =
          set_basic_headers (with_env (get_env o.environment h.opts) (with_kind r.server_kind []));
      body = config;
    })

abbrev pub fetched : Result OutResponse → ResponseWriter Payload → Answer
fetched (err e) w = answers (err (wrapped "error performing registration request" e)) w
fetched (ok resp) w =
    if ltb 299 resp.status_code
    then (elim resp.body [
      | err e ↦ answers (err (wrapped "error reading register response" e)) w
      | ok t ↦ answers (err (text "Error registering functions")) w
    ])
    else answers (ok tt) (add sync_kind_header (words "out_of_band") w)

-- The requests to the API that it makes, and its answer.
unfoldable pub out_of_band_sync :
    World
    → SyncWorld
    → Handler
    → HttpRequest
    → ResponseWriter Payload
    → List (OutRequest RegisterRequest) × Answer
unfolding url_of create_function_configs register_request create_request fetch_with_auth_fallback
out_of_band_sync o s h r w = elim (url_of o h r) [
  | none ↦ ([], aborts)
  | some u ↦
      elim (create_function_configs o.duration_text o.slug_make o.url_text h.app_name h.funcs u
        false) [
          | none ↦ ([], aborts)
          | some (err e) ↦ ([], answers (err (wrapped "error creating function configs" e)) w)
          | some (ok fns) ↦
              let sent =
                fetch_with_auth_fallback (hashed_signing_key o.sha256_hex)
                  (create_request o s h r (register_request o h r fns)) s.does
                  (get_signing_key o.environment h.opts)
                  (get_signing_key_fallback o.environment h.opts) in
              (sent.0, fetched sent.1 w)
        ]
]

-- A PUT request; its requests to the API, and its answer.
unfoldable pub register :
    World
    → SyncWorld
    → Handler
    → HttpRequest
    → ResponseWriter Payload
    → List (OutRequest RegisterRequest) × Answer
unfolding in_band_sync out_of_band_sync
register o s h r w =
    if str_eq r.sync_kind "in_band" && is_in_band_sync_allowed o.environment h.opts
    then ([], in_band_sync o s h r w)
    else out_of_band_sync o s h r w
