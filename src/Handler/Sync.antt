-- ===== src/Handler/Sync.antt =====
-- handler.go, register: a PUT request makes the handler tell about its functions, in its response
-- or in a request of its own to the API; and StructToMap of internal/types/structs.go.
pub mod Signed
use Prim.Native.String.{◌++◌ as str_append}
use inngestgo.Prelude.{
  ℕ, String, Bool, true, false, not, ◌&&◌, Option, none, some, List, [], ◌∷◌, ◌++◌, is_nil, str_eq,
  if◌then◌else◌, Map, erase, insert, or_else, pos, ltb,
}
use inngestgo.Json.{Json, Fields, null, object}
use inngestgo.Errors.{Error, text, wrapped, public_cause, syscode}
use inngestgo.Results.{Result, ok, err, plain, ◌>>=◌, ◌>>◌}
use inngestgo.Signature.Query.{Bytes}
use inngestgo.Signature.Hashed.{hashed_signing_key}
use inngestgo.Signature.{sign_without_jcs}
use inngestgo.Options.{
  Url, is_dev, get_signing_key, get_signing_key_fallback, get_env, platform, dev_server_url,
  is_in_band_sync_allowed, is_set, default_api_origin,
}
use inngestgo.Http.{
  HttpRequest, ResponseWriter, HeaderValue, words, bytes, Headers, set_header, add_header,
  set_basic_headers, read_limited, get_query, encode, add, content_type, signature_header,
  sync_kind_header, env_header, expected_server_kind,
}
use inngestgo.Handler.Core.{
  Handler, World, Answer, answers, aborts, Payload, raw, SecureInspection, authenticate,
  or_default_size,
}
use inngestgo.Handler.Invoke.{answer}
use inngestgo.Handler.Trust.{json_type}
use inngestgo.Handler.Inspect.{create_secure_inspection, env_if_set}
use inngestgo.Handler.Configs.{SdkFunction, create_function_configs}
use inngestgo.Handler.Fetch.{OutRequest, OutResponse, fetch_with_auth_fallback}

-- inBandSynchronizeResponse; the fields that are constant or not set are left out.
pub record InBandSynchronizeResponse : Type 0 where
  pub app_id : String
  pub env : Option String
  pub functions : List SdkFunction
  pub inspection : SecureInspection
  pub url : String

-- sdk.RegisterRequest, without its constants.
pub record RegisterRequest : Type 0 where
  pub url : String
  pub app_name : String
  pub env : String
  pub platform : String
  pub app_version : String
  pub functions : List SdkFunction

-- What the registration needs from outside, besides the world of the handler: the JSON of its
-- messages, the time (in seconds) at which a response is signed, and the API's answers.
pub record SyncWorld : Type 0 where
  pub decode_url : Bytes → Result String
  pub inspection_json : Result Json
  pub marshal_response : InBandSynchronizeResponse → Result Bytes
  pub signed_at : ℕ
  pub config_marshalled : Result (Unit {0})
  pub does : ℕ → OutRequest RegisterRequest → Result OutResponse

abbrev refuse {ℓ} : {A : Type ℓ} → ℕ → Error → Result A
refuse status cause = err (public_cause status "" cause)

abbrev or_malformed {ℓ} : {A : Type ℓ} → Result A → Result A
or_malformed (ok a) = ok a
or_malformed (err e) = refuse 400 (wrapped "malformed input" e)

abbrev or_unread {ℓ} : {A : Type ℓ} → Result A → Result A
or_unread (ok a) = ok a
or_unread (err e) = refuse 500 (text "error reading request body")

abbrev pub sig_verification_failed : String
sig_verification_failed = "sig_verification_failed"

abbrev pub http_missing_header : String
http_missing_header = "http_missing_header"

-- The key of a valid request, which is empty in dev mode.
abbrev sync_key_of : Bool × Bytes × Option Error → Result Bytes
sync_key_of (valid, key, some e) =
    refuse 401 (syscode sig_verification_failed "error validating signature")
sync_key_of (true, key, none) = ok key
sync_key_of (false, key, none) = refuse 401 (syscode sig_verification_failed "invalid signature")

-- The signature's check; it gives the key, with the body.
unfoldable pub sync_key : World → Handler → HttpRequest → Result (Bytes × Bytes)
unfolding authenticate read_limited
sync_key o h r =
    if not (is_dev o.environment h.opts) && is_nil r.signature
    then refuse 401 (syscode http_missing_header "missing X-Inngest-Signature header")
    else (do
      body ← or_unread (read_limited (or_default_size h.opts.max_body_size) r)
      key ←
          sync_key_of
            (authenticate o h (if is_dev o.environment h.opts then [] else r.signature) body)
      ok (key, body))

abbrev non_empty : String → Result String
non_empty url = if is_set url then ok url else err (text "missing URL")

abbrev or_invalid : Option Url → Result Url
or_invalid none = err (text "invalid URL")
or_invalid (some u) = ok u

-- The URL of the app that the request names, or that of the options.
unfoldable pub app_url : World → SyncWorld → Handler → Bytes → Result Url
app_url o s h body = or_malformed (do
  named ← s.decode_url body
  url ← non_empty named
  u ← or_invalid (o.parse_url url)
  ok (or_else h.opts.url u))

-- types.StructToMap; a number that is read into an interface value is a float64 there, which is not
-- looked into.
unfoldable pub struct_to_map : Result Json → Result (Option Fields)
struct_to_map (err e) = err (wrapped "failed to marshal" e)
struct_to_map (ok (object fs)) = ok (some fs)
struct_to_map (ok null) = ok none
struct_to_map (ok j) = err (text "failed to unmarshal")

-- The response, from the URL and the configurations of the functions.
unfoldable pub sync_response :
    World → SyncWorld → Handler → Url → List SdkFunction → Result InBandSynchronizeResponse
unfolding create_secure_inspection struct_to_map
sync_response o s h u fns = do
  inspection ← plain "error creating inspection" (create_secure_inspection o h)
  _ ← plain "error converting inspection to map" (struct_to_map s.inspection_json)
  ok (record {
    app_id = h.app_name;
    env = env_if_set (get_env o.environment h.opts);
    functions = fns;
    inspection = inspection;
    url = o.url_text u;
  })

-- The response's JSON is signed with the request's key, and sent with a newline behind it.
unfoldable pub send_signed :
    World → SyncWorld → Bytes → Result Bytes → ResponseWriter Payload → Answer
unfolding sign_without_jcs
send_signed o s key (err e) w = answers (err e) w
send_signed o s key (ok json) w =
    let sig = sign_without_jcs o.hmac_hex o.now (pos s.signed_at) key json in
    let page = raw (json ++ 10 ∷ []) in
    answer (
      encode (ok tt) o.written page (
        add sync_kind_header (words "in_band")
          (add content_type json_type (add signature_header (bytes sig) w))))

-- The key and the app's URL.
unfoldable pub accept_sync : World → SyncWorld → Handler → HttpRequest → Result (Bytes × Url)
unfolding sync_key app_url
accept_sync o s h r = do (key, body) ← sync_key o h r; u ← app_url o s h body; ok (key, u)

unfoldable pub in_band_sync :
    World → SyncWorld → Handler → HttpRequest → ResponseWriter Payload → Answer
unfolding accept_sync create_function_configs sync_response send_signed
in_band_sync o s h r w = elim (accept_sync o s h r) [
  | err e ↦ answers (err e) w
  | ok q ↦
      elim (create_function_configs o.duration_text o.slug_make o.url_text h.app_name h.funcs q.1
        false) [
          | none ↦ aborts
          | some configs ↦
              send_signed o s q.0
                (plain "error creating function configs" configs >>= λ fns.
                  sync_response o s h q.1 fns >>= λ resp.
                  plain "error marshalling response" (s.marshal_response resp))
                w
        ]
]
