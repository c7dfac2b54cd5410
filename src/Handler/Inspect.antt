-- ===== src/Handler/Inspect.antt =====
-- handler.go: the inspection, which tells how the handler is set up, and more of it to a request
-- that is signed.
pub mod Pages
use Prim.Native.String.{◌++◌ as str_append}
use inngestgo.Prelude.{
  ℕ, String, Bool, true, false, not, Option, none, some, List, [], ◌∷◌, is_nil, str_eq,
  if◌then◌else◌, length,
}
use mathlib.Core.Option
use inngestgo.Errors.{Error}
use inngestgo.Results.{Result, ok, err, plain, ◌>>=◌}
use inngestgo.Signature.Query.{Bytes}
use inngestgo.Signature.Hashed.{hash_event_key, hashed_signing_key}
use inngestgo.Options.{
  Url, is_dev, get_signing_key, get_signing_key_fallback, get_env, dev_server_url,
  default_api_origin, default_event_api_origin,
}
use inngestgo.Http.{HttpRequest, ResponseWriter, encode, set, content_type}
use inngestgo.Handler.Core.{
  Handler, World, InsecureInspection, SecureInspection, Payload, insecure, secure, authenticate,
}
use inngestgo.Handler.Trust.{json_type}

unfoldable pub create_insecure_inspection : World → Handler → Option Bool → InsecureInspection
create_insecure_inspection o h succeeded = record {
  authentication_succeeded = succeeded;
  function_count = length h.funcs;
  has_event_key = not (is_nil o.environment.event_key);
  has_signing_key = not (is_nil (get_signing_key o.environment h.opts));
  has_signing_key_fallback = not (is_nil (get_signing_key_fallback o.environment h.opts));
  mode = if is_dev o.environment h.opts then "dev" else "cloud";
}

-- A key's hash, or nothing for an empty key.
abbrev hash_if_set : (Bytes → Result Bytes) → Bytes → Result (Option Bytes)
hash_if_set hash [] = ok none
hash_if_set hash (c ∷ cs) = hash (c ∷ cs) >>= λ d. ok (some d)

abbrev pub env_if_set : String → Option String
env_if_set s = if str_eq s "" then none else some s

unfoldable pub create_secure_inspection : World → Handler → Result SecureInspection
unfolding create_insecure_inspection hashed_signing_key hash_event_key
create_secure_inspection o h =
    let dev = is_dev o.environment h.opts in
    let server = dev_server_url o.has_host o.environment in
    plain "error hashing signing key"
      (hash_if_set (hashed_signing_key o.sha256_hex) (get_signing_key o.environment h.opts))
    >>= λ key.
        plain "error hashing signing key fallback" (
          hash_if_set (hashed_signing_key o.sha256_hex)
            (get_signing_key_fallback o.environment h.opts))
        >>= λ fallback. ok (record {
          insecure = create_insecure_inspection o h (some true);
          api_origin = if dev then server else default_api_origin;
          app_id = h.app_name;
          env = env_if_set (get_env o.environment h.opts);
          event_api_origin = if dev then server else default_event_api_origin;
          event_key_hash =
              if is_nil o.environment.event_key
              then none
              else some (hash_event_key o.sha256_hex o.environment.event_key);
          serve_origin =
              Option.map (λ (u : Url). str_append u.scheme (str_append "://" u.host)) h.opts.url;
          serve_path = Option.map (λ (u : Url). u.path) h.opts.url;
          signing_key_fallback_hash = fallback;
          signing_key_hash = key;
        })

unfoldable pub inspect :
    World
    → Handler
    → HttpRequest
    → ResponseWriter Payload
    → Result (Unit {0}) × ResponseWriter Payload
unfolding authenticate create_secure_inspection create_insecure_inspection
inspect o h r w =
    let typed = set content_type json_type w in
    let failed : Option Bool = if is_nil r.signature then none else some false in
    let page = insecure (create_insecure_inspection o h failed) in
    if is_nil r.signature
    then encode (o.marshalled page) o.written page typed
    else if (authenticate o h r.signature []).0
    then (elim (create_secure_inspection o h) [
      | err e ↦ (err e, w)
      | ok inspection ↦
          encode (o.marshalled (secure inspection)) o.written (secure inspection) typed
    ])
    else encode (o.marshalled page) o.written page typed
