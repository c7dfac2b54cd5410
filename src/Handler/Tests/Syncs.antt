-- ===== src/Handler/Tests/Syncs.antt =====
-- The theorems about configurations, signed responses and requests to the API.
use inngestgo.Prelude.{
  ℕ, ◌≡◌, refl, String, true, false, none, some, List, [], ◌∷◌, ◌++◌, ℤ, All, ◌==◌, if◌then◌else◌,
}
use inngestgo.Results.{Result, ok}
use inngestgo.Signature.Query.{Bytes}
use inngestgo.Signature.{validate_request_signature}
use inngestgo.Options.{Url, is_dev, get_signing_key, get_signing_key_fallback, get_env}
use inngestgo.Http.{ResponseWriter}
use inngestgo.Handler.Core.{Payload, answers}
use inngestgo.Handler.Trust.{trust, trust_key, trust_probe_response}
use inngestgo.Handler.Configs.{SdkFunction, create_function_configs, configs}
use inngestgo.Handler.Configs.Listed.{Listed, create_function_configs-Listed}
use inngestgo.Handler.Configs.Served.{IsServed, create_function_configs-IsServed}
use inngestgo.Handler.Fetch.{OutRequest, OutResponse, fetch_with_auth_fallback}
use inngestgo.Handler.Fetch.Requests.{IsFetch, fetch_with_auth_fallback-IsFetch}
use inngestgo.Handler.Inspect.{create_insecure_inspection, create_secure_inspection}
use inngestgo.Handler.Sync.{InBandSynchronizeResponse, accept_sync, sync_response, in_band_sync}
use inngestgo.Handler.Sync.Signed.{
  IsSignedResponse, IsAnswered, CanSign, trust-signed, in_band_sync-signed,
}
use inngestgo.Http.{words, add, sync_kind_header}
use inngestgo.Signature.Hashed.{hashed_signing_key}
use inngestgo.Handler.Register.{out_of_band_sync}
use inngestgo.Handler.Register.Accepted.{IsRegistered, out_of_band_sync-IsRegistered}
use inngestgo.Handler.Serve.{basic_writer}
use inngestgo.Handler.Tests.{
  world, sync_world, a_function, a_handler, a_call, a_key, a_json, app_url, digest, digest-IsHex,
  key_once, a_time, in_time,
}

abbrev one_second : ℤ → String
one_second d = "1s"

abbrev same_text : String → String
same_text s = s

abbrev path_of : Url → String
path_of u = u.path

abbrev the_configs : List SdkFunction
the_configs = configs one_second same_text path_of "app" (a_function ∷ []) app_url

configured :
    create_function_configs one_second same_text path_of "app" (a_function ∷ []) app_url false
    ≡ some (ok the_configs)
unfolding create_function_configs
configured = refl

create_function_configs-Listed_example :
    Listed one_second same_text path_of "app" app_url (a_function ∷ []) the_configs
create_function_configs-Listed_example =
    create_function_configs-Listed one_second same_text path_of "app" (a_function ∷ []) app_url
      false the_configs configured

create_function_configs-IsServed_example :
    All (IsServed same_text "app" path_of (a_function ∷ [])) the_configs
create_function_configs-IsServed_example =
    create_function_configs-IsServed one_second same_text path_of "app" (a_function ∷ []) app_url
      false the_configs configured

hashes : Bytes → Result Bytes
hashes key = ok key

abbrev to_api : OutRequest (Unit {0})
to_api = record { url = app_url; headers = []; body = tt }

-- The first request is denied.
abbrev denied_once : ℕ → OutRequest (Unit {0}) → Result OutResponse
denied_once n req = ok (record { status_code = if n == 0 then 401 else 200; body = ok tt })

fetch_with_auth_fallback-IsFetch_example :
    let r = fetch_with_auth_fallback hashes (ok to_api) denied_once (1 ∷ []) (2 ∷ []) in
    IsFetch hashes (ok to_api) denied_once (1 ∷ []) (2 ∷ []) r.0 r.1
fetch_with_auth_fallback-IsFetch_example =
    fetch_with_auth_fallback-IsFetch hashes (ok to_api) denied_once (1 ∷ []) (2 ∷ [])

a_key-CanSign : CanSign digest 1700000100000000000 1700000000 a_key
a_key-CanSign = (digest-IsHex, key_once, a_time, in_time)

probe_key : trust_key world a_handler a_call ≡ ok a_key
unfolding trust_key is_dev validate_request_signature get_signing_key
probe_key = refl

not_dev : is_dev world.environment a_handler.opts ≡ false
unfolding is_dev
not_dev = refl

trust-signed_example :
    (w : ResponseWriter Payload) × (trust world 1700000000 a_handler a_call basic_writer
      ≡ (ok tt, w))
    × IsSignedResponse digest 1700000100000000000 a_key w trust_probe_response
trust-signed_example =
    trust-signed world 1700000000 1700000100000000000 a_handler a_call a_key not_dev probe_key refl
      a_key-CanSign

abbrev the_response : InBandSynchronizeResponse
the_response = record {
  app_id = "app";
  env = none;
  functions = the_configs;
  inspection = record {
    insecure = create_insecure_inspection world a_handler (some true);
    api_origin = "https://api.inngest.com";
    app_id = "app";
    env = none;
    event_api_origin = "https://inn.gs";
    event_key_hash = none;
    serve_origin = none;
    serve_path = none;
    signing_key_fallback_hash = none;
    signing_key_hash = some (
        b's' ∷ b'i' ∷ b'g' ∷ b'n' ∷ b'k' ∷ b'e' ∷ b'y' ∷ b'-' ∷ b't' ∷ b'e' ∷ b's' ∷ b't' ∷ b'-'
        ∷ 18 ∷ []);
  };
  url = "/api";
}

a_call-IsAnswered : IsAnswered world sync_world a_handler a_call a_key a_json
unfolding accept_sync create_function_configs sync_response create_secure_inspection is_dev
    validate_request_signature get_signing_key get_signing_key_fallback get_env
a_call-IsAnswered = (app_url, the_configs, the_response, refl, refl, refl, refl)

in_band_sync-signed_example :
    (w : ResponseWriter Payload) × (in_band_sync world sync_world a_handler a_call basic_writer
      ≡ answers (ok tt) w)
    × IsSignedResponse digest 1700000100000000000 a_key w (a_json ++ 10 ∷ [])
in_band_sync-signed_example =
    in_band_sync-signed world sync_world 1700000100000000000 a_handler a_call a_key a_json
      a_call-IsAnswered refl a_key-CanSign

registered :
    (out_of_band_sync world sync_world a_handler a_call basic_writer).1
    ≡ answers (ok tt) (add sync_kind_header (words "out_of_band") basic_writer)
unfolding out_of_band_sync create_function_configs is_dev get_signing_key get_signing_key_fallback
    hashed_signing_key
registered = refl

out_of_band_sync-IsRegistered_example :
    IsRegistered world sync_world a_handler a_call
      (out_of_band_sync world sync_world a_handler a_call basic_writer).0
out_of_band_sync-IsRegistered_example =
    out_of_band_sync-IsRegistered world sync_world a_handler a_call basic_writer
      (add sync_kind_header (words "out_of_band") basic_writer) registered
