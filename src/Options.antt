-- ===== src/Options.antt =====
-- The options of a handler and the environment: HandlerOpts and its methods in handler.go, env.go
-- and platform.go. An environment variable that is not set is empty, as os.Getenv has it. Keys are
-- bytes, as signature.go takes them.
pub mod Origins
pub mod Tests
use Prim.Native.String.{◌++◌ as str_append}
use inngestgo.Prelude.{
  ℕ, String, Bool, true, false, ◌&&◌, ◌||◌, not, Option, none, some, List, [], or_else, str_eq,
  if◌then◌else◌, ℤ, pos, Map,
}
use inngestgo.Json.{equal_fold}
use inngestgo.Signature.Query.{Bytes}

-- The variables that the code reads, each named INNGEST_ and its name here, but for the last three.
pub record Environment : Type 0 where
  pub signing_key : Bytes
  pub signing_key_fallback : Bytes
  pub event_key : Bytes
  pub api_base_url : String
  pub event_api_base_url : String
  pub env : String
  pub dev : String
  pub allow_in_band_sync : String
  pub aws_region : String
  pub vercel : String
  pub netlify : String

-- url.URL: the parts that are read, the text of the others, and the values of its query.
pub record Url : Type 0 where
  pub scheme : String
  pub host : String
  pub path : String
  pub others : String
  pub query : Map (List String)

pub record HandlerOpts : Type 0 where
  pub logger : Option (Unit {0})
  pub signing_key : Option Bytes
  pub signing_key_fallback : Option Bytes
  pub api_base_url : Option String
  pub event_api_base_url : Option String
  pub serve_origin : Option String
  pub serve_path : Option String
  pub env : Option String
  pub register_url : Option String
  pub app_version : Option String
  pub max_body_size : ℤ
  pub url : Option Url
  pub use_streaming : Bool
  pub allow_in_band_sync : Option Bool
  pub dev : Option Bool

abbrev pub is_set : String → Bool
is_set s = not (str_eq s "")

unfoldable pub is_true : String → Bool
unfolding equal_fold
is_true val = equal_fold "true" val || str_eq val "1"

abbrev pub dev_server_origin : String
dev_server_origin = "http://127.0.0.1:8288"

abbrev pub default_api_origin : String
default_api_origin = "https://api.inngest.com"

abbrev pub default_event_api_origin : String
default_event_api_origin = "https://inn.gs"

-- IsDev of env.go
unfoldable pub env_is_dev : Environment → Bool
env_is_dev e = is_set e.dev

unfoldable pub platform : Environment → String
platform e =
    if is_set e.aws_region
    then str_append "aws-" e.aws_region
    else if is_set e.vercel
    then "vercel"
    else if is_set e.netlify
    then "netlify"
    else ""

unfoldable pub get_signing_key : Environment → HandlerOpts → Bytes
get_signing_key e h = or_else h.signing_key e.signing_key

unfoldable pub get_signing_key_fallback : Environment → HandlerOpts → Bytes
get_signing_key_fallback e h = or_else h.signing_key_fallback e.signing_key_fallback

unfoldable pub get_serve_origin : HandlerOpts → String
get_serve_origin h = or_else h.serve_origin ""

unfoldable pub get_serve_path : HandlerOpts → String
get_serve_path h = or_else h.serve_path ""

unfoldable pub get_env : Environment → HandlerOpts → String
get_env e h = or_else h.env e.env

unfoldable pub get_register_url : HandlerOpts → String
get_register_url h = or_else h.register_url "https://www.inngest.com/fn/register"

unfoldable pub is_in_band_sync_allowed : Environment → HandlerOpts → Bool
unfolding is_true
is_in_band_sync_allowed e h = or_else h.allow_in_band_sync (is_true e.allow_in_band_sync)

unfoldable pub is_dev : Environment → HandlerOpts → Bool
unfolding env_is_dev
is_dev e h = or_else h.dev (env_is_dev e)

-- `if env != "" { return env }; return def`
abbrev pub or_default : String → String → String
or_default s def = if is_set s then s else def

-- Whether url.Parse accepts a text and finds a host in it is a parameter.
module _ (has_host : String → Bool) where
  unfoldable pub dev_server_url : Environment → String
  dev_server_url e = if is_set e.dev && has_host e.dev then e.dev else dev_server_origin

  unfoldable pub get_api_base_url : Environment → HandlerOpts → String
  unfolding dev_server_url is_dev
  get_api_base_url e h =
      if is_dev e h
      then dev_server_url e
      else or_else h.api_base_url (or_default e.api_base_url default_api_origin)

  unfoldable pub get_event_api_base_url : Environment → HandlerOpts → String
  unfolding dev_server_url is_dev
  get_event_api_base_url e h =
      if is_dev e h
      then dev_server_url e
      else or_else h.event_api_base_url (or_default e.event_api_base_url default_event_api_origin)
