-- ===== src/Options/Tests.antt =====
-- The theorem about base URLs, for one environment.
use inngestgo.Prelude.{String, Bool, false, none, some, [], pos}
use inngestgo.Options.{Environment, HandlerOpts}

abbrev pub environment : Environment
environment = record {
  signing_key = [];
  signing_key_fallback = [];
  event_key = [];
  api_base_url = "https://api.example.com";
  event_api_base_url = "";
  env = "";
  dev = "";
  allow_in_band_sync = "true";
  aws_region = "";
  vercel = "";
  netlify = "";
}

abbrev pub options : HandlerOpts
options = record {
  logger = some tt;
  signing_key = none;
  signing_key_fallback = none;
  api_base_url = none;
  event_api_base_url = none;
  serve_origin = none;
  serve_path = none;
  env = none;
  register_url = none;
  app_version = none;
  max_body_size = pos 0;
  url = none;
  use_streaming = false;
  allow_in_band_sync = none;
  dev = none;
}

abbrev no_host : String → Bool
no_host s = false
