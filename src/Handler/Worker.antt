-- ===== src/Handler/Worker.antt =====
-- connect.go: how the handler starts a worker, up to the call of the package connect.
use inngestgo.Prelude.{
  ℕ, zero, suc, String, Bool, true, Option, none, some, List, [], ◌∷◌, ℤ, pos, negsuc,
}
use inngestgo.Errors.{text}
use inngestgo.Results.{Result, ok, err, plain, ◌>>=◌}
use inngestgo.Signature.Query.{Bytes}
use inngestgo.Signature.Hashed.{hashed_signing_key}
use inngestgo.Options
use inngestgo.Options.{Url, get_signing_key, get_signing_key_fallback, get_api_base_url}
use inngestgo.Handler.Core.{Handler, World}
use inngestgo.Handler.Configs.{SdkFunction, create_function_configs}

-- RewriteGatewayEndpoint is passed on and left out.
pub record ConnectOpts : Type 0 where
  pub instance_id : Option String
  pub max_concurrency : ℤ

-- connect.Opts, without the constants.
pub record WorkerOpts : Type 0 where
  pub app_name : String
  pub env : Option String
  pub functions : List SdkFunction
  pub hashed_signing_key : Bytes
  pub hashed_signing_key_fallback : Bytes
  pub max_concurrency : ℕ
  pub api_base_url : String
  pub is_dev : Bool
  pub dev_server_url : String
  pub instance_id : String
  pub app_version : Option String
  pub platform : String

-- `if concurrency < 1 { concurrency = defaultMaxWorkerConcurrency }`
abbrev pub or_1000 : ℤ → ℕ
or_1000 (pos zero) = 1000
or_1000 (pos (suc n)) = suc n
or_1000 (negsuc n) = 1000

abbrev pub connect_placeholder : Url
connect_placeholder = record { scheme = "ws"; host = "connect"; path = ""; others = ""; query = [] }

abbrev required : Option String → Result String
required none = err (text "missing required Instance ID")
required (some id) = ok id

abbrev hashed : (Bytes → Result Bytes) → Bytes → Result Bytes
hashed hash [] = err (text "signing key is required")
hashed hash (c ∷ cs) = plain "failed to hash signing key" (hash (c ∷ cs))

abbrev hashed_fallback : (Bytes → Result Bytes) → Bytes → Result Bytes
hashed_fallback hash [] = ok []
hashed_fallback hash (c ∷ cs) = plain "failed to hash fallback signing key" (hash (c ∷ cs))

unfoldable pub options_for :
    World → Handler → ConnectOpts → String → List SdkFunction → Result WorkerOpts
unfolding hashed_signing_key
options_for o h opts instance_id fns = do
  key ← hashed (hashed_signing_key o.sha256_hex) (get_signing_key o.environment h.opts)
  fallback ←
      hashed_fallback (hashed_signing_key o.sha256_hex)
        (get_signing_key_fallback o.environment h.opts)
  ok (record {
    app_name = h.app_name;
    env = h.opts.env;
    functions = fns;
    hashed_signing_key = key;
    hashed_signing_key_fallback = fallback;
    max_concurrency = or_1000 opts.max_concurrency;
    api_base_url = get_api_base_url o.has_host o.environment h.opts;
    is_dev = Options.is_dev o.environment h.opts;
    dev_server_url = Options.dev_server_url o.has_host o.environment;
    instance_id = instance_id;
    app_version = h.opts.app_version;
    platform = Options.platform o.environment;
  })

-- What connect.Connect is called with; `none` is a panic.
unfoldable pub worker_options : World → Handler → ConnectOpts → Option (Result WorkerOpts)
unfolding create_function_configs options_for
worker_options o h opts = elim (required opts.instance_id) [
  | err e ↦ some (err e)
  | ok id ↦
      elim (create_function_configs o.duration_text o.slug_make o.url_text h.app_name h.funcs
        connect_placeholder true) [
          | none ↦ none
          | some configs ↦ some (
              plain "error creating function configs" configs >>= λ fns.
              options_for o h opts id fns)
        ]
]
