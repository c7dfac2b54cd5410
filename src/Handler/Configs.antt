-- ===== src/Handler/Configs.antt =====
-- handler.go, createFunctionConfigs: what a handler tells the API about its functions.
pub mod Listed
pub mod Served
use inngestgo.Prelude.{
  ℕ, String, Bool, true, false, not, ◌&&◌, ◌||◌, is_some, Option, none, some, List, [], ◌∷◌, is_nil,
  str_eq, if◌then◌else◌, ℤ, insert,
}
use mathlib.Core.Option
use inngestgo.Json.{Json}
use inngestgo.Errors.{text}
use inngestgo.Results.{Result, ok, err}
use inngestgo.Funcs.{
  FunctionOpts, ServableFunc, Trigger, EventTrigger, Debounce, Throttle, RateLimitConfig,
  TimeoutsConfig, EventBatchConfig, slug, get_rate_limit, get_timeouts,
}
use inngestgo.Options.{Url}

-- inngest.Debounce, whose durations are texts.
pub record DebounceConfig : Type 0 where
  pub key : Option String
  pub period : String
  pub timeout : Option String

-- sdk.SDKStep with its retries and the "url" of its runtime.
pub record SdkStep : Type 0 where
  pub id : String
  pub name : String
  pub retries : Option ℤ
  pub url : String

-- sdk.SDKFunction; its steps are the one step "step", and an empty concurrency is a missing one.
pub record SdkFunction : Type 0 where
  pub name : String
  pub slug : String
  pub triggers : List Trigger
  pub concurrency : List Json
  pub priority : Option Json
  pub event_batch : Option EventBatchConfig
  pub idempotency : Option String
  pub rate_limit : Option RateLimitConfig
  pub throttle : Option Throttle
  pub debounce : Option DebounceConfig
  pub timeouts : Option TimeoutsConfig
  pub cancel : List Json
  pub step : SdkStep

-- `appURL == (url.URL{})`
unfoldable pub is_zero_url : Url → Bool
is_zero_url u =
    str_eq u.scheme ""
    && str_eq u.host ""
    && str_eq u.path ""
    && str_eq u.others ""
    && is_nil u.query

-- A trigger of a configuration is the one event or the one schedule of the function's trigger.
unfoldable pub trigger_config : Trigger → Trigger
trigger_config t = elim t.event_trigger [
  | some e ↦ record { event_trigger = some e; cron = none }
  | none ↦ record { event_trigger = none; cron = t.cron }
]

-- A trigger with neither makes the code dereference nil.
unfoldable pub all_triggered : List ServableFunc → Bool
all_triggered [] = true
all_triggered (f ∷ fs) =
    (is_some f.trigger.event_trigger || is_some f.trigger.cron) && all_triggered fs

-- The text of a duration, slug.Make and the text of a URL are parameters.
module _ (duration_text : ℤ → String) (slug_make : String → String) (url_text : Url → String) where
  unfoldable pub debounce_config : Debounce → DebounceConfig
  debounce_config d = record {
    key = some d.key;
    period = duration_text d.period;
    timeout = Option.map duration_text d.timeout;
  }

  -- The URL for a function: the query's fnId and step are set.
  unfoldable pub with_function : String → Url → Url
  with_function id u = record u {
    query = insert "step" ("step" ∷ []) (insert "fnId" (id ∷ []) u.query);
  }

  unfoldable pub function_config : String → ServableFunc → Url → SdkFunction
  unfolding debounce_config trigger_config
  function_config app_name fn u = record {
    name = fn.fc.name;
    slug = slug slug_make fn app_name;
    triggers = trigger_config fn.trigger ∷ [];
    concurrency = fn.fc.concurrency;
    priority = fn.fc.priority;
    event_batch = fn.fc.batch_events;
    idempotency = fn.fc.idempotency;
    rate_limit = get_rate_limit duration_text fn.fc;
    throttle = fn.fc.throttle;
    debounce = Option.map debounce_config fn.fc.debounce;
    timeouts = get_timeouts duration_text fn.fc;
    cancel = fn.fc.cancel;
    step = record { id = "step"; name = fn.fc.name; retries = fn.fc.retries; url = url_text u };
  }

  -- The loop, in which the URL of one function is where that of the next starts from.
  unfoldable pub configs : String → List ServableFunc → Url → List SdkFunction
  unfolding with_function function_config
  configs app_name [] u = []
  configs app_name (fn ∷ fns) u =
      let here = with_function (slug slug_make fn app_name) u in
      function_config app_name fn here ∷ configs app_name fns here

  -- `none` is a panic.
  unfoldable pub create_function_configs :
      String → List ServableFunc → Url → (is_connect : Bool) → Option (Result (List SdkFunction))
  unfolding configs is_zero_url all_triggered
  create_function_configs app_name fns u is_connect =
      if str_eq app_name ""
      then some (err (text "missing app name"))
      else if not is_connect && is_zero_url u
      then some (err (text "missing URL"))
      else if all_triggered fns
      then some (ok (configs app_name fns u))
      else none
