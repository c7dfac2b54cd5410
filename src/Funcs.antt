-- ===== src/Funcs.antt =====
-- funcs.go: functions and their options. The types of the package inngest that are only passed on
-- (priority, concurrency, cancellation, batching) are given as the JSON that they are sent as.
-- time.Duration's text and slug.Make are parameters.
use Prim.Native.String.{◌++◌ as str_append}
use inngestgo.Prelude.{ℕ, String, Bool, Option, none, some, List, str_eq, if◌then◌else◌, ℤ}
use mathlib.Core.Option
use inngestgo.Json.{Json}
use inngestgo.Errors.{Error}
use inngestgo.Step.Core.{Ctx, M}

pub record Debounce : Type 0 where
  pub key : String
  pub period : ℤ
  pub timeout : Option ℤ

pub record Throttle : Type 0 where
  pub limit : ℕ
  pub period : ℤ
  pub burst : ℕ
  pub key : Option String

pub record RateLimit : Type 0 where
  pub limit : ℕ
  pub period : ℤ
  pub key : Option String

pub record Timeouts : Type 0 where
  pub start : Option ℤ
  pub finish : Option ℤ

-- inngest.EventBatchConfig, whose three fields the handler reads.
pub record EventBatchConfig : Type 0 where
  pub max_size : ℤ
  pub timeout : String
  pub key : Option String

pub record FunctionOpts : Type 0 where
  pub id : String
  pub name : String
  pub priority : Option Json
  pub concurrency : List Json
  pub idempotency : Option String
  pub retries : Option ℤ
  pub cancel : List Json
  pub debounce : Option Debounce
  pub timeouts : Option Timeouts
  pub throttle : Option Throttle
  pub rate_limit : Option RateLimit
  pub batch_events : Option EventBatchConfig

-- inngest.RateLimit and inngest.Timeouts, whose durations are texts.
pub record RateLimitConfig : Type 0 where
  pub limit : ℕ
  pub period : String
  pub key : Option String

pub record TimeoutsConfig : Type 0 where
  pub start : Option String
  pub finish : Option String

pub record EventTrigger : Type 0 where
  pub event : String
  pub expression : Option String

pub record Trigger : Type 0 where
  pub event_trigger : Option EventTrigger
  pub cron : Option String

unfoldable pub event_trigger : String → Option String → Trigger
event_trigger name expression = record {
  event_trigger = some (record { event = name; expression = expression });
  cron = none;
}

unfoldable pub cron_trigger : String → Trigger
cron_trigger cron = record { event_trigger = none; cron = some cron }

-- A value of type any: nil, a value with its JSON, or a value that json.Marshal refuses.
pub data Any : Type 0 where
  nil : Any
  json : Json → Any
  unserializable : Any

pub record InputCtx : Type 0 where
  pub env : String
  pub function_id : String
  pub run_id : String
  pub step_id : String
  pub attempt : ℤ

-- An event of the function's type is given by the JSON that it was decoded from.
pub record Input : Type 0 where
  pub event : Json
  pub events : List Json
  pub input_ctx : InputCtx

-- The type parameter of Input: `any`, another interface type, or a type with what
-- json.Unmarshal accepts for it.
pub data EventType : Type 0 where
  any_event : EventType
  interface_event : EventType
  concrete_event : (Json → Bool) → EventType

pub record ServableFunc : Type 0 where
  pub fc : FunctionOpts
  pub trigger : Trigger
  pub event_type : EventType
  pub f : Option (Ctx → Input → M (Any × Option Error))

-- CreateFunction; `none` is its panic.
unfoldable pub create_function :
    FunctionOpts
    → Trigger
    → EventType
    → (Ctx → Input → M (Any × Option Error))
    → Option ServableFunc
create_function fc trigger any_event f =
    some (record { fc = fc; trigger = trigger; event_type = any_event; f = some f })
create_function fc trigger interface_event f = none
create_function fc trigger (concrete_event accepts) f =
    some (record { fc = fc; trigger = trigger; event_type = concrete_event accepts; f = some f })

module _ (duration_text : ℤ → String) where
  unfoldable pub rate_limit_convert : RateLimit → RateLimitConfig
  rate_limit_convert r = record { limit = r.limit; period = duration_text r.period; key = r.key }

  unfoldable pub timeouts_convert : Timeouts → TimeoutsConfig
  timeouts_convert t = record {
    start = Option.map duration_text t.start;
    finish = Option.map duration_text t.finish;
  }

  unfoldable pub get_rate_limit : FunctionOpts → Option RateLimitConfig
  unfolding rate_limit_convert
  get_rate_limit f = Option.map rate_limit_convert f.rate_limit

  unfoldable pub get_timeouts : FunctionOpts → Option TimeoutsConfig
  unfolding timeouts_convert
  get_timeouts f = Option.map timeouts_convert f.timeouts

-- servableFunc.Slug
unfoldable pub slug : (String → String) → ServableFunc → String → String
slug slug_make s app_name =
    let fn_slug = if str_eq s.fc.id "" then slug_make s.fc.name else s.fc.id in
    if str_eq app_name "" then fn_slug else str_append app_name (str_append "-" fn_slug)
