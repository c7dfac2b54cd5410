-- ===== src/Registry/Tests.antt =====
-- The theorem about registered functions, where one function takes the place of another.
use inngestgo.Prelude.{String, ◌≡◌, refl, none, [], ◌∷◌, Map}
use inngestgo.Funcs.{ServableFunc, FunctionOpts, any_event, cron_trigger}
use inngestgo.Registry.{get_servable_function_by_slug, register}
use inngestgo.Registry.Latest.{Visits, latest, get-register}

abbrev options : String → FunctionOpts
options name = record {
  id = "fn";
  name = name;
  priority = none;
  concurrency = [];
  idempotency = none;
  retries = none;
  cancel = [];
  debounce = none;
  timeouts = none;
  throttle = none;
  rate_limit = none;
  batch_events = none;
}

abbrev function : String → ServableFunc
function name = record {
  fc = options name;
  trigger = cron_trigger "0 0 * * *";
  event_type = any_event;
  f = none;
}

abbrev slug_make : String → String
slug_make s = s

abbrev in_order : Map ServableFunc → Map ServableFunc
in_order m = m

in_order-Visits : Visits slug_make "app" in_order
in_order-Visits m = (λ k. refl, λ h. h)

get-register_example :
    get_servable_function_by_slug slug_make "app" "app-fn"
      (register slug_make "app" in_order (function "old" ∷ []) (function "new" ∷ []))
    ≡ latest slug_make "app" "app-fn"
        (function "new" ∷ [])
        (latest slug_make "app" "app-fn" (function "old" ∷ []) none)
get-register_example =
    get-register slug_make "app" in_order "app-fn" (function "old" ∷ []) (function "new" ∷ [])
      in_order-Visits
