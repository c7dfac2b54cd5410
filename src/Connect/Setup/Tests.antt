-- ===== src/Connect/Setup/Tests.antt =====
-- The set-up of a worker with one function, with and without the URL of its step.
use inngestgo.Prelude.{
  String, true, ◌≡◌, ◌≢◌, refl, none, some, List, [], ◌∷◌, map, Map, ℤ, All, arith, str_eq_iff,
}
use inngestgo.Json.{null}
use inngestgo.Errors.{close_error, wrapped}
use inngestgo.Results.{ok, err}
use inngestgo.Funcs.{slug}
use inngestgo.Options.{Url}
use inngestgo.Handler.Configs.{SdkFunction, create_function_configs, configs}
use inngestgo.Handler.Worker.{connect_placeholder}
use inngestgo.Handler.Tests.{a_function}
use inngestgo.Connect.RunLoop.Defs.{Keys, Loop}
use inngestgo.Connect.Setup.{registered, SetupCalls, set_up, closed_with, process_executor_request}
use inngestgo.Connect.Setup.Served.{IsServed, set_up-IsServed}

abbrev one_second : ℤ → String
one_second d = "1s"

abbrev same_text : String → String
same_text s = s

abbrev scheme_of : Url → String
scheme_of u = u.scheme

abbrev keys : Keys
keys = record { hashed_signing_key = "first"; hashed_signing_key_fallback = "" }

abbrev fine : SetupCalls
fine = record { marshalled_functions = ok tt; marshalled_capabilities = ok tt }

abbrev the_configs : List SdkFunction
the_configs = configs one_second same_text scheme_of "app" (a_function ∷ []) connect_placeholder

configured :
    create_function_configs one_second same_text scheme_of "app"
      (a_function ∷ [])
      connect_placeholder
      true
    ≡ some (ok the_configs)
unfolding create_function_configs
configured = refl

keys_set : keys.hashed_signing_key ≢ ""
keys_set e = ground (arith, str_eq_iff "first" "")

set_up-IsServed_example :
    (slugs : Map (List String)) × (l : Loop) × (set_up keys (map registered the_configs) fine
      ≡ some (ok (slugs, l)))
    × (l.auth.hashed_signing_key ≡ "first")
    × All
        (λ fn. IsServed one_second same_text scheme_of slugs (slug same_text fn "app"))
        (a_function ∷ [])
set_up-IsServed_example =
    set_up-IsServed one_second same_text scheme_of keys "app" (a_function ∷ []) connect_placeholder
      true the_configs fine keys_set configured refl refl

-- A runtime whose URL is no text.
broken : set_up keys (record { slug = "fn"; runtimes = (("url", null) ∷ []) ∷ [] } ∷ []) fine ≡ none
unfolding set_up
broken = refl

closed_while_writing :
    process_executor_request (err (wrapped "write" (close_error "gone")))
    ≡ (closed_with "gone" ∷ [], true)
unfolding process_executor_request
closed_while_writing = refl
