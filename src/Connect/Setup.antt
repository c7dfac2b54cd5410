-- ===== src/Connect/Setup.antt =====
-- connect/handler.go: Connect of the package and the beginning of connectHandler.Connect, before
-- its run loop; and processExecutorRequest, with which the workers of the pool handle a message.
pub mod Served
mod Tests
use inngestgo.Prelude.{
  ℕ, ◌+◌, String, Bool, true, false, Option, none, some, List, [], ◌∷◌, ◌++◌, map, Map, lookup,
  insert, if◌then◌else◌,
}
use inngestgo.Json.{Json, null, bool, number, string, array, object}
use inngestgo.Errors.{Error, text, sentinel, wrapped, io_eof, any_link, close_reason}
use inngestgo.Results.{Result, ok, err, plain, ◌>>=◌, ◌>>◌}
use inngestgo.Handler.Configs.{SdkFunction}
use inngestgo.Connect.RunLoop.Defs.{Keys, Loop, connecting, start}
use inngestgo.Connect.Lifetime.{WorkerState, First, await_first}

-- sdk.SDKFunction, by its slug and the runtimes of its steps, in the order of a map's iteration.
pub record Registered : Type 0 where
  pub slug : String
  pub runtimes : List (Map Json)

-- A configuration that createFunctionConfigs makes has one step, whose runtime has its URL.
unfoldable pub registered : SdkFunction → Registered
registered c = record { slug = c.slug; runtimes = (("url", string c.step.url) ∷ []) ∷ [] }

-- `x.(string)`; `none` is a panic, as for a missing key.
unfoldable pub as_text : Option Json → Option String
as_text (some (string s)) = some s
as_text _ = none

abbrev push : Option String → Option (List String) → Option (List String)
push (some s) (some ss) = some (s ∷ ss)
push _ _ = none

unfoldable pub step_urls : List (Map Json) → Option (List String)
unfolding as_text lookup
step_urls [] = some []
step_urls (runtime ∷ runtimes) = push (as_text (lookup "url" runtime)) (step_urls runtimes)

-- The loop that fills functionSlugs, a map.
unfoldable pub function_slugs : List Registered → Map (List String) → Option (Map (List String))
unfolding step_urls
function_slugs [] slugs = some slugs
function_slugs (f ∷ fs) slugs = elim (step_urls f.runtimes) [
  | none ↦ none
  | some urls ↦ function_slugs fs (insert f.slug urls slugs)
]

-- The marshalling of the functions and the capabilities, with its outcomes.
pub record SetupCalls : Type 0 where
  pub marshalled_functions : Result (Unit {0})
  pub marshalled_capabilities : Result (Unit {0})

abbrev serialized : SetupCalls → Result (Unit {0})
serialized c =
    plain "failed to serialize connect config" c.marshalled_functions
    >> plain "failed to serialize connect config" c.marshalled_capabilities

-- What connectHandler.Connect makes for its log and its run loop; `none` is a panic.
unfoldable pub set_up :
    Keys → List Registered → SetupCalls → Option (Result (Map (List String) × Loop))
unfolding start function_slugs
set_up keys fs c = elim (start keys) [
  | none ↦ some (err (text "hashed signing key is required"))
  | some l ↦ elim (function_slugs fs []) [
    | none ↦ none
    | some slugs ↦ some (serialized c >> ok (slugs, l))
  ]
]

abbrev pub new_state : WorkerState
new_state = record { is_closed = false; set_up = true; cancelled = false; state = connecting }

-- Connect of the package; `first` is what it waits for once the run loop is started.
unfoldable pub connect_worker :
    Keys → List Registered → SetupCalls → (first : First) → Option (Result (Unit {0}) × WorkerState)
unfolding set_up await_first
connect_worker keys fs c first = elim (set_up keys fs c) [
  | none ↦ none
  | some (err e) ↦ some (err (wrapped "could not establish connection" e), new_state)
  | some (ok (slugs, l)) ↦
      let (r, w) = await_first first new_state in some (plain "could not establish connection" r, w)
]

-- What processExecutorRequest logs of the error of handleInvokeMessage.
pub data Logged : Type 0 where
  closed_with : (reason : String) → Logged
  closed_unexpectedly : Logged

abbrev is_eof : Error → Bool
is_eof (sentinel io_eof) = true
is_eof _ = false

-- With whether the pool's Done is called, which is deferred.
unfoldable pub process_executor_request : Result (Unit {0}) → List Logged × Bool
unfolding close_reason any_link
process_executor_request (ok t) = ([], true)
process_executor_request (err e) = elim (close_reason e) [
  | some reason ↦ (closed_with reason ∷ [], true)
  | none ↦ (if any_link is_eof e then closed_unexpectedly ∷ [] else [], true)
]
