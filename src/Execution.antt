-- ===== src/Execution.antt =====
-- handler.go, the function `invoke`: one execution of a function for one request.
pub mod Program
pub mod Verdict
pub mod Tame
pub mod TameTools
pub mod OneOp
pub mod Replay
mod Tests
use Prim.Native.String.{◌++◌ as str_append}
use inngestgo.Prelude.{
  ℕ, String, Bool, true, false, Option, none, some, List, [], ◌∷◌, if◌then◌else◌,
}
use inngestgo.Json.{Json, null, bool, number, string, array, object}
use inngestgo.Errors.{Error, text, wrapped, formatted, sentinel, not_in_function}
use inngestgo.SdkRequest.{GeneratorOpcode, Request, Manager, new_manager}
use inngestgo.Step.Core.{
  Ctx, Panic, control_hijack, err_not_in_function, other, Outcome, returned, panicked, M,
  set_target_step_id, unexpected_end,
}
use inngestgo.Funcs.{
  Any, nil, Input, EventType, any_event, interface_event, concrete_event, ServableFunc,
}

-- What invoke returns, or `crashed` where it panics itself.
pub data Invoked : Type 0 where
  finished : Any → List GeneratorOpcode → Option Error → Invoked
  crashed : Invoked

-- The decoding of the events of a request: all are accepted, one is refused, or one makes the
-- code panic.
pub data Decoded : Type 0 where
  accepted : Decoded
  refused : Decoded
  panics : Decoded

-- json.Unmarshal into a map[string]any.
unfoldable pub is_map : Json → Bool
is_map null = true
is_map (object fs) = true
is_map (bool b) = false
is_map (number n) = false
is_map (string s) = false
is_map (array xs) = false

-- One event of the list into `&newEvent`, an interface that holds a pointer: null clears the
-- interface, and reflect.ValueOf(nil).Elem() panics.
unfoldable pub decode_into_interface : (Json → Bool) → Json → Decoded
decode_into_interface accepts null = panics
decode_into_interface accepts v = if accepts v then accepted else refused

unfoldable pub decode_typed : (Json → Bool) → List Json → Decoded
unfolding decode_into_interface
decode_typed accepts [] = accepted
decode_typed accepts (v ∷ vs) =
    let rest = decode_typed accepts vs in
    elim (decode_into_interface accepts v) [ accepted ↦ rest | refused ↦ refused | panics ↦ panics ]

unfoldable pub decode_untyped : List Json → Decoded
decode_untyped [] = accepted
decode_untyped (v ∷ vs) = let rest = decode_untyped vs in if is_map v then rest else refused

unfoldable pub decode_events : EventType → List Json → Decoded
unfolding decode_typed decode_untyped
decode_events any_event vs = decode_untyped vs
decode_events interface_event vs = decode_untyped vs
decode_events (concrete_event accepts) vs = decode_typed accepts vs

unfoldable pub accepts_event : EventType → Json → Bool
unfolding is_map
accepts_event any_event v = is_map v
accepts_event interface_event v = is_map v
accepts_event (concrete_event accepts) v = accepts v

abbrev pub input_of : Request → Json → Input
input_of req event = record {
  event = event;
  events = req.events;
  input_ctx = record {
    env = req.call_ctx.env;
    function_id = req.call_ctx.function_id;
    run_id = req.call_ctx.run_id;
    step_id = req.call_ctx.step_id;
    attempt = req.call_ctx.attempt;
  };
}

-- The context that the function is called with.
unfoldable pub call_context : Option String → Ctx
call_context none = record {
  done = false;
  has_manager = true;
  target_step_id = none;
  parallel = false;
}
call_context (some id) =
    set_target_step_id
      (record { done = false; has_manager = true; target_step_id = none; parallel = false }) id

-- The error of a panic that the function ends with; a hijack is none.
unfoldable pub panic_error : Outcome (Any × Option Error) → Option Error
panic_error (returned r) = none
panic_error (panicked control_hijack) = none
panic_error (panicked err_not_in_function) =
    some (formatted "function panicked" (sentinel not_in_function))
panic_error (panicked (other s)) = some (text (str_append "function panicked: " s))

abbrev pub returned_error : Outcome (Any × Option Error) → Option Error
returned_error (returned r) = r.1
returned_error (panicked p) = none

abbrev pub response_of : Outcome (Any × Option Error) → Any
response_of (returned r) = r.0
response_of (panicked p) = nil

-- A panic goes before the manager's error, and that before a returned error.
abbrev pub first_error : Option Error → Option Error → Option Error
first_error none e = e
first_error (some d) e = some d

unfoldable pub collect : Outcome (Any × Option Error) × Manager → Invoked
unfolding panic_error
collect (o, m) =
    finished (response_of o) m.ops
      (first_error (panic_error o) (first_error m.err (returned_error o)))

unfoldable pub call_with :
    (Ctx → Input → M (Any × Option Error)) → EventType → Request → Option String → Json → Invoked
unfolding collect call_context decode_events accepts_event
call_with f t req step_id event =
    if accepts_event t event
    then (elim (decode_events t req.events) [
      | accepted ↦ collect (f (call_context step_id) (input_of req event) (new_manager req))
      | refused ↦
          finished nil [] (
            some
              (wrapped "error unmarshalling event in event list" (text "json: cannot unmarshal")))
      | panics ↦ crashed
    ])
    else finished nil []
        (some (wrapped "error unmarshalling event for function" (text "json: cannot unmarshal")))

unfoldable pub call_function :
    (Ctx → Input → M (Any × Option Error))
    → EventType
    → Request
    → Option String
    → Option Json
    → Invoked
unfolding call_with
call_function f t req step_id none =
    finished nil [] (some (wrapped "error unmarshalling event for function" unexpected_end))
call_function f t req step_id (some event) = call_with f t req step_id event

unfoldable pub invoke : ServableFunc → Request → Option String → Invoked
unfolding call_function new_manager set_target_step_id
invoke sf req step_id = elim sf.f [
  | none ↦ finished nil [] (some (text "no function defined"))
  | some f ↦ call_function f sf.event_type req step_id req.event
]
