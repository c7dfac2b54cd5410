-- ===== src/Execution/Tests.antt =====
-- The theorems about executions, at a function with a step and a sleep. The identity stands for
-- SHA-1.
use inngestgo.Prelude.{
  ◌<◌, String, ◌≡◌, refl, false, none, some, [], ◌∷◌, ℤ, pos, arith, length, lookup, insert,
  str_eq_iff,
}
use inngestgo.Json.{Json, null, number, object, end, field}
use inngestgo.SdkRequest.{Opcode, GeneratorOpcode, Request, must_hash, hash_input, next_pos}
use inngestgo.Funcs.{nil, json, Input, any_event, ServableFunc, cron_trigger}
use inngestgo.Execution.Program.{Program, finish, run_step, sleep_step, exec}
use inngestgo.Execution.OneOp.{AtMostOne, one_op}
use inngestgo.Execution.Replay.{drive, direct, path}
use inngestgo.Execution.Replay.Paths.{Distinct}
use inngestgo.Execution.Replay.Theorem.{Ready, drive-direct}
use inngestgo.Execution.{Invoked, finished, accepts_event, decode_events, input_of}
use inngestgo.Execution

abbrev sha : String → String
sha s = s

abbrev duration_string : ℤ → String
duration_string d = "1m0s"

abbrev answers : String → Json
answers id = null

abbrev programs : Input → Program
programs input =
    run_step "load" (number "1", none) (λ a. sleep_step "pause" (pos 60) (finish (json a.0) a.1))

abbrev function : ServableFunc
function = record {
  fc = record {
    id = "fn";
    name = "fn";
    priority = none;
    concurrency = [];
    idempotency = none;
    retries = none;
    cancel = [];
    debounce = none;
    timeouts = none;
    throttle = none;
    rate_limit = none;
    batch_events = none;
  };
  trigger = cron_trigger "0 0 * * *";
  event_type = any_event;
  f = some (λ ctx input. exec sha duration_string ctx (programs input));
}

abbrev event : Json
event = object (field "name" (number "3") end)

abbrev request : Request
request = record {
  event = some event;
  events = event ∷ [];
  steps = [];
  call_ctx = record {
    disable_immediate_execution = false;
    env = "";
    function_id = "fn";
    run_id = "r";
    step_id = "step";
    attempt = pos 0;
  };
  use_api = false;
}

abbrev reported : GeneratorOpcode
reported = record {
  id = "load";
  op = Opcode.step_run;
  name = "load";
  opts = none;
  value = some (number "1");
  error = none;
}

first_run : Execution.invoke function request none ≡ finished nil (reported ∷ []) none
unfolding Execution.invoke exec inngestgo.Step.Run.run inngestgo.Step.Core.preflight
    inngestgo.SdkRequest.step_data lookup inngestgo.SdkRequest.new_op
    inngestgo.Step.Run.is_other_target inngestgo.Step.Run.plans inngestgo.SdkRequest.cancel
    inngestgo.SdkRequest.append_op
first_run = refl

one_op_example : AtMostOne request nil (reported ∷ [])
one_op_example =
    one_op sha duration_string function programs request none nil (reported ∷ []) none refl
      first_run

ready : Ready function request event
unfolding accepts_event decode_events
ready = (refl, refl, refl, refl)

ids : Distinct (path sha answers [] (programs (input_of request event)))
unfolding path must_hash hash_input lookup insert next_pos
ids = (((λ e. ground (arith, str_eq_iff "load" "pause")), tt), (tt, tt))

result : direct sha answers [] (programs (input_of request event)) ≡ some (json (number "1"), none)
unfolding direct
result = refl

two_ops : length (path sha answers [] (programs (input_of request event))) < 3
unfolding path
two_ops = omega arith

drive-direct_example : drive sha answers 3 function request ≡ some (json (number "1"), none)
drive-direct_example =
    drive-direct sha answers duration_string function programs refl request event
      (json (number "1"), none) 3 ready refl ids result two_ops
