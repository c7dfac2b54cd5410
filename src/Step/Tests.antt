-- ===== src/Step/Tests.antt =====
-- The theorem about step.Run, for a step that is planned.
use inngestgo.Prelude.{String, ◌≡◌, refl, inr, false, true, Option, none, some, [], pos}
use inngestgo.Json.{Json, null, number}
use inngestgo.Errors.{Error, text}
use inngestgo.SdkRequest.{Request, new_manager}
use inngestgo.Step.Core.{Ctx, M, return, Codec}
use inngestgo.Step.Run.{run, plans}
use inngestgo.Step.Plans.{run_idle}

abbrev sha : String → String
sha s = s

abbrev json_codec : Codec Json
json_codec = record { zero_value = null; unmarshal = λ v. (v, none); marshal = λ v. some v }

abbrev context : Ctx
context = record { done = false; has_manager = true; target_step_id = none; parallel = true }

abbrev request : Request
request = record {
  event = none;
  events = [];
  steps = [];
  call_ctx = record {
    disable_immediate_execution = false;
    env = "";
    function_id = "fn";
    run_id = "r";
    step_id = "step";
    attempt = pos 0;
  };
  use_api = false;
}

abbrev works : M (Json × Option Error)
works = return (number "1", none)

abbrev fails : M (Json × Option Error)
fails = return (null, some (text "down"))

planned : plans context (new_manager request) ≡ true
unfolding plans
planned = refl

run_idle_example :
    run sha json_codec context "a" works (new_manager request)
    ≡ run sha json_codec context "a" fails (new_manager request)
run_idle_example =
    run_idle sha json_codec context "a" works fails (new_manager request) (inr (inr (inr planned)))
