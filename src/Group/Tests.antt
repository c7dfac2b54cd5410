-- ===== src/Group/Tests.antt =====
-- The theorem about Parallel, for two steps.
use inngestgo.Prelude.{String, ◌≡◌, refl, false, true, Option, none, [], ◌∷◌, map, pos}
use inngestgo.Json.{Json, null, number}
use inngestgo.Errors.{Error}
use inngestgo.SdkRequest.{Request, new_manager}
use inngestgo.Step.Core.{Ctx, panicked, control_hijack, M, return}
use inngestgo.Execution.Program.{raw_codec}
use inngestgo.Group.{parallel}
use inngestgo.Group.Plans.{IsFirst, branch, all_planned, parallel-branch}

abbrev sha : String → String
sha s = s

abbrev context : Ctx
context = record { done = false; has_manager = true; target_step_id = none; parallel = false }

abbrev request : Request
request = record {
  event = none;
  events = [];
  steps = [];
  call_ctx = record {
    disable_immediate_execution = false;
    env = "";
    function_id = "fn";
    run_id = "r";
    step_id = "step";
    attempt = pos 0;
  };
  use_api = false;
}

abbrev answer : Json → M (Json × Option Error)
answer v = return (v, none)

first : IsFirst (new_manager request)
unfolding new_manager
first = (refl, refl)

parallel-branch_example :
    parallel context
      (map (branch sha raw_codec) (("a", answer null) ∷ ("b", answer (number "1")) ∷ []))
      (new_manager request)
    ≡ (
      panicked control_hijack,
      all_planned sha raw_codec
          (("a", answer null) ∷ ("b", answer (number "1")) ∷ [])
          (new_manager request),
    )
parallel-branch_example =
    parallel-branch sha raw_codec context ("a", answer null) (("b", answer (number "1")) ∷ [])
      (new_manager request) (refl, refl, refl) first
