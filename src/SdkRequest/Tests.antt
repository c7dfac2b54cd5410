-- ===== src/SdkRequest/Tests.antt =====
-- The theorem about positions, for three ops with two ids.
use inngestgo.Prelude.{◌≡◌, false, none, [], ◌∷◌, List, pos}
use inngestgo.SdkRequest.{Opcode, Request, new_manager, new_op}
use inngestgo.SdkRequest.Positions.{Call, after, uses, new_op-pos}

abbrev request : Request
request = record {
  event = none;
  events = [];
  steps = [];
  call_ctx = record {
    disable_immediate_execution = false;
    env = "";
    function_id = "fn";
    run_id = "r";
    step_id = "step";
    attempt = pos 0;
  };
  use_api = false;
}

abbrev calls : List Call
calls = (Opcode.step, "a", none) ∷ (Opcode.sleep, "b", none) ∷ (Opcode.sleep, "a", none) ∷ []

new_op-pos_example :
    ((new_op Opcode.step "a" none (after calls (new_manager request))).0).pos ≡ uses "a" calls
new_op-pos_example = new_op-pos request calls Opcode.step "a" none
