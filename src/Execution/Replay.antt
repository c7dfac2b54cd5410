-- ===== src/Execution/Replay.antt =====
-- The executor's side of a run, as the SDK's protocol has it: it stores the outcome of the op that
-- an execution reports under the op's id, and calls the function again, until it ends with no op.
-- `direct` is the meaning of a function without the executor: each tool answers at once.
pub mod Paths
pub mod Tools
pub mod Theorem
use inngestgo.Prelude.{
  ℕ, zero, suc, String, Bool, Option, none, some, List, [], ◌∷◌, ℤ, Map, lookup, insert, or_else,
  if◌then◌else◌,
}
use inngestgo.Json.{Json, null, object, end, field}
use inngestgo.Errors.{Error, sentinel, event_not_received}
use inngestgo.SdkRequest.{Opcode, UnhashedOp, GeneratorOpcode, Request, next_pos, must_hash}
use inngestgo.Step.Tools.{is_null}
use inngestgo.Funcs.{Any, ServableFunc}
use inngestgo.Execution.Program.{
  Answer, Program, finish, run_step, sleep_step, wait_step, invoke_step, infer_step,
}
use inngestgo.Execution.{Invoked, finished, crashed}
use inngestgo.Execution

-- { "data": v }
abbrev pub wrapped_data : Json → Json
wrapped_data v = object (field "data" v end)

-- The id's position and the map of positions after one more op with the id.
abbrev pub bump : String → Map ℕ → Map ℕ
bump id ix = insert id (next_pos (lookup id ix)) ix

abbrev pub event_answer : Json → Answer
event_answer v = if is_null v then (null, some (sentinel event_not_received)) else (v, none)

module _ (sha1_hex : String → String) (answers : String → Json) where
  -- The id of the next op for a step id.
  abbrev pub key : String → Map ℕ → String
  key id ix =
      must_hash sha1_hex
        (record { op = Opcode.step; id = id; opts = none; pos = next_pos (lookup id ix) })

  -- What the executor stores for an op: the value of a step that ran, nothing for a sleep, and for
  -- the others what came from outside.
  unfoldable pub stored : GeneratorOpcode → Json
  stored op = elim op.op [
    | Opcode.step_run ↦ wrapped_data (or_else op.value null)
    | Opcode.wait_for_event ↦ answers op.id
    | Opcode.invoke_function ↦ wrapped_data (answers op.id)
    | Opcode.ai_gateway ↦ wrapped_data (answers op.id)
    | _ ↦ null
  ]

  -- The executor's reaction to the end of one execution.
  unfoldable pub advance :
      (Request → Option (Any × Option Error)) → Request → Invoked → Option (Any × Option Error)
  unfolding stored
  advance again req (finished v [] e) = some (v, e)
  advance again req (finished v (op ∷ ops) e) =
      again (record req { steps = insert op.id (stored op) req.steps })
  advance again req crashed = none

  -- `none`: the fuel ran out, or an execution crashed.
  unfoldable pub drive : ℕ → ServableFunc → Request → Option (Any × Option Error)
  unfolding advance
  drive zero sf req = none
  drive (suc fuel) sf req = advance (λ q. drive fuel sf q) req (Execution.invoke sf req none)

  -- The result of a function when every tool answers at once; `none` if a step's function fails.
  unfoldable pub direct : Map ℕ → Program → Option (Any × Option Error)
  direct ix (finish v e) = some (v, e)
  direct ix (run_step id (v, none) k) = direct (bump id ix) (k (v, none))
  direct ix (run_step id (v, some e) k) = none
  direct ix (sleep_step id d p) = direct (bump id ix) p
  direct ix (wait_step id o k) = direct (bump id ix) (k (event_answer (answers (key id ix))))
  direct ix (invoke_step id o k) = direct (bump id ix) (k (answers (key id ix), none))
  direct ix (infer_step id o b k) = direct (bump id ix) (k (answers (key id ix), none))

  -- The ids of the ops on the way, with what the executor stores for each.
  unfoldable pub path : Map ℕ → Program → List (String × Json)
  path ix (finish v e) = []
  path ix (run_step id (v, none) k) = (key id ix, wrapped_data v) ∷ path (bump id ix) (k (v, none))
  path ix (run_step id (v, some e) k) = []
  path ix (sleep_step id d p) = (key id ix, null) ∷ path (bump id ix) p
  path ix (wait_step id o k) =
      (key id ix, answers (key id ix)) ∷ path (bump id ix) (k (event_answer (answers (key id ix))))
  path ix (invoke_step id o k) =
      (key id ix, wrapped_data (answers (key id ix)))
      ∷ path (bump id ix) (k (answers (key id ix), none))
  path ix (infer_step id o b k) =
      (key id ix, wrapped_data (answers (key id ix)))
      ∷ path (bump id ix) (k (answers (key id ix), none))
