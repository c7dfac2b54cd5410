-- ===== src/Group/Plans.antt =====
-- Steps under Parallel, in the first execution of a function.

use inngestgo.Prelude.{
  String, true, false, ◌≡◌, refl, ◌∙◌, ap, Option, none, List, [], ◌∷◌, map, arith, lookup,
}
use inngestgo.Errors.{Error}
use inngestgo.SdkRequest.{Opcode, Manager, new_op, append_op, must_hash, step_data}
use inngestgo.Step.Core.{Ctx, panicked, control_hijack, M, Codec, preflight}
use inngestgo.Step.Run.{run, run_op, run_new, is_other_target, plans, planned_op}
use inngestgo.Group.{Progress, note, run_all, conclude, parallel}

-- A context in which tools run, and that is for no single step.
abbrev pub IsOpen : Ctx → Type 0
IsOpen ctx = (ctx.done ≡ false) × (ctx.has_manager ≡ true) × (ctx.target_step_id ≡ none)

-- A manager in which nothing has happened but new ops, for a request with no stored results.
abbrev pub IsFirst : Manager → Type 0
IsFirst m = (m.cancelled ≡ false) × (m.request.steps ≡ [])

module _ {ℓ} (sha1_hex : String → String) {T : Type ℓ} (c : Codec T) where
  -- A function that calls one step.
  abbrev pub branch : String × M (T × Option Error) → Ctx → M (T × Option Error)
  branch s ctx = run sha1_hex c ctx s.0 s.1

  -- The manager after a step was planned.
  abbrev pub planned : String → Manager → Manager
  planned id m =
      let r = new_op Opcode.step id none m in append_op (planned_op (must_hash sha1_hex r.0) id) r.1

  abbrev pub all_planned : List (String × M (T × Option Error)) → Manager → Manager
  all_planned [] m = m
  all_planned (s ∷ ss) m = all_planned ss (planned s.0 m)

  branch_lem :
      (ctx : Ctx) (s : String × M (T × Option Error)) (m : Manager)
      → IsOpen ctx
      → ctx.parallel ≡ true
      → IsFirst m
      → branch s ctx m ≡ (panicked control_hijack, planned s.0 m)
  unfolding run preflight new_op run_op run_new step_data plans is_other_target append_op must_hash
      lookup
  branch_lem ctx s m (a, b, t) p (x, e) = ground arith

  -- `isPlanned` after the branches.
  abbrev marked : List (String × M (T × Option Error)) → Progress T → Progress T
  marked [] p = p
  marked (s ∷ ss) p = record p { is_planned = true }

  marked-true :
      (ss : List (String × M (T × Option Error))) (p : Progress T)
      → marked ss (record p { is_planned = true }) ≡ record p { is_planned = true }
  marked-true [] p = refl
  marked-true (s ∷ ss) p = refl

  run_all-branch :
      (ctx : Ctx) (ss : List (String × M (T × Option Error))) (p : Progress T) (m : Manager)
      → IsOpen ctx
      → ctx.parallel ≡ true
      → IsFirst m
      → run_all ctx (map branch ss) p m ≡ (marked ss p, all_planned ss m)
  unfolding run_all note new_op append_op
  run_all-branch ctx [] p m o e i = refl
  run_all-branch ctx (s ∷ ss) p m o e i =
      ap (λ r. run_all ctx (map branch ss) (note p r.0) r.1) (branch_lem ctx s m o e i)
      ∙ run_all-branch ctx ss (record p { is_planned = true }) (planned s.0 m) o e i
      ∙ ap (λ q. (q, all_planned ss (planned s.0 m))) (marked-true ss p)

  -- In the first execution, Parallel of functions that each call one step plans all these steps, in
  -- their order and each with its own op, calls none of the steps' functions, and ends the call.
  pub parallel-branch :
      (ctx : Ctx) (s : String × M (T × Option Error)) (ss : List (String × M (T × Option Error)))
      (m : Manager)
      → IsOpen ctx
      → IsFirst m
      → parallel ctx (map branch (s ∷ ss)) m ≡ (panicked control_hijack, all_planned (s ∷ ss) m)
  unfolding parallel conclude
  parallel-branch ctx s ss m o i =
      rw (run_all-branch (record ctx { parallel = true }) (s ∷ ss) _ m o refl i) refl
