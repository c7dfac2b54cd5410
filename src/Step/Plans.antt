-- ===== src/Step/Plans.antt =====
-- When step.Run calls the function that it is given.
use inngestgo.Prelude.{String, true, ◌||◌, ◌≡◌, ◌⊎◌, Option, none, arith, is_some}
use inngestgo.Errors.{Error}
use inngestgo.SdkRequest.{Opcode, Manager, UnhashedOp, new_op, must_hash, step_data}
use inngestgo.Step.Core.{Ctx, M, Codec, preflight}
use inngestgo.Step.Run.{run, run_op, run_new, is_other_target, plans}

module _ {ℓ} (sha1_hex : String → String) {T : Type ℓ} (c : Codec T) where
  run_op_idle :
      (ctx : Ctx) (id : String) (f g : M (T × Option Error)) (op : UnhashedOp) (m : Manager)
      → (is_some (step_data sha1_hex op m) ≡ true)
        ⊎ ((is_other_target ctx.target_step_id (must_hash sha1_hex op) ≡ true)
            ⊎ (plans ctx m ≡ true))
      → run_op sha1_hex c ctx id f op m ≡ run_op sha1_hex c ctx id g op m
  unfolding run_op run_new
  run_op_idle ctx id f g op m h = ground arith

  -- step.Run gives the same outcome, whatever function it is given, when the call is cancelled, the
  -- request holds a result for the step, the request is for another step, or the step is to be
  -- planned: the function is not called then.
  pub run_idle :
      (ctx : Ctx) (id : String) (f g : M (T × Option Error)) (m : Manager)
      → let op = (new_op Opcode.step id none m).0 in
        ((ctx.done || m.cancelled) ≡ true)
          ⊎ ((is_some (step_data sha1_hex op m) ≡ true)
              ⊎ ((is_other_target ctx.target_step_id (must_hash sha1_hex op) ≡ true)
                  ⊎ (plans ctx m ≡ true)))
        → run sha1_hex c ctx id f m ≡ run sha1_hex c ctx id g m
  unfolding run preflight new_op run_op run_new step_data plans
  run_idle ctx id f g m h = ground arith
