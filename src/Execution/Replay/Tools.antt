-- ===== src/Execution/Replay/Tools.antt =====
-- Each tool in an execution of a replay: with the right outcome stored it answers as the direct
-- meaning does, and with none stored it reports the op that gets that outcome.
use inngestgo.Prelude.{
  ℕ, String, false, ◌≡◌, refl, none, some, [], ◌∷◌, ℤ, Map, lookup, insert, Bool-cases, inl, inr,
}
use inngestgo.Json.{Json, null, struct_field, map_field}
use inngestgo.SdkRequest.{
  GeneratorOpcode, Request, Manager, new_op, must_hash, step_data, append_op, cancel,
}
use inngestgo.Step.Core.{control_hijack, Outcome, returned, panicked, return, preflight}
use inngestgo.Step.Run.{
  run, run_op, run_new, report, stored_result, stored_value, or_fail, unmarshal_response, plans,
  is_other_target, step_run_op,
}
use inngestgo.Step.Tools.{
  WaitForEventOpts, InvokeOpts, is_null, sleep, sleep_op, wait_for_event, wait_op, stored_event,
  invoke, invoke_op, stored_invoke, invoke_fields, invoke_value,
}
use inngestgo.Step.Infer.{InferRequestOpts, infer, infer_op, infer_stored, infer_new}
use inngestgo.Execution.Program.{raw_codec}
use inngestgo.Execution.{call_context}
use inngestgo.Execution.Replay.{key, bump, wrapped_data, event_answer, stored}

-- The manager of an execution that has not reported an op.
abbrev pub at : Request → Map ℕ → Manager
at req ix = record { cancelled = false; err = none; ops = []; request = req; indexes = ix }

-- The tool ended the execution with one op, whose outcome is `j` under the id `h`.
pub record Reported {ℓ} (sha1_hex : String → String) (answers : String → Json) {A : Type ℓ}
    (h : String) (j : Json) (r : Outcome A × Manager) : Type ℓ where
  pub op : GeneratorOpcode
  pub hijack : r.0 ≡ panicked control_hijack
  pub reported : r.1.ops ≡ op ∷ []
  pub no_error : r.1.err ≡ none
  pub id : op.id ≡ h
  pub outcome : stored sha1_hex answers op ≡ j

module _ (sha1_hex : String → String) (answers : String → Json) (req : Request)
    (immediate : req.call_ctx.disable_immediate_execution ≡ false) (ix : Map ℕ) (id : String) where
  pub run_stored :
      (v w : Json)
      → lookup (key sha1_hex answers id ix) req.steps ≡ some (wrapped_data v)
      → run sha1_hex raw_codec (call_context none) id (return (w, none)) (at req ix)
        ≡ (returned (v, none), at req (bump id ix))
  unfolding insert lookup run preflight call_context new_op run_op step_data must_hash stored_result
      unmarshal_response struct_field or_fail stored_value
  run_stored v w e = rw e refl

  pub run_reports :
      (w : Json)
      → lookup (key sha1_hex answers id ix) req.steps ≡ none
      → Reported sha1_hex answers
          (key sha1_hex answers id ix)
          (wrapped_data w)
          (run sha1_hex raw_codec (call_context none) id (return (w, none)) (at req ix))
  unfolding lookup run preflight call_context new_op run_op step_data must_hash run_new plans
      is_other_target report append_op cancel stored
  run_reports w e =
      rw (e, immediate)
        (record {
          op = step_run_op _ id (some w);
          hijack = refl;
          reported = refl;
          no_error = refl;
          id = refl;
          outcome = refl;
        })

module _ (sha1_hex : String → String) (duration_string : ℤ → String) (answers : String → Json)
    (req : Request) (ix : Map ℕ) (id : String) where
  pub sleep_stored :
      (d : ℤ) (j : Json)
      → lookup (key sha1_hex answers id ix) req.steps ≡ some j
      → sleep sha1_hex duration_string (call_context none) id d (at req ix)
        ≡ (returned tt, at req (bump id ix))
  unfolding insert lookup sleep preflight call_context new_op sleep_op step_data must_hash
  sleep_stored d j e = rw e refl

  pub sleep_reports :
      (d : ℤ)
      → lookup (key sha1_hex answers id ix) req.steps ≡ none
      → Reported sha1_hex answers
          (key sha1_hex answers id ix)
          null
          (sleep sha1_hex duration_string (call_context none) id d (at req ix))
  unfolding lookup sleep preflight call_context new_op sleep_op step_data must_hash append_op stored
  sleep_reports d e = rw e (record {
    op = _;
    hijack = refl;
    reported = refl;
    no_error = refl;
    id = refl;
    outcome = refl;
  })

  pub wait_stored :
      (o : WaitForEventOpts)
      → lookup (key sha1_hex answers id ix) req.steps ≡ some (answers (key sha1_hex answers id ix))
      → wait_for_event sha1_hex duration_string raw_codec (call_context none) id o (at req ix)
        ≡ (returned (event_answer (answers (key sha1_hex answers id ix))), at req (bump id ix))
  unfolding insert lookup wait_for_event preflight call_context new_op wait_op step_data must_hash
      stored_event or_fail
  wait_stored o e = elim (Bool-cases (is_null (answers (key sha1_hex answers id ix)))) [
    | inl n ↦ rw e (rw n refl)
    | inr n ↦ rw e (rw n refl)
  ]

  pub wait_reports :
      (o : WaitForEventOpts)
      → lookup (key sha1_hex answers id ix) req.steps ≡ none
      → Reported sha1_hex answers
          (key sha1_hex answers id ix)
          (answers (key sha1_hex answers id ix))
          (wait_for_event sha1_hex duration_string raw_codec (call_context none) id o (at req ix))
  unfolding lookup wait_for_event preflight call_context new_op wait_op step_data must_hash
      append_op stored
  wait_reports o e = rw e (record {
    op = _;
    hijack = refl;
    reported = refl;
    no_error = refl;
    id = refl;
    outcome = refl;
  })

  pub invoke_stored :
      (o : InvokeOpts) (v : Json)
      → lookup (key sha1_hex answers id ix) req.steps ≡ some (wrapped_data v)
      → invoke sha1_hex duration_string raw_codec (call_context none) id o (at req ix)
        ≡ (returned (v, none), at req (bump id ix))
  unfolding insert lookup invoke preflight call_context new_op invoke_op step_data must_hash
      stored_invoke invoke_fields invoke_value map_field or_fail
  invoke_stored o v e = rw e refl

  pub invoke_reports :
      (o : InvokeOpts)
      → lookup (key sha1_hex answers id ix) req.steps ≡ none
      → Reported sha1_hex answers
          (key sha1_hex answers id ix)
          (wrapped_data (answers (key sha1_hex answers id ix)))
          (invoke sha1_hex duration_string raw_codec (call_context none) id o (at req ix))
  unfolding lookup invoke preflight call_context new_op invoke_op step_data must_hash append_op
      stored
  invoke_reports o e = rw e (record {
    op = _;
    hijack = refl;
    reported = refl;
    no_error = refl;
    id = refl;
    outcome = refl;
  })

  pub infer_stored_answer :
      (o : InferRequestOpts) (b v : Json)
      → lookup (key sha1_hex answers id ix) req.steps ≡ some (wrapped_data v)
      → infer sha1_hex raw_codec (call_context none) id o (some b) (at req ix)
        ≡ (returned (v, none), at req (bump id ix))
  unfolding insert lookup infer preflight call_context new_op infer_op step_data must_hash
      infer_stored unmarshal_response struct_field
  infer_stored_answer o b v e = rw e refl

  pub infer_reports :
      (o : InferRequestOpts) (b : Json)
      → lookup (key sha1_hex answers id ix) req.steps ≡ none
      → Reported sha1_hex answers
          (key sha1_hex answers id ix)
          (wrapped_data (answers (key sha1_hex answers id ix)))
          (infer sha1_hex raw_codec (call_context none) id o (some b) (at req ix))
  unfolding lookup infer preflight call_context new_op infer_op infer_new step_data must_hash
      append_op stored
  infer_reports o b e = rw e (record {
    op = _;
    hijack = refl;
    reported = refl;
    no_error = refl;
    id = refl;
    outcome = refl;
  })
