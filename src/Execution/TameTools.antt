-- ===== src/Execution/TameTools.antt =====
-- The other tools of the package step do no more to the manager than Tame allows.
use inngestgo.Prelude.{String, refl, inl, inr, Option, none, some, ℤ, Option-cases, Bool-cases}
use inngestgo.Json.{Json, null, object}
use inngestgo.SdkRequest.{Opcode, UnhashedOp, Manager, set_err, append_op, new_op, step_data}
use inngestgo.Step.Core.{Ctx, M, continue, ◌>>=◌, preflight, fail, Codec}
use inngestgo.Step.Run.{Response, StepErrorFields, unmarshal_response, unmarshal_step_error}
use inngestgo.Step.Tools.{
  WaitForEventOpts, InvokeOpts, take_op, sleep_op, sleep, is_null, stored_event, wait_op,
  wait_for_event, invoke_error, invoke_value, invoke_fields, stored_invoke, invoke_op, invoke,
}
use inngestgo.Step.Infer.{InferRequestOpts, infer_error, infer_stored, infer_new, infer_op, infer}
use inngestgo.Execution.Tame.{IsTame, IsTame-Same, preflight_then, or_fail_then, new_op-Same}

-- The frame of a tool: preflight, a new op, and the tool's work with it.
tool_then {ℓ} :
    {A : Type ℓ} (ctx : Ctx) (op : Opcode) (id : String) (o : Option Json) (f : UnhashedOp → M A)
    (m : Manager)
    → ((u : UnhashedOp) (n : Manager) → IsTame n (f u n))
    → IsTame m (continue (preflight ctx m) (λ _. take_op op id o >>= f))
tool_then ctx op id o f m k = preflight_then ctx m _ (
    IsTame-Same m (new_op op id o m).1 _ (new_op-Same op id o m)
      (k (new_op op id o m).0 (new_op op id o m).1))

module _ (sha1_hex : String → String) (duration_string : ℤ → String) where
  sleep_op-IsTame :
      (id : String) (d : ℤ) (op : UnhashedOp) (m : Manager)
      → IsTame m (sleep_op sha1_hex duration_string id d op m)
  unfolding sleep_op step_data append_op
  sleep_op-IsTame id d op m = elim (Option-cases (step_data sha1_hex op m)) [
    | inl e ↦ rw (e, sleep_op) (inr (_, refl, refl, e))
    | inr (v, e) ↦ rw (e, sleep_op) (refl, refl)
  ]

  pub sleep-IsTame :
      (ctx : Ctx) (id : String) (d : ℤ) (m : Manager)
      → IsTame m (sleep sha1_hex duration_string ctx id d m)
  unfolding sleep
  sleep-IsTame ctx id d m = tool_then ctx Opcode.sleep id none _ m (sleep_op-IsTame id d)

  module _ (c : Codec Json) where
    stored_event-IsTame :
        (event : String) (v : Json) (m : Manager)
        → IsTame m (stored_event sha1_hex duration_string c event v m)
    unfolding stored_event
    stored_event-IsTame event v m = elim (Bool-cases (is_null v)) [
      | inl e ↦ rw (e, stored_event) (refl, refl)
      | inr e ↦ rw (e, stored_event) (or_fail_then c m _ (c.unmarshal v) none)
    ]

    wait_op-IsTame :
        (name : String) (o : WaitForEventOpts) (op : UnhashedOp) (m : Manager)
        → IsTame m (wait_op sha1_hex duration_string c name o op m)
    unfolding wait_op step_data append_op
    wait_op-IsTame name o op m = elim (Option-cases (step_data sha1_hex op m)) [
      | inl e ↦ rw (e, wait_op) (inr (_, refl, refl, e))
      | inr (v, e) ↦ rw (e, wait_op) (stored_event-IsTame o.event v m)
    ]

    pub wait_for_event-IsTame :
        (ctx : Ctx) (id : String) (o : WaitForEventOpts) (m : Manager)
        → IsTame m (wait_for_event sha1_hex duration_string c ctx id o m)
    unfolding wait_for_event
    wait_for_event-IsTame ctx id o m =
        tool_then ctx Opcode.wait_for_event id _ _ m (wait_op-IsTame _ o)

    invoke_error-IsTame :
        (fn : String) (e : Option String) (m : Manager)
        → IsTame m (invoke_error sha1_hex duration_string c fn e m)
    unfolding invoke_error fail set_err
    invoke_error-IsTame fn none m = inl refl
    invoke_error-IsTame fn (some e) m = (refl, refl)

    invoke_fields-IsTame :
        (fn : String) (v e : Option Json) (m : Manager)
        → IsTame m (invoke_fields sha1_hex duration_string c fn v e m)
    unfolding invoke_fields invoke_value fail set_err
    invoke_fields-IsTame fn (some v) e m = or_fail_then c m _ (c.unmarshal v) none
    invoke_fields-IsTame fn none (some e) m = invoke_error-IsTame fn _ m
    invoke_fields-IsTame fn none none m = inl refl

    stored_invoke-IsTame :
        (fn : String) (v : Json) (m : Manager)
        → IsTame m (stored_invoke sha1_hex duration_string c fn v m)
    unfolding stored_invoke fail set_err
    stored_invoke-IsTame fn null m = invoke_fields-IsTame fn none none m
    stored_invoke-IsTame fn (object fs) m = invoke_fields-IsTame fn _ _ m
    stored_invoke-IsTame fn _ m = inl refl

    invoke_op-IsTame :
        (id : String) (o : InvokeOpts) (op : UnhashedOp) (m : Manager)
        → IsTame m (invoke_op sha1_hex duration_string c id o op m)
    unfolding invoke_op step_data append_op
    invoke_op-IsTame id o op m = elim (Option-cases (step_data sha1_hex op m)) [
      | inl e ↦ rw (e, invoke_op) (inr (_, refl, refl, e))
      | inr (v, e) ↦ rw (e, invoke_op) (stored_invoke-IsTame o.function_id v m)
    ]

    pub invoke-IsTame :
        (ctx : Ctx) (id : String) (o : InvokeOpts) (m : Manager)
        → IsTame m (invoke sha1_hex duration_string c ctx id o m)
    unfolding invoke
    invoke-IsTame ctx id o m = tool_then ctx Opcode.invoke_function id _ _ m (invoke_op-IsTame id o)

module _ (sha1_hex : String → String) (c : Codec Json) where
  infer_error-IsTame :
      (id : String) (e : Option StepErrorFields) (m : Manager)
      → IsTame m (infer_error sha1_hex c id e m)
  unfolding infer_error fail set_err
  infer_error-IsTame id none m = inl refl
  infer_error-IsTame id (some e) m = (refl, refl)

  infer_stored-IsTame :
      (id : String) (v : Json) (r : Option Response) (m : Manager)
      → IsTame m (infer_stored sha1_hex c id v r m)
  unfolding infer_stored
  infer_stored-IsTame id v none m = (refl, refl)
  infer_stored-IsTame id v (some r) m = elim (Option-cases r.error) [
    | inl e ↦ rw (e, infer_stored) (refl, refl)
    | inr (j, e) ↦ rw (e, infer_stored) (infer_error-IsTame id (unmarshal_step_error j) m)
  ]

  infer_op-IsTame :
      (id : String) (o : InferRequestOpts) (b : Json) (op : UnhashedOp) (m : Manager)
      → IsTame m (infer_op sha1_hex c id o (some b) op m)
  unfolding infer_op infer_new step_data append_op
  infer_op-IsTame id o b op m = elim (Option-cases (step_data sha1_hex op m)) [
    | inl e ↦ rw (e, infer_op) (inr (_, refl, refl, e))
    | inr (v, e) ↦ rw (e, infer_op) (infer_stored-IsTame id v (unmarshal_response v) m)
  ]

  pub infer-IsTame :
      (ctx : Ctx) (id : String) (o : InferRequestOpts) (b : Json) (m : Manager)
      → IsTame m (infer sha1_hex c ctx id o (some b) m)
  unfolding infer
  infer-IsTame ctx id o b m = tool_then ctx Opcode.ai_gateway id none _ m (infer_op-IsTame id o b)
