-- ===== src/Step/Run.antt =====
-- step/run.go: step.Run, and the decoding of the stored result of a step, which step/infer.go
-- repeats.
use Prim.Native.String.{◌++◌ as str_append}
use inngestgo.Prelude.{
  String, Bool, true, false, ◌||◌, Option, none, some, str_eq, if◌then◌else◌, or_else, is_some,
}
use inngestgo.Json.{Json, null, bool, number, string, array, object, struct_field, as_string}
use inngestgo.Errors.{Error, text, wrapped, formatted, is_step_error}
use inngestgo.Errors
use inngestgo.SdkRequest.{
  Opcode, GeneratorOpcode, UnhashedOp, Manager, cancel, set_err, append_op, new_op, must_hash,
  step_data,
}
use inngestgo.Step.Core.{
  Ctx, control_hijack, returned, panicked, M, ◌>>=◌, ◌>>◌, return, panic, modify, deferring, fail,
  preflight, Codec, unexpected_end,
}

-- The struct `response`.
pub record Response : Type 0 where
  pub value : Option Json
  pub error : Option Json

-- json.Unmarshal of stored data into `response`: `none` if the data is no object and not null.
unfoldable pub unmarshal_response : Json → Option Response
unmarshal_response null = some (record { value = none; error = none })
unmarshal_response (object fs) =
    some (record { value = struct_field "data" fs; error = struct_field "error" fs })
unmarshal_response (bool b) = none
unmarshal_response (number n) = none
unmarshal_response (string s) = none
unmarshal_response (array xs) = none

pub record StepErrorFields : Type 0 where
  pub name : String
  pub message : String
  pub value : Option Json

unfoldable pub step_error_fields :
    Option String → Option String → Option Json → Option StepErrorFields
step_error_fields none m v = none
step_error_fields (some n) none v = none
step_error_fields (some n) (some m) v = some (record { name = n; message = m; value = v })

-- json.Unmarshal into errors.StepError.
unfoldable pub unmarshal_step_error : Json → Option StepErrorFields
unfolding step_error_fields
unmarshal_step_error null = some (record { name = ""; message = ""; value = none })
unmarshal_step_error (object fs) =
    step_error_fields (as_string (struct_field "name" fs)) (as_string (struct_field "message" fs))
      (struct_field "data" fs)
unmarshal_step_error (bool b) = none
unmarshal_step_error (number n) = none
unmarshal_step_error (string s) = none
unmarshal_step_error (array xs) = none

abbrev pub to_error : StepErrorFields → Error
to_error e = Errors.step_error e.name e.message e.value

-- json.Unmarshal of a RawMessage that may be empty.
unfoldable pub unmarshal_raw {ℓ} : {T : Type ℓ} → Codec T → Option Json → T × Option Error
unmarshal_raw c none = (c.zero_value, some unexpected_end)
unmarshal_raw c (some v) = c.unmarshal v

-- `if err := json.Unmarshal(…, v); err != nil { SetErr; panic }`
unfoldable pub or_fail {ℓ} : {T : Type ℓ} → String → T × Option Error → M T
unfolding fail
or_fail what (t, none) = return t
or_fail what (t, some e) = fail (wrapped what e)

abbrev pub bad_error_text : String → String
bad_error_text id = str_append "error unmarshalling error for step " id

abbrev pub bad_state_text : String → String
bad_state_text id = str_append "error unmarshalling state for step " id

module _ {ℓ} {T : Type ℓ} (c : Codec T) (id : String) where
  -- A stored error: a StepError for the caller, with the value that came with it.
  unfoldable pub stored_error : Option StepErrorFields → M (T × Option Error)
  unfolding fail or_fail unmarshal_raw
  stored_error none = fail (wrapped (bad_error_text id) (text "json: cannot unmarshal"))
  stored_error (some e) = do
    t ← or_fail (bad_state_text id) (unmarshal_raw c e.value)
    return (t, some (to_error e))

  unfoldable pub stored_value : Json → M (T × Option Error)
  unfolding or_fail
  stored_value v = do t ← or_fail (bad_state_text id) (c.unmarshal v); return (t, none)

  -- The branch of Run in which the step already ran.
  unfoldable pub stored_result : Json → Option Response → M (T × Option Error)
  unfolding stored_error stored_value
  stored_result v none = stored_value v
  stored_result v (some r) = elim r.error [
    | none ↦ stored_value (or_else r.value v)
    | some e ↦ stored_error (unmarshal_step_error e)
  ]

-- `targetID != nil && *targetID != hashedID`
unfoldable pub is_other_target : Option String → String → Bool
is_other_target none hashed = false
is_other_target (some target) hashed = if str_eq target hashed then false else true

-- planParallel || planBeforeRun
unfoldable pub plans : Ctx → Manager → Bool
plans ctx m =
    if is_some ctx.target_step_id
    then false
    else ctx.parallel || m.request.call_ctx.disable_immediate_execution

abbrev pub planned_op : String → String → GeneratorOpcode
planned_op hashed id = record {
  id = hashed;
  op = Opcode.step_planned;
  name = id;
  opts = none;
  value = none;
  error = none;
}

abbrev pub step_run_op : String → String → Option Json → GeneratorOpcode
step_run_op hashed id byt = record {
  id = hashed;
  op = Opcode.step_run;
  name = id;
  opts = none;
  value = byt;
  error = none;
}

abbrev pub step_error_op : String → String → Error → Option Json → GeneratorOpcode
step_error_op hashed id err result = record {
  id = hashed;
  op = Opcode.step_error;
  name = id;
  opts = none;
  value = none;
  error = some (record { name = "Step failed"; message = err; value = result });
}

module _ {ℓ} {T : Type ℓ} (c : Codec T) (id hashed : String) where
  -- After the step's function returned: the error branch and the result branch.
  unfoldable pub report : T × Option Error → M (T × Option Error)
  unfolding fail
  report (result, some err) =
      if is_step_error (some err) then fail (formatted "Unhandled step error" err) else (do
        modify (append_op (step_error_op hashed id err (c.marshal result)))
        modify (set_err err)
        panic control_hijack)
  report (result, none) = elim (c.marshal result) [
    | none ↦ do
      modify (
          set_err (
            wrapped (str_append "unable to marshal run respone for " id)
              (text "json: unsupported value")))
      modify (append_op (step_run_op hashed id none))
      panic control_hijack
    | some byt ↦ do modify (append_op (step_run_op hashed id (some byt))); panic control_hijack
  ]

  -- The branches of Run in which the step has no stored result.
  unfoldable pub run_new : Ctx → M (T × Option Error) → M (T × Option Error)
  unfolding report
  run_new ctx f m =
      if is_other_target ctx.target_step_id hashed
      then (panicked control_hijack, m)
      else if plans ctx m
      then (panicked control_hijack, append_op (planned_op hashed id) m)
      else deferring cancel (f >>= report) m

module _ {ℓ} (sha1_hex : String → String) {T : Type ℓ} (c : Codec T) where
  unfoldable pub run_op : Ctx → String → M (T × Option Error) → UnhashedOp → M (T × Option Error)
  unfolding stored_result run_new
  run_op ctx id f op m = elim (step_data sha1_hex op m) [
    | some v ↦ stored_result c id v (unmarshal_response v) m
    | none ↦ run_new c id (must_hash sha1_hex op) ctx f m
  ]

  -- step.Run
  unfoldable pub run : Ctx → String → M (T × Option Error) → M (T × Option Error)
  unfolding run_op
  run ctx id f = do
    _ ← preflight ctx
    op ← λ m. (let r = new_op Opcode.step id none m in (returned r.0, r.1))
    run_op ctx id f op
