-- ===== src/Execution/Verdict.antt =====
-- What the handler and the worker make of the end of an invocation, before they answer: the same
-- statements in handler.go and connect/invoke.go.
use inngestgo.Prelude.{ℕ, Bool, true, false, Option, none, some, List, [], ◌∷◌, if◌then◌else◌}
use inngestgo.Errors.{Error, formatted, is_step_error, is_no_retry_error, get_retry_at_time}
use inngestgo.SdkRequest.{Opcode, GeneratorOpcode}

-- What an invocation came to, and what goes with it into the response.
pub record Verdict : Type 0 where
  pub err : Option Error
  pub no_retry : Bool
  pub retry_after : Option ℕ

abbrev pub is_step_error_op : Opcode → Bool
is_step_error_op Opcode.step_error = true
is_step_error_op _ = false

-- `len(ops) == 1 && ops[0].Op == enums.OpcodeStepError`
abbrev pub reports_step_error : List GeneratorOpcode → Bool
reports_step_error (op ∷ []) = is_step_error_op op.op
reports_step_error _ = false

abbrev pub unhandled : Option Error → Option Error
unhandled none = none
unhandled (some e) = some (formatted "Unhandled step error" e)

unfoldable pub judge : List GeneratorOpcode → Option Error → Verdict
judge ops e =
    let left : Option Error = if reports_step_error ops then none else e in
    if is_step_error left
    then record { err = unhandled left; no_retry = true; retry_after = get_retry_at_time e }
    else record { err = left; no_retry = is_no_retry_error e; retry_after = get_retry_at_time e }
