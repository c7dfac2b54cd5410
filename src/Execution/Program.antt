-- ===== src/Execution/Program.antt =====
-- Functions as the executor sees them: a tree of calls of tools, each followed by what the function
-- does with the answer. `exec` runs the tree with the tools of the package step.
use inngestgo.Prelude.{String, Option, none, some, ℤ}
use inngestgo.Json.{Json, null}
use inngestgo.Errors.{Error}
use inngestgo.Step.Core.{Ctx, M, ◌>>=◌, ◌>>◌, return, Codec}
use inngestgo.Step.Run.{run}
use inngestgo.Step.Tools.{WaitForEventOpts, InvokeOpts, sleep, wait_for_event, invoke}
use inngestgo.Step.Infer.{InferRequestOpts, infer}
use inngestgo.Funcs.{Any}

-- What a tool gives back to the function.
abbrev pub Answer : Type 0
Answer = Json × Option Error

-- `run_step id r k`: step.Run with a function that returns r.
pub data Program : Type 0 where
  finish : Any → Option Error → Program
  run_step : String → Answer → (Answer → Program) → Program
  sleep_step : String → ℤ → Program → Program
  wait_step : String → WaitForEventOpts → (Answer → Program) → Program
  invoke_step : String → InvokeOpts → (Answer → Program) → Program
  infer_step : String → InferRequestOpts → Json → (Answer → Program) → Program

-- The type json.RawMessage.
abbrev pub raw_codec : Codec Json
raw_codec = record { zero_value = null; unmarshal = λ v. (v, none); marshal = λ v. some v }

module _ (sha1_hex : String → String) (duration_string : ℤ → String) (ctx : Ctx) where
  unfoldable pub exec : Program → M (Any × Option Error)
  exec (finish v e) = return (v, e)
  exec (run_step id r k) = run sha1_hex raw_codec ctx id (return r) >>= λ a. exec (k a)
  exec (sleep_step id d p) = sleep sha1_hex duration_string ctx id d >> exec p
  exec (wait_step id o k) =
      wait_for_event sha1_hex duration_string raw_codec ctx id o >>= λ a. exec (k a)
  exec (invoke_step id o k) = invoke sha1_hex duration_string raw_codec ctx id o >>= λ a. exec (k a)
  exec (infer_step id o b k) = infer sha1_hex raw_codec ctx id o (some b) >>= λ a. exec (k a)
