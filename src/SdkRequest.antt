-- ===== src/SdkRequest.antt =====
-- internal/sdkrequest (request.go, manager.go): the executor's request, and the manager of one
-- invocation. The manager is mutated through a pointer: each method takes the manager and returns
-- the new one. Its lock guards single calls, which are single steps here. `cancelled` is the state
-- of the context that the manager's cancel function ends. `enums.Opcode` and
-- `state.GeneratorOpcode` are the executor's types, by the constants and fields that are set here.
-- Fields that nothing reads are left out: the call stack, and the name of an UnhashedOp.
pub mod Positions
mod Tests
use Prim.Native.String.{◌++◌ as str_append}
use inngestgo.Prelude.{
  ℕ, ◌+◌, String, Bool, true, false, Option, none, some, List, [], ◌∷◌, ◌++◌, if◌then◌else◌, ltb, ℤ,
  Map, lookup, insert, decimal,
}
use inngestgo.Json.{Json}
use inngestgo.Errors.{Error}

pub data Opcode : Type 0 where
  step step_run step_error step_planned sleep wait_for_event invoke_function ai_gateway : Opcode

-- state.UserError; its message is the text of an error.
pub record UserError : Type 0 where
  pub name : String
  pub message : Error
  pub value : Option Json

pub record GeneratorOpcode : Type 0 where
  pub id : String
  pub op : Opcode
  pub name : String
  pub opts : Option Json
  pub value : Option Json
  pub error : Option UserError

pub record CallCtx : Type 0 where
  pub disable_immediate_execution : Bool
  pub env : String
  pub function_id : String
  pub run_id : String
  pub step_id : String
  pub attempt : ℤ

pub record Request : Type 0 where
  pub event : Option Json
  pub events : List Json
  pub steps : Map Json
  pub call_ctx : CallCtx
  pub use_api : Bool

pub record Manager : Type 0 where
  pub cancelled : Bool
  pub err : Option Error
  pub ops : List GeneratorOpcode
  pub request : Request
  pub indexes : Map ℕ

unfoldable pub new_manager : Request → Manager
new_manager req = record { cancelled = false; err = none; ops = []; request = req; indexes = [] }

unfoldable pub cancel : Manager → Manager
cancel m = record m { cancelled = true }

unfoldable pub set_err : Error → Manager → Manager
set_err e m = record m { err = some e }

unfoldable pub append_op : GeneratorOpcode → Manager → Manager
append_op op m = record m { ops = m.ops ++ op ∷ [] }

pub record UnhashedOp : Type 0 where
  pub op : Opcode
  pub id : String
  pub opts : Option Json
  pub pos : ℕ

-- The position that NewOp gives to an id, from the entry of the id in `indexes`.
unfoldable pub next_pos : Option ℕ → ℕ
next_pos none = 0
next_pos (some n) = n + 1

unfoldable pub new_op : Opcode → String → Option Json → Manager → UnhashedOp × Manager
unfolding next_pos
new_op op id opts m =
    let n = next_pos (lookup id m.indexes) in
    (
      record { op = op; id = id; opts = opts; pos = n },
      record m { indexes = insert id n m.indexes },
    )

-- What Hash gives to SHA-1.
unfoldable pub hash_input : UnhashedOp → String
hash_input u = if ltb 0 u.pos then str_append u.id (str_append ":" (decimal u.pos)) else u.id

-- SHA-1 in hexadecimal is a parameter.
module _ (sha1_hex : String → String) where
  -- Hash never fails, so MustHash does not panic.
  unfoldable pub must_hash : UnhashedOp → String
  unfolding hash_input
  must_hash u = sha1_hex (hash_input u)

  -- Manager.Step
  unfoldable pub step_data : UnhashedOp → Manager → Option Json
  unfolding must_hash
  step_data u m = lookup (must_hash u) m.request.steps
