-- ===== src/Step/Core.antt =====
-- step/step.go: contexts, the ways in which code under a manager ends, and `preflight`.
use inngestgo.Prelude.{String, Bool, ◌||◌, Option, some, str_eq, if◌then◌else◌}
use inngestgo.Json.{Json}
use inngestgo.Errors.{Error}
use inngestgo.SdkRequest.{Manager, set_err}

-- What the tools read of a context.Context: whether it is done for a reason other than the
-- manager's cancel function, and the values under the package's keys.
pub record Ctx : Type 0 where
  pub done : Bool
  pub has_manager : Bool
  pub target_step_id : Option String
  pub parallel : Bool

-- The values that the code panics with. `other` is a panic of the user's code.
pub data Panic : Type 0 where
  control_hijack : Panic
  err_not_in_function : Panic
  other : String → Panic

pub data Outcome {ℓ} (A : Type ℓ) : Type ℓ where
  returned : A → Outcome A
  panicked : Panic → Outcome A

-- Code that runs under a manager.
abbrev pub M {ℓ} : Type ℓ → Type ℓ
M A = Manager → Outcome A × Manager

-- A panic skips what would have run next.
abbrev pub continue {ℓ κ} :
    {A : Type ℓ} {B : Type κ} → Outcome A × Manager → (A → M B) → Outcome B × Manager
continue (returned a, m) f = f a m
continue (panicked p, m) f = (panicked p, m)

infixl 5 ◌>>=◌ ◌>>◌
abbrev pub ◌>>=◌ {ℓ κ} : {A : Type ℓ} {B : Type κ} → M A → (A → M B) → M B
◌>>=◌ c f m = continue (c m) f

abbrev pub ◌>>◌ {ℓ} : {B : Type ℓ} → M (Unit {0}) → M B → M B
c >> d = c >>= λ _. d

abbrev pub return {ℓ} : {A : Type ℓ} → A → M A
return a m = (returned a, m)

abbrev pub panic {ℓ} : {A : Type ℓ} → Panic → M A
panic p m = (panicked p, m)

-- A mutation of the manager that returns nothing.
abbrev pub modify : (Manager → Manager) → M (Unit {0})
modify f m = (returned tt, f m)

abbrev pub get : M Manager
get m = (returned m, m)

-- `defer mgr.Cancel()` and the like: f runs however c ends.
abbrev pub deferring {ℓ} : {A : Type ℓ} → (Manager → Manager) → M A → M A
deferring f c m = let r = c m in (r.0, f r.1)

-- `mgr.SetErr(e); panic(ControlHijack{})`
unfoldable pub fail {ℓ} : {A : Type ℓ} → Error → M A
fail e = modify (set_err e) >> panic control_hijack

unfoldable pub set_target_step_id : Ctx → String → Ctx
set_target_step_id ctx id =
    if str_eq id "" || str_eq id "step" then ctx else record ctx { target_step_id = some id }

-- The check before each tool: a closed context ends the run, and so does a missing manager.
unfoldable pub preflight : Ctx → M Manager
preflight ctx m =
    if ctx.done || m.cancelled
    then (panicked control_hijack, m)
    else if ctx.has_manager
    then (returned m, m)
    else (panicked err_not_in_function, m)

-- How values of a Go type are read and written by encoding/json. `unmarshal` gives the value that
-- is left in the variable, and the error if there is one; `marshal` gives `none` on an error.
pub record Codec {ℓ} (T : Type ℓ) : Type ℓ where
  pub zero_value : T
  pub unmarshal : Json → T × Option Error
  pub marshal : T → Option Json

-- The error that json.Unmarshal gives for an empty input.
abbrev pub unexpected_end : Error
unexpected_end = Error.text "unexpected end of JSON input"
