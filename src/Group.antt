-- ===== src/Group.antt =====
-- experimental/group/group.go. Parallel starts a goroutine for each function and waits for it
-- before it starts the next, so the functions run one after the other.
pub mod Plans
mod Tests
use inngestgo.Prelude.{Bool, true, false, Option, none, some, List, [], ◌∷◌, ◌++◌, if◌then◌else◌}
use inngestgo.Errors.{Error}
use inngestgo.SdkRequest.{Manager}
use inngestgo.Step.Core.{
  Ctx, Panic, control_hijack, err_not_in_function, other, Outcome, returned, panicked, M,
}

pub record Result {ℓ} (A : Type ℓ) : Type ℓ where
  pub error : Option Error
  pub value : A

-- The variables that the goroutines share.
pub record Progress {ℓ} (A : Type ℓ) : Type ℓ where
  pub results : List (Result A)
  pub is_planned : Bool
  pub unexpected_panic : Option Panic

-- One goroutine's end: its recover, or the append of its result.
unfoldable pub note {ℓ} : {A : Type ℓ} → Progress A → Outcome (A × Option Error) → Progress A
note p (returned (v, e)) = record p { results = p.results ++ record { error = e; value = v } ∷ [] }
note p (panicked control_hijack) = record p { is_planned = true }
note p (panicked err_not_in_function) = record p { unexpected_panic = some err_not_in_function }
note p (panicked (other s)) = record p { unexpected_panic = some (other s) }

unfoldable pub run_all {ℓ} :
    {A : Type ℓ}
    → Ctx
    → List (Ctx → M (A × Option Error))
    → Progress A
    → Manager
    → Progress A × Manager
run_all ctx [] p m = (p, m)
run_all ctx (f ∷ fs) p m = run_all ctx fs (note p (f ctx m).0) (f ctx m).1

unfoldable pub conclude {ℓ} : {A : Type ℓ} → Progress A → Outcome (List (Result A))
conclude p = elim p.unexpected_panic [
  | some q ↦ panicked q
  | none ↦ if p.is_planned then panicked control_hijack else returned p.results
]

unfoldable pub parallel {ℓ} :
    {A : Type ℓ} → Ctx → List (Ctx → M (A × Option Error)) → M (List (Result A))
unfolding run_all conclude note
parallel ctx fns m =
    let r =
      run_all (record ctx { parallel = true }) fns
        (record { results = []; is_planned = false; unexpected_panic = none }) m in
    (conclude r.0, r.1)
