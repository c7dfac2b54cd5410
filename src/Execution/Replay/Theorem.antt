-- ===== src/Execution/Replay/Theorem.antt =====
-- The executor's replays compute what the function means.

use inngestgo.Prelude.{
  ℕ, zero, suc, ◌<◌, String, true, false, ◌≡◌, refl, subst, sym, ap, ◌∙◌, ◌⊎◌, inl, inr, Option,
  none, some, List, [], ◌∷◌, ℤ, arith, Map, lookup, insert, length,
}
use inngestgo.Json.{Json, null}
use inngestgo.Errors.{Error}
use inngestgo.SdkRequest.{Request, Manager, new_manager}
use inngestgo.Step.Core.{Ctx, control_hijack, Outcome, returned, panicked, M, continue}
use inngestgo.Funcs.{Any, Input, EventType, ServableFunc}
use inngestgo.Execution.Program.{
  Program, finish, run_step, sleep_step, wait_step, invoke_step, infer_step, exec,
}
use inngestgo.Execution.{
  Invoked, finished, accepted, collect, call_context, call_with, call_function, decode_events,
  accepts_event, input_of, panic_error,
}
use inngestgo.Execution
use inngestgo.Execution.Replay.{bump, advance, drive, direct, path}
use inngestgo.Execution.Replay.Paths.{
  Good, Distinct, first_missing, missing, missing_le_length, insert-first_missing, Good-empty,
}
use inngestgo.Execution.Replay.Tools.{
  at, Reported, run_stored, run_reports, sleep_stored, sleep_reports, wait_stored, wait_reports,
  invoke_stored, invoke_reports, infer_stored_answer, infer_reports,
}

-- The function and the request: its events decode, and steps run immediately.
abbrev pub Ready : ServableFunc → Request → Json → Type 0
Ready sf req event =
    (req.event ≡ some event)
    × (accepts_event sf.event_type event ≡ true)
    × (decode_events sf.event_type req.events ≡ accepted)
    × (req.call_ctx.disable_immediate_execution ≡ false)

module _ (sha1_hex : String → String) (answers : String → Json) where
  Reported-continue {ℓ κ} :
      {A : Type ℓ} {B : Type κ} (h : String) (j : Json) (r : Outcome A × Manager) (f : A → M B)
      → Reported sha1_hex answers h j r
      → Reported sha1_hex answers h j (continue r f)
  Reported-continue h j (returned a, m) f t = absurd (cc t.hijack)
  Reported-continue h j (panicked p, m) f t = record {
    op = t.op;
    hijack =
        ap (λ o. elim o [ returned a ↦ panicked control_hijack | panicked q ↦ panicked q ])
          t.hijack;
    reported = t.reported;
    no_error = t.no_error;
    id = t.id;
    outcome = t.outcome;
  }

  -- How an execution ends, by the first op of the path that has no stored outcome.
  abbrev Ends :
      Request
      → Option (String × Json)
      → Any × Option Error
      → Outcome (Any × Option Error) × Manager
      → Type 0
  Ends req none r e = (ix : Map ℕ) × (e ≡ (returned r, at req ix))
  Ends req (some (h, j)) r e = Reported sha1_hex answers h j e

  module _ (req : Request) (r : Any × Option Error) where
    step-Ends {ℓ} :
        {B : Type ℓ} (h : String) (j : Json) (l : List (String × Json)) (tool : Outcome B × Manager)
        (b : B) (ix : Map ℕ) (f : B → M (Any × Option Error))
        → (lookup h req.steps ≡ none) ⊎ (lookup h req.steps ≡ some j)
        → (lookup h req.steps ≡ none → Reported sha1_hex answers h j tool)
        → (lookup h req.steps ≡ some j → tool ≡ (returned b, at req ix))
        → Ends req (first_missing req.steps l) r (f b (at req ix))
        → Ends req (first_missing req.steps ((h, j) ∷ l)) r (continue tool f)
    unfolding first_missing
    step-Ends h j l tool b ix f (inl e) reports answered rest =
        rw (e, first_missing) (Reported-continue h j tool f (reports e))
    step-Ends h j l tool b ix f (inr e) reports answered rest =
        rw (e, first_missing) (rw (answered e) rest)

  module _ (duration_string : ℤ → String) (req : Request)
      (immediate : req.call_ctx.disable_immediate_execution ≡ false) where
    exec-Ends :
        (p : Program) (ix : Map ℕ) (r : Any × Option Error)
        → Good req.steps (path sha1_hex answers ix p)
        → direct sha1_hex answers ix p ≡ some r
        → Ends req
            (first_missing req.steps (path sha1_hex answers ix p))
            r
            (exec sha1_hex duration_string (call_context none) p (at req ix))
    unfolding exec path direct first_missing
    exec-Ends (finish v e) ix r g d = (ix, ground arith)
    exec-Ends (run_step id (v, none) k) ix r g d =
        step-Ends req r _ _ _ _ (v, none) (bump id ix) _ g.0
          (run_reports sha1_hex answers req immediate ix id v)
          (run_stored sha1_hex answers req immediate ix id v v)
          (exec-Ends (k (v, none)) (bump id ix) r g.1 d)
    exec-Ends (run_step id (v, some e) k) ix r g d = cc
    exec-Ends (sleep_step id t p) ix r g d =
        step-Ends req r _ _ _ _ tt (bump id ix) _ g.0
          (sleep_reports sha1_hex duration_string answers req ix id t)
          (sleep_stored sha1_hex duration_string answers req ix id t null)
          (exec-Ends p (bump id ix) r g.1 d)
    exec-Ends (wait_step id o k) ix r g d =
        step-Ends req r _ _ _ _ _ (bump id ix) _ g.0
          (wait_reports sha1_hex duration_string answers req ix id o)
          (wait_stored sha1_hex duration_string answers req ix id o)
          (exec-Ends (k _) (bump id ix) r g.1 d)
    exec-Ends (invoke_step id o k) ix r g d =
        step-Ends req r _ _ _ _ _ (bump id ix) _ g.0
          (invoke_reports sha1_hex duration_string answers req ix id o)
          (invoke_stored sha1_hex duration_string answers req ix id o _)
          (exec-Ends (k _) (bump id ix) r g.1 d)
    exec-Ends (infer_step id o b k) ix r g d =
        step-Ends req r _ _ _ _ _ (bump id ix) _ g.0
          (infer_reports sha1_hex duration_string answers req ix id o b)
          (infer_stored_answer sha1_hex duration_string answers req ix id o b _)
          (exec-Ends (k _) (bump id ix) r g.1 d)

  -- One round of the executor, from a request with good stored steps.
  module _ (duration_string : ℤ → String) (sf : ServableFunc) (programs : Input → Program)
      (built : sf.f ≡ some (λ ctx input. exec sha1_hex duration_string ctx (programs input))) where
    abbrev code : Ctx → Input → M (Any × Option Error)
    code ctx input = exec sha1_hex duration_string ctx (programs input)

    call_with-collect :
        (t : EventType) (req : Request) (event : Json)
        → accepts_event t event ≡ true
        → decode_events t req.events ≡ accepted
        → call_with code t req none event
          ≡ collect (code (call_context none) (input_of req event) (new_manager req))
    unfolding call_with
    call_with-collect t req event a d = rw (a, call_with) (rw (d, call_with))

    invoke-collect :
        (req : Request) (event : Json)
        → Ready sf req event
        → Execution.invoke sf req none
          ≡ collect (code (call_context none) (input_of req event) (at req []))
    unfolding Execution.invoke call_function new_manager
    invoke-collect req event (e, a, d, i) =
        rw (built, Execution.invoke)
          (ap (call_function code sf.event_type req none) e
            ∙ call_with-collect sf.event_type req event a d)

    advance-Reported :
        (again : Request → Option (Any × Option Error)) (req : Request) (h : String) (j : Json)
        (r : Outcome (Any × Option Error) × Manager)
        → Reported sha1_hex answers h j r
        → advance sha1_hex answers again req (collect r)
          ≡ again (record req { steps = insert h j req.steps })
    unfolding advance collect
    advance-Reported again req h j (o, m) t = ground arith

    advance_returned :
        (again : Request → Option (Any × Option Error)) (req : Request) (r : Any × Option Error)
        (ix : Map ℕ)
        → advance sha1_hex answers again req (collect (returned r, at req ix)) ≡ some r
    unfolding advance collect panic_error
    advance_returned again req (v, e) ix = refl

    after_round :
        (again : Request → Option (Any × Option Error)) (req : Request) (r : Any × Option Error)
        (e : Outcome (Any × Option Error) × Manager) (o : Option (String × Json))
        → Ends req o r e
        → ((h : String) (j : Json)
            → o ≡ some (h, j)
            → again (record req { steps = insert h j req.steps }) ≡ some r)
        → advance sha1_hex answers again req (collect e) ≡ some r
    after_round again req r e none (ix, eq) next = rw eq (advance_returned again req r ix)
    after_round again req r e (some (h, j)) t next =
        advance-Reported again req h j e t ∙ next h j refl

    -- The rounds of the executor, by what is still missing on the path.
    drive_from :
        (fuel : ℕ) (req : Request) (event : Json) (r : Any × Option Error)
        (l : List (String × Json))
        → Ready sf req event
        → path sha1_hex answers [] (programs (input_of req event)) ≡ l
        → direct sha1_hex answers [] (programs (input_of req event)) ≡ some r
        → Distinct l
        → Good req.steps l
        → missing req.steps l < fuel
        → drive sha1_hex answers fuel sf req ≡ some r
    unfolding drive
    drive_from zero req event r l ready p d distinct good h = absurd (omega arith)
    drive_from (suc fuel) req event r l ready p d distinct good h =
        rw (invoke-collect req event ready) (
          after_round (λ q. drive sha1_hex answers fuel sf q) req r _ (first_missing req.steps l)
            (subst
              (λ k.
                Ends req (first_missing req.steps k) r
                  (code (call_context none) (input_of req event) (at req [])))
              p
              (exec-Ends duration_string req ready.3 (programs (input_of req event)) [] r
                (subst (Good req.steps) (sym p) good) d))
            (λ k j e.
              let next = insert-first_missing req.steps l k j good distinct e in
              drive_from fuel (record req { steps = insert k j req.steps }) event r l ready p d
                distinct next.0 (omega (arith, next.1))))

    -- If the executor gives every execution the outcomes stored so far, stores each op that is
    -- reported and calls again, then after at most one execution for each op of the path and one
    -- more the function ends, with the result that it has when every tool answers at once. The
    -- function starts with no stored step, its steps succeed, its events decode, steps run
    -- immediately, and no two ops of the path have one id.
    pub drive-direct :
        (req : Request) (event : Json) (r : Any × Option Error) (fuel : ℕ)
        → Ready sf req event
        → req.steps ≡ []
        → Distinct (path sha1_hex answers [] (programs (input_of req event)))
        → direct sha1_hex answers [] (programs (input_of req event)) ≡ some r
        → length (path sha1_hex answers [] (programs (input_of req event))) < fuel
        → drive sha1_hex answers fuel sf req ≡ some r
    drive-direct req event r fuel ready empty distinct d h =
        let l = path sha1_hex answers [] (programs (input_of req event)) in
        drive_from fuel req event r l ready refl d distinct (Good-empty req.steps l empty)
          (omega (arith, missing_le_length req.steps l))
