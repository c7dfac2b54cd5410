-- ===== src/Execution/OneOp.antt =====
-- How many ops one execution of a function reports.
use inngestgo.Prelude.{
  String, ◌≡◌, refl, ◌⊎◌, inl, inr, Option, none, some, List, [], ◌∷◌, ℤ, lookup, Bool-cases, subst,
}
use inngestgo.Json.{Json}
use inngestgo.Errors.{Error}
use inngestgo.SdkRequest.{GeneratorOpcode, Manager, Request, new_manager}
use inngestgo.Step.Core.{Ctx, Outcome, returned, panicked, M}
use inngestgo.Funcs.{Any, nil, Input, EventType, ServableFunc}
use inngestgo.Execution.Program.{
  Program, finish, run_step, sleep_step, wait_step, invoke_step, infer_step, raw_codec, exec,
}
use inngestgo.Execution.Tame.{IsTame, IsTame-continue, run-IsTame}
use inngestgo.Execution.TameTools.{sleep-IsTame, wait_for_event-IsTame, invoke-IsTame, infer-IsTame}
use inngestgo.Execution.{
  Invoked, finished, crashed, Decoded, accepted, refused, panics, collect, call_context, call_with,
  call_function, decode_events, accepts_event, response_of, input_of,
}
use inngestgo.Execution

Decoded-cases : (d : Decoded) → (d ≡ accepted) ⊎ ((d ≡ refused) ⊎ (d ≡ panics))
Decoded-cases accepted = inl refl
Decoded-cases refused = inr (inl refl)
Decoded-cases panics = inr (inr refl)

-- The ops of an execution for the request: none, or one with no response, for a step that the
-- request has no result of.
abbrev pub AtMostOne : Request → Any → List GeneratorOpcode → Type 0
AtMostOne req v ops =
    (ops ≡ [])
    ⊎ ((op : GeneratorOpcode) × (ops ≡ op ∷ []) × (v ≡ nil) × (lookup op.id req.steps ≡ none))

abbrev IsReport : Request → Invoked → Type 0
IsReport req crashed = Unit
IsReport req (finished v ops e) = AtMostOne req v ops

module _ (sha1_hex : String → String) (duration_string : ℤ → String) where
  exec-IsTame :
      (ctx : Ctx) (p : Program) (m : Manager) → IsTame m (exec sha1_hex duration_string ctx p m)
  unfolding exec
  exec-IsTame ctx (finish v e) m = (refl, refl)
  exec-IsTame ctx (run_step id r k) m =
      IsTame-continue m _ _ (run-IsTame sha1_hex raw_codec ctx id r m)
        (λ a n. exec-IsTame ctx (k a) n)
  exec-IsTame ctx (sleep_step id d p) m =
      IsTame-continue m _ _ (sleep-IsTame sha1_hex duration_string ctx id d m)
        (λ a n. exec-IsTame ctx p n)
  exec-IsTame ctx (wait_step id o k) m =
      IsTame-continue m _ _ (wait_for_event-IsTame sha1_hex duration_string raw_codec ctx id o m)
        (λ a n. exec-IsTame ctx (k a) n)
  exec-IsTame ctx (invoke_step id o k) m =
      IsTame-continue m _ _ (invoke-IsTame sha1_hex duration_string raw_codec ctx id o m)
        (λ a n. exec-IsTame ctx (k a) n)
  exec-IsTame ctx (infer_step id o b k) m =
      IsTame-continue m _ _ (infer-IsTame sha1_hex raw_codec ctx id o b m)
        (λ a n. exec-IsTame ctx (k a) n)

  collect-IsReport :
      (req : Request) (r : Outcome (Any × Option Error) × Manager)
      → IsTame (new_manager req) r
      → IsReport req (collect r)
  unfolding collect new_manager
  collect-IsReport req (returned a, m) t = inl t.0
  collect-IsReport req (panicked p, m) (inl e) = inl e
  collect-IsReport req (panicked p, m) (inr (op, e, h, l)) = inr (op, e, refl, l)

  module _ (programs : Input → Program) (t : EventType) (req : Request)
      (step_id : Option String) where
    abbrev program_code : Ctx → Input → M (Any × Option Error)
    program_code ctx input = exec sha1_hex duration_string ctx (programs input)

    call_with-IsReport : (event : Json) → IsReport req (call_with program_code t req step_id event)
    unfolding call_with
    call_with-IsReport event = elim (Bool-cases (accepts_event t event)) [
      | inr a ↦ rw (a, call_with) (inl refl)
      | inl a ↦ elim (Decoded-cases (decode_events t req.events)) [
        | inl d ↦
            rw (a, call_with)
              (rw (d, call_with)
                (collect-IsReport req _ (
                  exec-IsTame (call_context step_id) (programs (input_of req event))
                    (new_manager req))))
        | inr (inl d) ↦ rw (a, call_with) (rw (d, call_with) (inl refl))
        | inr (inr d) ↦ rw (a, call_with) (rw (d, call_with) tt)
      ]
    ]

    call_function-IsReport :
        (event : Option Json) → IsReport req (call_function program_code t req step_id event)
    unfolding call_function
    call_function-IsReport none = inl refl
    call_function-IsReport (some v) = call_with-IsReport v

  -- One execution of a function that is built from the tools reports no op, or exactly one. Where
  -- it reports one it has no response, and the request holds no result under the op's id: a step
  -- with a stored result is never reported again.
  pub one_op :
      (sf : ServableFunc) (programs : Input → Program) (req : Request) (step_id : Option String)
      (v : Any) (ops : List GeneratorOpcode) (e : Option Error)
      → sf.f ≡ some (λ ctx input. exec sha1_hex duration_string ctx (programs input))
      → Execution.invoke sf req step_id ≡ finished v ops e
      → AtMostOne req v ops
  unfolding Execution.invoke
  one_op sf programs req step_id v ops e built result = subst (IsReport req) result (
      rw (built, Execution.invoke)
        (call_function-IsReport programs sf.event_type req step_id req.event))
