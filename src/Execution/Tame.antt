-- ===== src/Execution/Tame.antt =====
-- What a tool may do to the manager, and that step.Run does no more.

use inngestgo.Prelude.{
  String, ◌≡◌, refl, ◌∙◌, ap, ◌⊎◌, inl, inr, Option, none, some, [], ◌∷◌, ◌++◌, arith, lookup,
  Option-cases, Bool-cases,
}
use inngestgo.Json.{Json}
use inngestgo.Errors.{Error, is_step_error}
use inngestgo.SdkRequest.{
  Opcode, UnhashedOp, GeneratorOpcode, Manager, cancel, set_err, append_op, new_op, must_hash,
  step_data,
}
use inngestgo.Step.Core.{
  Ctx, control_hijack, Outcome, returned, panicked, M, continue, return, preflight, fail, Codec,
}
use inngestgo.Step.Run.{
  or_fail, stored_error, stored_value, stored_result, report, run_new, run_op, run, is_other_target,
  plans, unmarshal_response, unmarshal_step_error, StepErrorFields, Response,
}

-- m' has the ops and the request of m.
abbrev pub Same : Manager → Manager → Type 0
Same m m' = (m'.ops ≡ m.ops) × (m'.request ≡ m.request)

-- Code that started at m and returned left the ops alone; if it ended by a panic, it left them
-- alone or reported one op, by a hijack, for a step that has no stored result.
abbrev pub IsTame {ℓ} : {A : Type ℓ} → Manager → Outcome A × Manager → Type 0
IsTame m (returned a, m') = Same m m'
IsTame m (panicked p, m') =
    (m'.ops ≡ m.ops)
    ⊎ ((op : GeneratorOpcode) × (m'.ops ≡ m.ops ++ op ∷ [])
        × (p ≡ control_hijack)
        × (lookup op.id m.request.steps ≡ none))

module _ {ℓ} {A : Type ℓ} where
  pub IsTame-Same :
      (m m' : Manager) (r : Outcome A × Manager) → Same m m' → IsTame m' r → IsTame m r
  IsTame-Same m m' (returned a, n) s t = (t.0 ∙ s.0, t.1 ∙ s.1)
  IsTame-Same m m' (panicked p, n) s (inl e) = inl (e ∙ s.0)
  IsTame-Same m m' (panicked p, n) s (inr (op, e, h, l)) =
      inr (op, e ∙ ap (λ l. l ++ op ∷ []) s.0, h, rw (← s.1) l)

  pub IsTame-continue {κ} :
      {B : Type κ} (m : Manager) (r : Outcome B × Manager) (f : B → M A)
      → IsTame m r
      → ((b : B) (n : Manager) → IsTame n (f b n))
      → IsTame m (continue r f)
  IsTame-continue m (returned b, n) f t k = IsTame-Same m n (f b n) t (k b n)
  IsTame-continue m (panicked p, n) f t k = t

  pub preflight_then :
      (ctx : Ctx) (m : Manager) (f : Manager → M A)
      → IsTame m (f m m)
      → IsTame m (continue (preflight ctx m) f)
  unfolding preflight
  preflight_then ctx m f t = ground arith

  pub IsTame-or_fail : (m : Manager) (s : String) (r : A × Option Error) → IsTame m (or_fail s r m)
  unfolding or_fail fail set_err
  IsTame-or_fail m s (a, none) = (refl, refl)
  IsTame-or_fail m s (a, some e) = inl refl

-- A new op takes a position and nothing else.
pub new_op-Same :
    (op : Opcode) (id : String) (o : Option Json) (m : Manager) → Same m (new_op op id o m).1
unfolding new_op
new_op-Same op id o m = (refl, refl)

-- The stored result of a step, an op to report and the end of a run are as they should be.
module _ (c : Codec Json) (m : Manager) where
  pub or_fail_then :
      (s : String) (r : Json × Option Error) (e : Option Error)
      → IsTame m (continue {B = Json × Option Error} (or_fail s r m) (λ t. return (t, e)))
  or_fail_then s r e =
      IsTame-continue m (or_fail s r m) (λ t. return (t, e)) (IsTame-or_fail m s r)
        (λ b n. (refl, refl))

  stored_error-IsTame :
      (id : String) (e : Option StepErrorFields) → IsTame m (stored_error c id e m)
  unfolding stored_error fail set_err
  stored_error-IsTame id none = inl refl
  stored_error-IsTame id (some e) = or_fail_then _ _ _

  stored_result-IsTame :
      (id : String) (v : Json) (r : Option Response) → IsTame m (stored_result c id v r m)
  unfolding stored_result stored_value
  stored_result-IsTame id v none = or_fail_then _ _ none
  stored_result-IsTame id v (some r) = elim (Option-cases r.error) [
    | inl e ↦ rw (e, stored_result) (or_fail_then _ _ none)
    | inr (j, e) ↦ rw (e, stored_result) (stored_error-IsTame id (unmarshal_step_error j))
  ]

  report-IsTame :
      (id hashed : String) (r : Json × Option Error)
      → lookup hashed m.request.steps ≡ none
      → IsTame m (report c id hashed r m)
  unfolding report fail set_err append_op
  report-IsTame id hashed (v, some e) l = elim (Bool-cases (is_step_error (some e))) [
    | inl s ↦ rw (s, report) (inl refl)
    | inr s ↦ rw (s, report) (inr (_, refl, refl, l))
  ]
  report-IsTame id hashed (v, none) l = elim (Option-cases (c.marshal v)) [
    | inl s ↦ rw (s, report) (inr (_, refl, refl, l))
    | inr (j, s) ↦ rw (s, report) (inr (_, refl, refl, l))
  ]

  cancel-IsTame :
      (r : Outcome (Json × Option Error) × Manager) → IsTame m r → IsTame m (r.0, cancel r.1)
  unfolding cancel
  cancel-IsTame (returned a, n) t = t
  cancel-IsTame (panicked p, n) t = t

  run_new-IsTame :
      (ctx : Ctx) (id hashed : String) (r : Json × Option Error)
      → lookup hashed m.request.steps ≡ none
      → IsTame m (run_new c id hashed ctx (return r) m)
  unfolding run_new append_op
  run_new-IsTame ctx id hashed r l = elim (Bool-cases (is_other_target ctx.target_step_id hashed)) [
    | inl o ↦ rw (o, run_new) (inl refl)
    | inr o ↦ elim (Bool-cases (plans ctx m)) [
      | inl q ↦ rw (o, run_new) (rw (q, run_new) (inr (_, refl, refl, l)))
      | inr q ↦
          rw (o, run_new)
            (rw (q, run_new) (cancel-IsTame (report c id hashed r m) (report-IsTame id hashed r l)))
    ]
  ]

module _ (sha1_hex : String → String) (c : Codec Json) where
  run_op-IsTame :
      (ctx : Ctx) (id : String) (r : Json × Option Error) (op : UnhashedOp) (m : Manager)
      → IsTame m (run_op sha1_hex c ctx id (return r) op m)
  unfolding run_op step_data
  run_op-IsTame ctx id r op m = elim (Option-cases (step_data sha1_hex op m)) [
    | inl e ↦ rw (e, run_op) (run_new-IsTame c m ctx id (must_hash sha1_hex op) r e)
    | inr (v, e) ↦ rw (e, run_op) (stored_result-IsTame c m id v (unmarshal_response v))
  ]

  pub run-IsTame :
      (ctx : Ctx) (id : String) (r : Json × Option Error) (m : Manager)
      → IsTame m (run sha1_hex c ctx id (return r) m)
  unfolding run
  run-IsTame ctx id r m = preflight_then ctx m _ (
      IsTame-Same m (new_op Opcode.step id none m).1 _ (new_op-Same Opcode.step id none m)
        (run_op-IsTame ctx id r (new_op Opcode.step id none m).0 (new_op Opcode.step id none m).1))
