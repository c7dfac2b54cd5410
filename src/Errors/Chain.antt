-- ===== src/Errors/Chain.antt =====
-- What errors.Is and errors.As find, against the chain of errors reached by Unwrap.
use inngestgo.Prelude.{
  ℕ, ◌≡◌, refl, ap, sym, ◌∙◌, inl, inr, ◌↔◌, true, false, ◌||◌, none, some, arith, Bool-cases,
}
use inngestgo.Errors.{
  Error, text, wrapped, no_retry, retry_at, reconnect, public_cause, Target, a_retry_at_error,
  unwrap, is_method, errors_is, retry_at_time, get_retry_at_time,
}

-- `Chain e d`: d is e, or is reached from it by calls of Unwrap.
pub data Chain : Error → Error → Type 0 where
  here : {e d : Error} → e ≡ d → Chain e d
  next : {e c d : Error} → unwrap e ≡ some c → Chain c d → Chain e d

abbrev pub IsFound : Target → Error → Type 0
IsFound t e = (d : Error) × Chain e d × (is_method d t ≡ true)

-- The loop of errors.Is, one step of it.
errors_is_cons :
    (e c : Error) (t : Target)
    → unwrap e ≡ some c
    → errors_is e t ≡ (is_method e t || errors_is c t)
unfolding errors_is unwrap
errors_is_cons (text s) c t h = cc
errors_is_cons _ c t h = ground arith

errors_is_last : (e : Error) (t : Target) → unwrap e ≡ none → errors_is e t ≡ is_method e t
unfolding errors_is unwrap
errors_is_last (text s) t h = refl
errors_is_last _ t h = ground arith

errors_is_here : (e : Error) (t : Target) → is_method e t ≡ true → errors_is e t ≡ true
unfolding errors_is
errors_is_here (text s) t h = h
errors_is_here _ t h = ground arith

errors_is_of_Chain :
    (e d : Error) (t : Target) → Chain e d → is_method d t ≡ true → errors_is e t ≡ true
errors_is_of_Chain e d t (next {c = c} u r) h =
    ground (arith, errors_is_cons e c t u, errors_is_of_Chain c d t r h)
errors_is_of_Chain e d t (here p) h = rw p (errors_is_here d t h)

IsFound-next : (e c : Error) (t : Target) → unwrap e ≡ some c → IsFound t c → IsFound t e
IsFound-next e c t u (d, r, h) = (d, next u r, h)

IsFound-here : (e : Error) (t : Target) → is_method e t ≡ true → IsFound t e
IsFound-here e t h = (e, here refl, h)

IsFound-link :
    (e c : Error) (t : Target)
    → unwrap e ≡ some c
    → (errors_is c t ≡ true → IsFound t c)
    → errors_is e t ≡ true
    → IsFound t e
IsFound-link e c t u ih h = elim (Bool-cases (is_method e t)) [
  | inl m ↦ IsFound-here e t m
  | inr m ↦ IsFound-next e c t u (ih (ground (arith, errors_is_cons e c t u)))
]

Chain_of_errors_is : (e : Error) (t : Target) → errors_is e t ≡ true → IsFound t e
unfolding unwrap
Chain_of_errors_is (wrapped s e) t h =
    IsFound-link (wrapped s e) e t refl (Chain_of_errors_is e t) h
Chain_of_errors_is (no_retry e) t h = IsFound-link (no_retry e) e t refl (Chain_of_errors_is e t) h
Chain_of_errors_is (retry_at e at) t h =
    IsFound-link (retry_at e at) e t refl (Chain_of_errors_is e t) h
Chain_of_errors_is (reconnect e) t h =
    IsFound-link (reconnect e) e t refl (Chain_of_errors_is e t) h
Chain_of_errors_is (public_cause k s e) t h =
    IsFound-link (public_cause k s e) e t refl (Chain_of_errors_is e t) h
Chain_of_errors_is e t h = IsFound-here e t (sym (errors_is_last e t refl) ∙ h)

-- errors.Is answers true exactly when some error reached by Unwrap has a method Is that accepts the
-- target.
errors_is_iff : (e : Error) (t : Target) → (errors_is e t ≡ true) ↔ IsFound t e
errors_is_iff e t = (Chain_of_errors_is e t, λ f. errors_is_of_Chain e f.0 t f.1 f.2)

-- The first retryAtError along the chain has the time `at`.
pub data FirstRetryAt : ℕ → Error → Type 0 where
  here : {at : ℕ} {e c : Error} → e ≡ retry_at c at → FirstRetryAt at e
  next :
      {at : ℕ} {e c : Error}
      → is_method e a_retry_at_error ≡ false
      → unwrap e ≡ some c
      → FirstRetryAt at c
      → FirstRetryAt at e

retry_at_cons :
    (e c : Error)
    → is_method e a_retry_at_error ≡ false
    → unwrap e ≡ some c
    → retry_at_time e ≡ retry_at_time c
unfolding is_method unwrap retry_at_time
retry_at_cons (text s) c h u = cc
retry_at_cons _ c h u = ground arith

retry_at_of_First : {at : ℕ} (e : Error) → FirstRetryAt at e → retry_at_time e ≡ some at
unfolding retry_at_time
retry_at_of_First e (here p) = rw p
retry_at_of_First e (next {c = c} h u r) = retry_at_cons e c h u ∙ retry_at_of_First c r

First_of_retry_at : {at : ℕ} (e : Error) → retry_at_time e ≡ some at → FirstRetryAt at e
unfolding retry_at_time unwrap is_method
First_of_retry_at (wrapped s e) h = next refl refl (First_of_retry_at e h)
First_of_retry_at (no_retry e) h = next refl refl (First_of_retry_at e h)
First_of_retry_at (retry_at e at) h = here (ap (retry_at e) (ground arith))
First_of_retry_at (reconnect e) h = next refl refl (First_of_retry_at e h)
First_of_retry_at (public_cause k s e) h = next refl refl (First_of_retry_at e h)
First_of_retry_at _ h = cc

-- GetRetryAtTime gives the time of the first retryAtError along the chain of Unwrap, and nil when
-- the error is nil or no error of the chain is one.
get_retry_at_time_iff :
    (e : Error) (at : ℕ)
    → (get_retry_at_time (some e) ≡ some at ↔ FirstRetryAt at e) × (get_retry_at_time none ≡ none)
unfolding get_retry_at_time
get_retry_at_time_iff e at = ((First_of_retry_at e, retry_at_of_First e), refl)
