-- ===== src/Results.antt =====
-- Values or errors: a Go function's result and its error, of which one is nil.
use inngestgo.Prelude.{String, ◌≡◌, refl, ◌⊎◌, inl, inr}
use inngestgo.Errors.{Error, wrapped}

pub data Result {ℓ} (A : Type ℓ) : Type ℓ where
  ok : A → Result A
  err : Error → Result A

infixl 5 ◌>>=◌ ◌>>◌
abbrev pub ◌>>=◌ {κ ℓ} : {T : Type κ} {U : Type ℓ} → Result T → (T → Result U) → Result U
◌>>=◌ (err failure) next = err failure
◌>>=◌ (ok value) next = next value

abbrev pub ◌>>◌ {κ ℓ} : {T : Type κ} {U : Type ℓ} → Result T → Result U → Result U
first >> next = first >>= λ _. next

-- `if err != nil { return …, fmt.Errorf("…: %w", err) }`
abbrev pub plain {ℓ} : {A : Type ℓ} → String → Result A → Result A
plain what (ok a) = ok a
plain what (err e) = err (wrapped what e)

-- To split on a computed result and keep the equation.
pub Result-cases {ℓ} :
    {A : Type ℓ} (r : Result A) → ((e : Error) × (r ≡ err e)) ⊎ ((a : A) × (r ≡ ok a))
Result-cases (ok a) = inr (a, refl)
Result-cases (err e) = inl (e, refl)
