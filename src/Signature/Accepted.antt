-- ===== src/Signature/Accepted.antt =====
-- What an accepted signature is.
use inngestgo.Prelude.{
  ℕ, ◌≡◌, refl, ◌⊎◌, inl, inr, Bool, true, false, [], ◌∷◌, arith, ℤ, Bool-cases, Option-cases,
  is_nil,
}
use inngestgo.Signature.Query.{Bytes, bytes_eq, parse_query, get, atoi}
use inngestgo.Signature.{
  normalize_key, is_expired, check_signature, validate, sign, validate_request,
  validate_request_signature,
}

pub bytes_eq_to : (s t : Bytes) → bytes_eq s t ≡ true → s ≡ t
unfolding bytes_eq
bytes_eq_to [] [] h = refl
bytes_eq_to [] (d ∷ ds) h = cc
bytes_eq_to (c ∷ cs) [] h = cc
bytes_eq_to (c ∷ cs) (d ∷ ds) h = ground (arith, bytes_eq_to cs ds)

pub bytes_eq_refl : (s : Bytes) → bytes_eq s s ≡ true
unfolding bytes_eq
bytes_eq_refl [] = refl
bytes_eq_refl (c ∷ cs) = ground (arith, bytes_eq_refl cs)

-- The signature is the one for a time that is not expired.
abbrev pub IsSigned : (ℤ → Bytes) → ℕ → Bytes → Type 0
IsSigned signs now sig = (ts : ℤ) × (sig ≡ signs ts) × (is_expired now ts ≡ false)

check_signature-true :
    (signs : ℤ → Bytes) (now : ℕ) (sig t s : Bytes)
    → (check_signature signs now sig t s).0 ≡ true
    → IsSigned signs now sig
unfolding check_signature
check_signature-true signs now sig t s h = elim (Option-cases (atoi t)) [
  | inl e ↦ absurd (ground arith)
  | inr (ts, e) ↦ (ts, ground (arith, bytes_eq_to (signs ts) sig), ground arith)
]

validate-true :
    (signs : ℤ → Bytes) (now : ℕ) (sig : Bytes)
    → (validate signs now sig).0 ≡ true
    → IsSigned signs now sig
unfolding validate
validate-true signs now sig h = elim (Option-cases (parse_query sig)) [
  | inl e ↦ absurd (ground arith)
  | inr (q, e) ↦
      check_signature-true signs now sig (get (b't' ∷ []) q) (get (b's' ∷ []) q) (ground arith)
]

-- A request is accepted outside of dev mode only if its signature is the one that Sign makes for
-- its body, at a time not more than five minutes ago, with the signing key or, where that fails, with a
-- fallback key that is not empty; the key that is given back is the one that made it. In dev mode
-- every request is accepted, with no key.
pub validate_request_signature-true :
    (hmac_hex : Bytes → Bytes → Bytes) (transform : Bytes → Bytes) (now : ℕ)
    (sig key fallback body : Bytes) (is_dev : Bool)
    → let r = validate_request_signature hmac_hex transform now sig key fallback body is_dev in
      r.0 ≡ true
      → ((is_dev ≡ true) × (r.1 ≡ []))
        ⊎ (((r.1 ≡ key) ⊎ ((r.1 ≡ fallback) × (is_nil fallback ≡ false)))
            × IsSigned (λ ts. sign hmac_hex transform now ts (normalize_key r.1) body) now sig)
unfolding validate_request_signature validate_request
validate_request_signature-true hmac_hex transform now sig key fallback body true h =
    inl (refl, refl)
validate_request_signature-true hmac_hex transform now sig key fallback body false h =
    let signs : Bytes → ℤ → Bytes = λ k ts. sign hmac_hex transform now ts (normalize_key k) body in
    elim (Bool-cases (validate_request hmac_hex transform now sig key body).0) [
      | inl e ↦ rw e (inr (inl refl, validate-true (signs key) now sig e))
      | inr e ↦ elim (Bool-cases (is_nil fallback)) [
        | inl n ↦ absurd (ground arith)
        | inr n ↦ elim (Bool-cases (validate_request hmac_hex transform now sig fallback body).0) [
          | inl f ↦ rw (e, n, f) (inr (inr (refl, refl), validate-true (signs fallback) now sig f))
          | inr f ↦ absurd (ground arith)
        ]
      ]
    ]
