-- ===== src/Handler/Fetch/Requests.antt =====
-- The requests that are made with a signing key and its fallback.
use inngestgo.Prelude.{ℕ, ◌≡◌, refl, ◌⊎◌, inl, inr, true, false, List, [], ◌∷◌, is_nil, Bool-cases}
use inngestgo.Errors.{Error}
use inngestgo.Results.{Result, ok, err, plain, Result-cases}
use inngestgo.Signature.Query.{Bytes}
use inngestgo.Handler.Fetch.{
  OutRequest, OutResponse, signed_request, is_denied, fetch_fallback, fetch_with_auth_fallback,
}

module _ {P : Type 0} (hash : Bytes → Result Bytes) (create : Result (OutRequest P))
    (does : ℕ → OutRequest P → Result OutResponse) where
  -- The requests, with the result: none is made if the first cannot be created; the first one is
  -- with the key, and the second one, with the fallback, only if there is a fallback and the first
  -- one was denied.
  abbrev pub IsFetch : Bytes → Bytes → List (OutRequest P) → Result OutResponse → Type 0
  IsFetch key fallback [] result =
      (e : Error) × (signed_request hash create does key ≡ err e) × (result ≡ err e)
  IsFetch key fallback (first ∷ []) result =
      (signed_request hash create does key ≡ ok first)
      × ((result ≡ plain "error making request" (does 0 first))
          ⊎ ((e : Error) × (result ≡ err e) × (signed_request hash create does fallback ≡ err e)))
  IsFetch key fallback (first ∷ again ∷ []) result =
      (signed_request hash create does key ≡ ok first)
      × (signed_request hash create does fallback ≡ ok again)
      × (is_nil fallback ≡ false)
      × ((resp : OutResponse) × (does 0 first ≡ ok resp) × (is_denied hash create does resp ≡ true))
      × (result ≡ plain "error making request" (does 1 again))
  IsFetch key fallback (first ∷ again ∷ more ∷ rest) result = ⊥

  IsFetch-denied :
      (key fallback : Bytes) (first : OutRequest P) (resp : OutResponse)
      → signed_request hash create does key ≡ ok first
      → does 0 first ≡ ok resp
      → is_denied hash create does resp ≡ true
      → is_nil fallback ≡ false
      → let r = fetch_fallback hash create does fallback first in IsFetch key fallback r.0 r.1
  unfolding fetch_fallback
  IsFetch-denied key fallback first resp s d n f =
      elim (Result-cases (signed_request hash create does fallback)) [
        | inl (e, q) ↦ rw (q, fetch_fallback) (s, inr (e, refl, q))
        | inr (again, q) ↦ rw (q, fetch_fallback) (s, q, f, (resp, d, n), refl)
      ]

  -- At most two requests are made: the first one with the key, and a second one with the fallback
  -- only if the fallback is set and the first one was answered 401 or 403. The result is the answer
  -- to the last one, or the error that stopped it.
  pub fetch_with_auth_fallback-IsFetch :
      (key fallback : Bytes)
      → let r = fetch_with_auth_fallback hash create does key fallback in
        IsFetch key fallback r.0 r.1
  unfolding fetch_with_auth_fallback
  fetch_with_auth_fallback-IsFetch key fallback =
      elim (Result-cases (signed_request hash create does key)) [
        | inl (e, s) ↦ rw (s, fetch_with_auth_fallback) (e, s, refl)
        | inr (first, s) ↦ elim (Result-cases (does 0 first)) [
          | inl (e, d) ↦ rw (s, fetch_with_auth_fallback) (rw d (s, inl (rw d refl)))
          | inr (resp, d) ↦ elim (Bool-cases (is_denied hash create does resp)) [
            | inl n ↦ elim (Bool-cases (is_nil fallback)) [
              | inl f ↦ rw (s, fetch_with_auth_fallback) (rw d (rw (n, f) (s, inl (rw d refl))))
              | inr f ↦
                  rw (s, fetch_with_auth_fallback)
                    (rw d (rw (n, f) (IsFetch-denied key fallback first resp s d n f)))
            ]
            | inr n ↦ rw (s, fetch_with_auth_fallback) (rw d (rw n (s, inl (rw d refl))))
          ]
        ]
      ]
