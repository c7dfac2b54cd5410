-- ===== src/Handler/Fetch.antt =====
-- net.go: a request to the API with a signing key, and again with the fallback key. The answer to
-- each request is a parameter, by how many were made before it.
pub mod Requests
use inngestgo.Prelude.{
  ℕ, Bool, true, false, ◌&&◌, ◌||◌, not, List, [], ◌∷◌, is_nil, ◌==◌, if◌then◌else◌,
}
use inngestgo.Results.{Result, ok, err, plain, ◌>>=◌}
use inngestgo.Signature.Query.{Bytes}
use inngestgo.Options.{Url}
use inngestgo.Http.{Headers, set_header, authorization, bytes}

pub record OutRequest (P : Type 0) : Type 0 where
  pub url : Url
  pub headers : Headers
  pub body : P

-- http.Response, with what json.Unmarshal makes of its body, for a map.
pub record OutResponse : Type 0 where
  pub status_code : ℕ
  pub body : Result (Unit {0})

module _ {P : Type 0} (hash : Bytes → Result Bytes) (create : Result (OutRequest P))
    (does : ℕ → OutRequest P → Result OutResponse) where
  abbrev pub with_key : Bytes → OutRequest P → OutRequest P
  with_key key req = record req { headers = set_header authorization (bytes key) req.headers }

  -- The request with a key, or without one if the key is empty.
  unfoldable pub signed_request : Bytes → Result (OutRequest P)
  signed_request [] = plain "error creating request" create
  signed_request (c ∷ cs) = plain "error creating request" create >>= λ req.
      plain "error creating signing key" (hash (c ∷ cs)) >>= λ key. ok (with_key key req)

  -- 401 or 403
  abbrev pub is_denied : OutResponse → Bool
  is_denied resp = resp.status_code == 401 || resp.status_code == 403

  unfoldable pub fetch_fallback : Bytes → OutRequest P → List (OutRequest P) × Result OutResponse
  unfolding signed_request
  fetch_fallback fallback first = elim (signed_request fallback) [
    | err e ↦ (first ∷ [], err e)
    | ok req ↦ (first ∷ req ∷ [], plain "error making request" (does 1 req))
  ]

  -- The requests that are made, in order, with the result.
  unfoldable pub fetch_with_auth_fallback : Bytes → Bytes → List (OutRequest P) × Result OutResponse
  unfolding signed_request fetch_fallback
  fetch_with_auth_fallback key fallback = elim (signed_request key) [
    | err e ↦ ([], err e)
    | ok req ↦ elim (plain "error making request" (does 0 req)) [
      | err e ↦ (req ∷ [], err e)
      | ok resp ↦
          if is_denied resp && not (is_nil fallback)
          then fetch_fallback fallback req
          else (req ∷ [], ok resp)
    ]
  ]
