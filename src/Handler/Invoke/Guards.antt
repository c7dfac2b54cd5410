-- ===== src/Handler/Invoke/Guards.antt =====
-- What a request must have for a function to be called.
use inngestgo.Prelude.{
  ◌≤◌, ℤ, ◌≡◌, refl, sym, ap, ◌∙◌, ◌⊎◌, inl, inr, Bool, true, false, Option, none, some, arith,
  is_nil, length, Bool-cases, subst,
}
use inngestgo.Results.{Result, ok, err, ◌>>=◌, ◌>>◌}
use inngestgo.SdkRequest.{Request}
use inngestgo.Funcs.{ServableFunc}
use inngestgo.Signature.Query.{Bytes}
use inngestgo.Signature.Accepted.{IsSigned, validate_request_signature-true}
use inngestgo.Signature.{normalize_key, sign}
use inngestgo.Options.{is_dev, get_signing_key, get_signing_key_fallback}
use inngestgo.Http.{HttpRequest, read_limited, get_query, limit_of}
use inngestgo.Handler.Core.{Handler, World, authenticate, or_default_size}
use inngestgo.Handler.Invoke.{
  accept, signature_of, or_bad_request, or_missing, authorized, find_function,
}

-- The handler is in dev mode, or the signature is the one that Sign makes with one of its keys.
abbrev pub IsAuthentic : World → Handler → Bytes → Bytes → Type 0
IsAuthentic o h sig body =
    (is_dev o.environment h.opts ≡ true)
    ⊎ ((key : Bytes) × ((key ≡ get_signing_key o.environment h.opts)
          ⊎ ((key ≡ get_signing_key_fallback o.environment h.opts)
              × (is_nil (get_signing_key_fallback o.environment h.opts) ≡ false)))
        × IsSigned (λ ts. sign o.hmac_hex o.transform o.now ts (normalize_key key) body) o.now sig)

pub authenticate-true :
    (o : World) (h : Handler) (sig body : Bytes)
    → (authenticate o h sig body).0 ≡ true
    → IsAuthentic o h sig body
unfolding authenticate
authenticate-true o h sig body v =
    elim (validate_request_signature-true o.hmac_hex o.transform o.now sig
      (get_signing_key o.environment h.opts) (get_signing_key_fallback o.environment h.opts) body
      (is_dev o.environment h.opts) v) [ inl (d, k) ↦ inl d | inr (k, s) ↦ inr (_, k, s) ]

-- What each check came to, in a chain of checks that succeeds.
abbrev Passed :
    Result Bytes
    → Result Bytes
    → (Bytes → Bytes → Bool)
    → (Bytes → Result Request)
    → Option ServableFunc
    → ServableFunc
    → Request
    → Type 0
Passed signature read valid decode found f req =
    (sig : Bytes) × (body : Bytes) × (signature ≡ ok sig)
    × (read ≡ ok body)
    × (valid sig body ≡ true)
    × (decode body ≡ ok req)
    × (found ≡ some f)

-- The last two checks, and all of them.
abbrev ending : Result Request → Option ServableFunc → Result (ServableFunc × Request)
ending decoded found = do q ← or_bad_request decoded; g ← or_missing found; ok (g, q)

abbrev chain :
    Result Bytes
    → Result Bytes
    → (Bytes → Bytes → Bool)
    → (Bytes → Result Request)
    → Option ServableFunc
    → Result (ServableFunc × Request)
chain signature read valid decode found = do
  sig ← signature
  body ← or_bad_request read
  authorized (valid sig body)
  ending (decode body) found

decoded-ok :
    (decoded : Result Request) (found : Option ServableFunc) (f : ServableFunc) (req : Request)
    → ending decoded found ≡ ok (f, req)
    → (decoded ≡ ok req) × (found ≡ some f)
decoded-ok (err e) found f req h = absurd cc
decoded-ok (ok q) none f req h = absurd cc
decoded-ok (ok q) (some g) f req h = (ground arith, ground arith)

Passed_lem :
    (signature read : Result Bytes) (valid : Bytes → Bytes → Bool) (decode : Bytes → Result Request)
    (found : Option ServableFunc) (f : ServableFunc) (req : Request)
    → chain signature read valid decode found ≡ ok (f, req)
    → Passed signature read valid decode found f req
Passed_lem (err e) read valid decode found f req h = absurd cc
Passed_lem (ok sig) (err e) valid decode found f req h = absurd cc
Passed_lem (ok sig) (ok body) valid decode found f req h = elim (Bool-cases (valid sig body)) [
  | inl v ↦
      let (d, m) =
        decoded-ok (decode body) found f req
          (subst (λ b. (authorized b >> ending (decode body) found) ≡ ok (f, req)) v h) in
      (sig, body, refl, refl, v, d, m)
  | inr v ↦ absurd (ground arith)
]

accept-ok :
    (o : World) (h : Handler) (r : HttpRequest) (f : ServableFunc) (req : Request)
    → accept o h r ≡ ok (f, req)
    → Passed
        (signature_of o h r)
        (read_limited (or_default_size h.opts.max_body_size) r)
        (λ sig body. (authenticate o h sig body).0)
        o.decode
        (find_function o.slug_make h.app_name (get_query "fnId" r.query) h.funcs)
        f
        req
unfolding accept
accept-ok o h r f req a =
    Passed_lem (signature_of o h r) (read_limited (or_default_size h.opts.max_body_size) r)
      (λ sig body. (authenticate o h sig body).0) o.decode
      (find_function o.slug_make h.app_name (get_query "fnId" r.query) h.funcs) f req a

signature_of-ok :
    (o : World) (h : Handler) (r : HttpRequest) (sig : Bytes)
    → signature_of o h r ≡ ok sig
    → (is_dev o.environment h.opts ≡ true) ⊎ (sig ≡ r.signature)
unfolding signature_of
signature_of-ok o h r sig s = ground arith

pub read_limited-ok :
    (limit : ℤ) (r : HttpRequest) (body : Bytes)
    → read_limited limit r ≡ ok body
    → (length r.body ≤ limit_of limit) × (r.body ≡ body)
unfolding read_limited
read_limited-ok limit r body h = ground arith

IsAuthentic-dev :
    (o : World) (h : Handler) (sig sent body : Bytes)
    → (is_dev o.environment h.opts ≡ true) ⊎ (sig ≡ sent)
    → IsAuthentic o h sig body
    → IsAuthentic o h sent body
IsAuthentic-dev o h sig sent body (inl d) a = inl d
IsAuthentic-dev o h sig sent body (inr e) a = subst (λ s. IsAuthentic o h s body) e a

-- A function is called only in dev mode, or for a request with the signature that Sign makes for its
-- body, at a time not more than five minutes ago, with the handler's signing key or with its
-- fallback key if that is not empty. The body is then not longer than the limit, the function gets
-- the request that it decodes to, and is the one that the parameter fnId stands for.
pub accept-IsAuthentic :
    (o : World) (h : Handler) (r : HttpRequest) (f : ServableFunc) (req : Request)
    → accept o h r ≡ ok (f, req)
    → IsAuthentic o h r.signature r.body
      × (length r.body ≤ limit_of (or_default_size h.opts.max_body_size))
      × (o.decode r.body ≡ ok req)
      × (find_function o.slug_make h.app_name (get_query "fnId" r.query) h.funcs ≡ some f)
accept-IsAuthentic o h r f req a =
    let (sig, body, s, read, v, d, found) = accept-ok o h r f req a in
    let (short, same) = read_limited-ok (or_default_size h.opts.max_body_size) r body read in
    (
      subst (IsAuthentic o h r.signature) (sym same) (
          IsAuthentic-dev o h sig r.signature body (signature_of-ok o h r sig s)
            (authenticate-true o h sig body v)),
      short,
      ap o.decode same ∙ d,
      found,
    )
