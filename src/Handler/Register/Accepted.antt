-- ===== src/Handler/Register/Accepted.antt =====
-- What a registration that succeeds has sent.
use inngestgo.Prelude.{
  String, ℕ, ◌≤◌, ◌≡◌, refl, sym, ap, ◌∙◌, inl, inr, false, some, Option-cases, List, [], ◌∷◌, ◌++◌,
  arith, subst,
}
use inngestgo.Results.{Result, ok, err, plain, ◌>>=◌, Result-cases}
use inngestgo.Signature.Query.{Bytes}
use inngestgo.Signature.Hashed.{hashed_signing_key}
use inngestgo.Options.{Url, get_signing_key, get_signing_key_fallback}
use inngestgo.Http.{HttpRequest, ResponseWriter}
use inngestgo.Handler.Core.{Handler, World, Payload, answers}
use inngestgo.Handler.Configs.{SdkFunction, create_function_configs}
use inngestgo.Handler.Configs.Listed.{Listed, create_function_configs-Listed}
use inngestgo.Handler.Fetch.{
  OutRequest, OutResponse, signed_request, with_key, fetch_with_auth_fallback,
}
use inngestgo.Handler.Fetch.Requests.{IsFetch, fetch_with_auth_fallback-IsFetch}
use inngestgo.Handler.Sync.{RegisterRequest, SyncWorld}
use inngestgo.Handler.Register.{
  url_of, register_url, or_no_request, register_request, create_request, fetched, out_of_band_sync,
}

plain-ok {ℓ} : {A : Type ℓ} (what : String) (x : Result A) (a : A) → plain what x ≡ ok a → x ≡ ok a
plain-ok what (ok b) a h = h
plain-ok what (err e) a h = absurd cc

-- The parts of a chain that succeeds.
bind-ok {κ ℓ} :
    {T : Type κ} {U : Type ℓ} (what : String) (x : Result T) (next : T → Result U) (u : U)
    → (plain what x >>= next) ≡ ok u
    → (t : T) × (x ≡ ok t) × (next t ≡ ok u)
bind-ok what (ok t) next u h = (t, refl, h)
bind-ok what (err e) next u h = absurd cc

module _ {P : Type 0} (hash : Bytes → Result Bytes) (create : Result (OutRequest P))
    (does : ℕ → OutRequest P → Result OutResponse) where
  -- A request with the body of the one that is created.
  abbrev HasBody : OutRequest P → Type 0
  HasBody req = (base : OutRequest P) × (create ≡ ok base) × (req.body ≡ base.body)

  abbrev body_or : P → Result (OutRequest P) → P
  body_or body (ok req) = req.body
  body_or body (err e) = body

  HasBody-hashed :
      (base : OutRequest P) (hashed : Result Bytes) (req : OutRequest P)
      → (hashed >>= λ key. ok (with_key hash create does key base)) ≡ ok req
      → req.body ≡ base.body
  HasBody-hashed base (ok key) req h = sym (ap (body_or base.body) h)
  HasBody-hashed base (err e) req h = absurd cc

  signed_request-HasBody :
      (key : Bytes) (req : OutRequest P)
      → signed_request hash create does key ≡ ok req
      → HasBody req
  unfolding signed_request
  signed_request-HasBody [] req h = (req, plain-ok "error creating request" create req h, refl)
  signed_request-HasBody (c ∷ cs) req h =
      let (base, e, rest) = bind-ok "error creating request" create _ req h in
      (base, e, HasBody-hashed base (plain "error creating signing key" (hash (c ∷ cs))) req rest)

  -- The last of the requests, which the API answered.
  abbrev IsAnswered : List (OutRequest P) → OutResponse → Type 0
  IsAnswered requests resp =
      (n : ℕ) × (before : List (OutRequest P)) × (req : OutRequest P) × (requests
        ≡ before ++ req ∷ [])
      × (does n req ≡ ok resp)
      × HasBody req

  IsFetch-IsAnswered :
      (key fallback : Bytes) (requests : List (OutRequest P)) (resp : OutResponse)
      → IsFetch hash create does key fallback requests (ok resp)
      → IsAnswered requests resp
  IsFetch-IsAnswered key fallback [] resp (e, s, r) = absurd cc
  IsFetch-IsAnswered key fallback (first ∷ []) resp (s, inl r) = (
    0,
    [],
    first,
    refl,
    plain-ok "error making request" (does 0 first) resp (sym r),
    signed_request-HasBody key first s,
  )
  IsFetch-IsAnswered key fallback (first ∷ []) resp (s, inr (e, r, x)) = absurd cc
  IsFetch-IsAnswered key fallback (first ∷ again ∷ []) resp (s, t, f, d, r) = (
    1,
    first ∷ [],
    again,
    refl,
    plain-ok "error making request" (does 1 again) resp (sym r),
    signed_request-HasBody fallback again t,
  )
  IsFetch-IsAnswered key fallback (first ∷ again ∷ more ∷ rest) resp h = absurd h

module _ (o : World) (s : SyncWorld) (h : Handler) (r : HttpRequest) where
  abbrev key : Bytes
  key = get_signing_key o.environment h.opts

  abbrev fallback : Bytes
  fallback = get_signing_key_fallback o.environment h.opts

  abbrev creates : List SdkFunction → Result (OutRequest RegisterRequest)
  creates fns = create_request o s h r (register_request o h r fns)

  abbrev functions_or : List SdkFunction → Result (OutRequest RegisterRequest) → List SdkFunction
  functions_or fns (ok req) = req.body.functions
  functions_or fns (err e) = fns

  create_request-functions :
      (fns : List SdkFunction) (base : OutRequest RegisterRequest)
      → creates fns ≡ ok base
      → base.body.functions ≡ fns
  unfolding create_request register_request
  create_request-functions fns base e =
      let (t, m, made) = bind-ok "error marshalling function config" s.config_marshalled _ base e in
      let (u, p, rest) =
        bind-ok "error creating new request" (or_no_request (o.parse_url (register_url o h))) _ base
          made in
      sym (ap (functions_or fns) rest)

  -- The answer is a success only if the API accepted the request.
  fetched-ok :
      (result : Result OutResponse) (w v : ResponseWriter Payload)
      → fetched result w ≡ answers (ok tt) v
      → (resp : OutResponse) × (result ≡ ok resp) × (resp.status_code ≤ 299)
  fetched-ok (err e) w v a = absurd (ground arith)
  fetched-ok (ok resp) w v a = (resp, refl, ground arith)

  -- A request for which the API's answer is a success, and that lists the functions.
  abbrev pub IsRegistered : List (OutRequest RegisterRequest) → Type 0
  IsRegistered requests =
      (u : Url) × (fns : List SdkFunction) × (n : ℕ) × (before : List (OutRequest RegisterRequest))
      × (req : OutRequest RegisterRequest) × (resp : OutResponse) × (url_of o h r ≡ some u)
      × Listed o.duration_text o.slug_make o.url_text h.app_name u h.funcs fns
      × (requests ≡ before ++ req ∷ [])
      × (req.body.functions ≡ fns)
      × (s.does n req ≡ ok resp)
      × (resp.status_code ≤ 299)

  IsRegistered-fetched :
      (u : Url) (fns : List SdkFunction) (w v : ResponseWriter Payload)
      → url_of o h r ≡ some u
      → create_function_configs o.duration_text o.slug_make o.url_text h.app_name h.funcs u false
        ≡ some (ok fns)
      → let sent =
          fetch_with_auth_fallback
            (hashed_signing_key o.sha256_hex)
            (creates fns)
            s.does
            key
            fallback in
        fetched sent.1 w ≡ answers (ok tt) v → IsRegistered sent.0
  IsRegistered-fetched u fns w v q c a =
      let hash = hashed_signing_key o.sha256_hex in
      let sent = fetch_with_auth_fallback hash (creates fns) s.does key fallback in
      let (resp, e, l) = fetched-ok sent.1 w v a in
      let (n, before, req, shape, d, (base, made, same)) =
        IsFetch-IsAnswered hash (creates fns) s.does key fallback sent.0 resp (
          subst (IsFetch hash (creates fns) s.does key fallback sent.0) e
            (fetch_with_auth_fallback-IsFetch hash (creates fns) s.does key fallback)) in
      (
        u,
        fns,
        n,
        before,
        req,
        resp,
        q,
        create_function_configs-Listed o.duration_text o.slug_make o.url_text h.app_name h.funcs u
            false fns c,
        shape,
        ap (λ (b : RegisterRequest). b.functions) same ∙ create_request-functions fns base made,
        d,
        l,
      )

  -- The requests and the answer, where there is a URL and the configurations are made.
  out_of_band_sync-sent :
      (u : Url) (fns : List SdkFunction) (w : ResponseWriter Payload)
      → url_of o h r ≡ some u
      → create_function_configs o.duration_text o.slug_make o.url_text h.app_name h.funcs u false
        ≡ some (ok fns)
      → let sent =
          fetch_with_auth_fallback
            (hashed_signing_key o.sha256_hex)
            (creates fns)
            s.does
            key
            fallback in
        out_of_band_sync o s h r w ≡ (sent.0, fetched sent.1 w)
  unfolding out_of_band_sync
  out_of_band_sync-sent u fns w q c = rw (q, out_of_band_sync) (rw c refl)

  -- A registration out of band reports a success only if the API answered its last request with a
  -- status of at most 299, and this request lists every function of the handler with a
  -- configuration for it.
  pub out_of_band_sync-IsRegistered :
      (w v : ResponseWriter Payload)
      → (out_of_band_sync o s h r w).1 ≡ answers (ok tt) v
      → IsRegistered (out_of_band_sync o s h r w).0
  unfolding out_of_band_sync
  out_of_band_sync-IsRegistered w v a = elim (Option-cases (url_of o h r)) [
    | inl q ↦ absurd (ground arith)
    | inr (u, q) ↦
        elim (Option-cases (
          create_function_configs o.duration_text o.slug_make o.url_text h.app_name h.funcs u
            false)) [
              | inl c ↦ absurd (ground arith)
              | inr (configs, c) ↦ elim (Result-cases configs) [
                | inl (e, k) ↦ absurd (ground arith)
                | inr (fns, k) ↦
                    let made = c ∙ ap (λ k. some k) k in
                    let sent = out_of_band_sync-sent u fns w q made in
                    subst (λ x. IsRegistered x.0) (sym sent)
                      (IsRegistered-fetched u fns w v q made (sym (ap (λ x. x.1) sent) ∙ a))
              ]
            ]
  ]
