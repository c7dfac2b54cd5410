-- ===== src/Handler/Inspect/Pages.antt =====
-- What an inspection shows, and to whom.
use inngestgo.Prelude.{
  ◌≡◌, refl, ap, ◌∙◌, ◌++◌, ◌⊎◌, inl, inr, true, false, none, some, List, [], ◌∷◌, is_nil,
  Bool-cases,
}
use inngestgo.Results.{Result, ok, err, Result-cases}
use inngestgo.Http.Sent.{write_header-body}
use inngestgo.Http.{set, content_type, HttpRequest, ResponseWriter, encode, write, write_header}
use inngestgo.Handler.Core.{
  Handler, World, SecureInspection, Payload, insecure, secure, authenticate,
}
use inngestgo.Handler.Invoke.Guards.{IsAuthentic, authenticate-true}
use inngestgo.Handler.Trust.{json_type}
use inngestgo.Handler.Inspect.{create_insecure_inspection, create_secure_inspection, inspect}

-- A body that is empty or one page, which tells more only to a request that is signed, with an empty
-- body, or in dev mode.
abbrev pub IsInspection : World → Handler → HttpRequest → List Payload → Type 0
IsInspection o h r page =
    (page ≡ [])
    ⊎ ((is_nil r.signature ≡ true) × (page ≡ insecure (create_insecure_inspection o h none) ∷ []))
    ⊎ ((is_nil r.signature ≡ false)
        × (page ≡ insecure (create_insecure_inspection o h (some false)) ∷ []))
    ⊎ ((i : SecureInspection) × (create_secure_inspection o h ≡ ok i)
        × (page ≡ secure i ∷ [])
        × (is_nil r.signature ≡ false)
        × IsAuthentic o h r.signature [])

encode-body :
    (m u : Result (Unit {0})) (p : Payload) (w : ResponseWriter Payload)
    → w.body ≡ []
    → ((encode m u p w).1.body ≡ []) ⊎ ((encode m u p w).1.body ≡ p ∷ [])
unfolding encode write write_header
encode-body (err e) u p w n = inl n
encode-body (ok t) (err e) p w n = inl (write_header-body 200 w ∙ n)
encode-body (ok t) (ok u) p w n = inr (ap (λ b. b ++ p ∷ []) (write_header-body 200 w ∙ n))

-- Whoever asks, an inspection writes at most one page as its body. Without a signature the page
-- tells nothing of an authentication, and with one that fails it tells that it failed; the page with
-- the app's name, its hashed keys and its environment goes only to a request outside of dev mode
-- that one of the handler's keys signed with an empty body, or in dev mode to any signature.
pub inspect-IsInspection :
    (o : World) (h : Handler) (r : HttpRequest) (w : ResponseWriter Payload)
    → w.body ≡ []
    → IsInspection o h r (inspect o h r w).1.body
unfolding inspect
inspect-IsInspection o h r w n = elim (Bool-cases (is_nil r.signature)) [
  | inl s ↦
      let page = insecure (create_insecure_inspection o h none) in
      rw (s, inspect)
        (elim (encode-body (o.marshalled page) o.written page (set content_type json_type w) n) [
          | inl e ↦ inl e
          | inr e ↦ inr (inl (refl, e))
        ])
  | inr s ↦ elim (Bool-cases (authenticate o h r.signature []).0) [
    | inl a ↦ elim (Result-cases (create_secure_inspection o h)) [
      | inl (e, c) ↦ inl (rw (s, inspect) (rw a (rw c n)))
      | inr (i, c) ↦
          rw (s, inspect)
            (rw a (
              rw c
                (elim (encode-body (o.marshalled (secure i)) o.written (secure i)
                  (set content_type json_type w) n) [
                    | inl e ↦ inl e
                    | inr e ↦
                        inr (inr (inr (i, refl, e, refl, authenticate-true o h r.signature [] a)))
                  ])))
    ]
    | inr a ↦
        let page = insecure (create_insecure_inspection o h (some false)) in
        rw (s, inspect)
          (rw a
            (elim (encode-body (o.marshalled page) o.written page (set content_type json_type w)
              n) [ inl e ↦ inl e | inr e ↦ inr (inr (inl (refl, e))) ]))
  ]
]
