-- ===== src/Handler/Trust.antt =====
-- handler.go: the trust probe, which asks the handler for a response that it signs.
use inngestgo.Prelude.{
  ℕ, String, Bool, true, false, Option, none, some, [], ◌∷◌, pos, is_nil, if◌then◌else◌,
}
use inngestgo.Errors.{Error, public}
use inngestgo.Results.{Result, ok, err, ◌>>=◌}
use inngestgo.Signature.Query.{Bytes}
use inngestgo.Signature.{sign_without_jcs}
use inngestgo.Options.{is_dev}
use inngestgo.Http.{
  HttpRequest, ResponseWriter, HeaderValue, words, bytes, read_limited, write_header, write, add,
  content_type, signature_header,
}
use inngestgo.Handler.Core.{Handler, World, Payload, raw, authenticate, or_default_size}

abbrev pub json_type : HeaderValue
json_type = words "application/json"

-- trustProbeResponse{} as JSON.
abbrev pub trust_probe_response : Bytes
trust_probe_response = b'{' ∷ b'}' ∷ []

abbrev refuse {ℓ} : {A : Type ℓ} → ℕ → String → Result A
refuse status message = err (public status message)

abbrev or_public {ℓ} : {A : Type ℓ} → ℕ → String → Result A → Result A
or_public status message (ok a) = ok a
or_public status message (err e) = err (public status message)

-- The key of a request that is signed with one, by what the validation gives.
abbrev key_of : Bool × Bytes × Option Error → Result Bytes
key_of (valid, key, some e) = refuse 401 "error validating signature"
key_of (true, key, none) = ok key
key_of (false, key, none) = refuse 401 "invalid signature"

-- What comes before the probe's response is signed: the key for it.
unfoldable pub trust_key : World → Handler → HttpRequest → Result Bytes
unfolding authenticate read_limited
trust_key o h r =
    if is_nil r.signature then refuse 401 "missing X-Inngest-Signature header" else (do
      body ←
          or_public 400 "error decoding function request"
            (read_limited (or_default_size h.opts.max_body_size) r)
      key_of (authenticate o h r.signature body))

-- The response is signed at the time `at`, in seconds.
unfoldable pub trust :
    World
    → (at : ℕ) → Handler
    → HttpRequest
    → ResponseWriter Payload
    → Result (Unit {0}) × ResponseWriter Payload
unfolding trust_key sign_without_jcs write_header write
trust o at h r w =
    let typed = add content_type json_type w in
    if is_dev o.environment h.opts then (ok tt, write_header 200 w) else (elim (trust_key o h r) [
      | err e ↦ (err e, typed)
      | ok key ↦
          let sig = sign_without_jcs o.hmac_hex o.now (pos at) key trust_probe_response in
          let signed = write_header 200 (add signature_header (bytes sig) typed) in
          (
            ok tt,
            elim o.written [ ok t ↦ write (raw trust_probe_response) signed | err e ↦ signed ],
          )
    ])
