-- ===== src/Handler/Sync/Signed.antt =====
-- The responses that a handler signs, and the signatures' check on the other side.
use inngestgo.Prelude.{
  ℕ, ◌<◌, ◌^◌, ◌≡◌, refl, ◌∙◌, true, false, none, some, List, [], ◌∷◌, ◌++◌, pos, lookup, insert,
  Map,
}
use inngestgo.Results.{ok}
use inngestgo.Signature.Query.{Bytes}
use inngestgo.Signature.RoundTrip.{IsHex, validate_response_signature-sign}
use inngestgo.Signature.{
  normalize_key, is_expired, sign_without_jcs, validate_response_signature, trim_newline,
}
use inngestgo.Options.{Url, is_dev}
use inngestgo.Http.{
  HttpRequest, ResponseWriter, HeaderValue, bytes, words, signature_header, set_basic_headers,
  write, write_header, encode, add_header, add, content_type, sync_kind_header,
}
use inngestgo.Handler.Core.{Handler, World, Payload, raw, answers}
use inngestgo.Handler.Trust.{json_type, trust, trust_key, trust_probe_response}
use inngestgo.Handler.Configs.{SdkFunction, create_function_configs}
use inngestgo.Handler.Sync.{
  SyncWorld, InBandSynchronizeResponse, accept_sync, sync_response, send_signed, in_band_sync,
}
use inngestgo.Handler.Serve.{basic_writer}

-- The one part of the body that was sent with the status, which has a signature that the holder of
-- the key accepts for it.
abbrev pub IsSignedResponse :
    (Bytes → Bytes → Bytes) → (later : ℕ) → (key : Bytes) → ResponseWriter Payload → Bytes → Type 0
IsSignedResponse hmac_hex later key w page =
    (sig : Bytes) × (headers : Map (List HeaderValue)) × (w.sent ≡ some (200, headers))
    × (w.body ≡ raw page ∷ [])
    × (lookup signature_header headers ≡ some (bytes sig ∷ []))
    × (validate_response_signature hmac_hex later sig key page ≡ (true, none))

-- What a key and a time must be for signatures with them to be accepted later.
abbrev pub CanSign : (Bytes → Bytes → Bytes) → (later at : ℕ) → Bytes → Type 0
CanSign hmac_hex later at key =
    IsHex hmac_hex
    × (normalize_key (normalize_key key) ≡ normalize_key key)
    × (at < 2 ^ 63)
    × (is_expired later (pos at) ≡ false)

trust_response-accepted :
    (hmac_hex : Bytes → Bytes → Bytes) (now later at : ℕ) (key : Bytes)
    → CanSign hmac_hex later at key
    → validate_response_signature hmac_hex later
        (sign_without_jcs hmac_hex now (pos at) key trust_probe_response)
        key
        trust_probe_response
      ≡ (true, none)
unfolding validate_response_signature trim_newline
trust_response-accepted hmac_hex now later at key (x, s, l, e) =
    validate_response_signature-sign hmac_hex now later at key trust_probe_response x s l e

-- Outside of dev mode, a trust probe that is signed with a key of the handler gets 200 and a body
-- with a signature that is accepted with that key at any time up to five minutes after it was made,
-- if the response can be written, the time has a 64-bit Unix time, and removing the key's prefix
-- leaves no second prefix.
pub trust-signed :
    (o : World) (at later : ℕ) (h : Handler) (r : HttpRequest) (key : Bytes)
    → is_dev o.environment h.opts ≡ false
    → trust_key o h r ≡ ok key
    → o.written ≡ ok tt
    → CanSign o.hmac_hex later at key
    → (w : ResponseWriter Payload) × (trust o at h r basic_writer ≡ (ok tt, w))
      × IsSignedResponse o.hmac_hex later key w trust_probe_response
unfolding trust basic_writer set_basic_headers write write_header add_header lookup insert
trust-signed o at later h r key d k u c =
    let sig = sign_without_jcs o.hmac_hex o.now (pos at) key trust_probe_response in
    let w = add signature_header (bytes sig) (add content_type json_type basic_writer) in
    (
      write (raw trust_probe_response) (write_header 200 w),
      rw (k, trust) (rw (d, u) refl),
      (sig, w.headers, refl, refl, refl, trust_response-accepted o.hmac_hex o.now later at key c),
    )

-- What an in-band sync needs to be answered with its response.
abbrev pub IsAnswered : World → SyncWorld → Handler → HttpRequest → (key json : Bytes) → Type 0
IsAnswered o s h r key json =
    (u : Url) × (fns : List SdkFunction) × (resp : InBandSynchronizeResponse) × (accept_sync o s h r
      ≡ ok (key, u))
    × (create_function_configs o.duration_text o.slug_make o.url_text h.app_name h.funcs u false
        ≡ some (ok fns))
    × (sync_response o s h u fns ≡ ok resp)
    × (s.marshal_response resp ≡ ok json)

in_band_sync-sent :
    (o : World) (s : SyncWorld) (h : Handler) (r : HttpRequest) (key json : Bytes)
    (w : ResponseWriter Payload)
    → IsAnswered o s h r key json
    → in_band_sync o s h r w ≡ send_signed o s key (ok json) w
unfolding in_band_sync
in_band_sync-sent o s h r key json w (u, fns, resp, a, c, p, m) =
    rw (a, in_band_sync) (rw c (rw p (rw m refl)))

-- An in-band sync that is accepted, and whose response is made and can be written, gets 200 and the
-- response's JSON, with a newline behind it and a signature that is accepted for all of it with the
-- key of the request at any time up to five minutes after it was made, if the time has a 64-bit Unix
-- time and removing the key's prefix leaves no second prefix.
pub in_band_sync-signed :
    (o : World) (s : SyncWorld) (later : ℕ) (h : Handler) (r : HttpRequest) (key json : Bytes)
    → IsAnswered o s h r key json
    → o.written ≡ ok tt
    → CanSign o.hmac_hex later s.signed_at key
    → (w : ResponseWriter Payload) × (in_band_sync o s h r basic_writer ≡ answers (ok tt) w)
      × IsSignedResponse o.hmac_hex later key w (json ++ 10 ∷ [])
unfolding send_signed basic_writer set_basic_headers encode write write_header add_header lookup
    insert
in_band_sync-signed o s later h r key json a u (x, n, l, e) =
    let sig = sign_without_jcs o.hmac_hex o.now (pos s.signed_at) key json in
    let w =
      add sync_kind_header (words "in_band")
        (add content_type json_type (add signature_header (bytes sig) basic_writer)) in
    (
      write (raw (json ++ 10 ∷ [])) w,
      in_band_sync-sent o s h r key json basic_writer a ∙ rw u refl,
      (
        sig,
        w.headers,
        refl,
        refl,
        refl,
        validate_response_signature-sign o.hmac_hex o.now later s.signed_at key json x n l e,
      ),
    )
