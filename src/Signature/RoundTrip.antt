-- ===== src/Signature/RoundTrip.antt =====
-- A signature that Sign makes is accepted.
use inngestgo.Prelude.{
  ℕ, ◌^◌, ◌<◌, ◌≡◌, refl, ◌∙◌, ap, true, false, none, some, [], ◌∷◌, ◌++◌, arith, ℤ, pos, is_nil,
  if◌then◌else◌,
}
use inngestgo.Signature.Query.{Bytes, bytes_eq, get, atoi, int_text}
use inngestgo.Signature.Accepted.{bytes_eq_refl}
use inngestgo.Signature.{
  normalize_key, is_expired, check_signature, validate, sign, sign_without_jcs, validate_request,
  signature_text, trim_newline, validate_response_signature,
}
use inngestgo.Signature.Parsing.{
  AllPlain, parse_signature, int_text-AllPlain, atoi-int_text, int_text-is_nil,
}

check_signature-signs :
    (signs : ℤ → Bytes) (now n : ℕ) (sig t s : Bytes)
    → signs (pos n) ≡ sig
    → atoi t ≡ some (pos n)
    → is_nil t ≡ false
    → is_nil s ≡ false
    → is_expired now (pos n) ≡ false
    → check_signature signs now sig t s ≡ (true, none)
unfolding check_signature
check_signature-signs signs now n sig t s e a d f x =
    rw (d, f, check_signature)
      (rw (a, check_signature) (ground (arith, ap (λ k. bytes_eq k sig) e ∙ bytes_eq_refl sig)))

-- The signature with a time and a digest is accepted if it is the one that is made for the time.
validate-signature_text :
    (signs : ℤ → Bytes) (now n : ℕ) (digest : Bytes)
    → signs (pos n) ≡ signature_text (pos n) digest
    → AllPlain digest
    → is_nil digest ≡ false
    → n < 2 ^ 63
    → is_expired now (pos n) ≡ false
    → validate signs now (signature_text (pos n) digest) ≡ (true, none)
unfolding validate get bytes_eq
validate-signature_text signs now n digest e p d h x =
    let parsed = parse_signature (int_text (pos n)) digest (int_text-AllPlain n) p in
    rw (parsed, validate)
      (check_signature-signs signs now n _ (int_text (pos n)) digest e (atoi-int_text n h)
        (int_text-is_nil n) d x)

-- The digest of an HMAC is some text of digits and small letters.
abbrev pub IsHex : (Bytes → Bytes → Bytes) → Type 0
IsHex hmac_hex =
    (key message : Bytes)
    → AllPlain (hmac_hex key message) × (is_nil (hmac_hex key message) ≡ false)

sign_without_jcs_pos :
    (hmac_hex : Bytes → Bytes → Bytes) (now n : ℕ) (key body : Bytes)
    → sign_without_jcs hmac_hex now (pos n) key body
      ≡ signature_text (pos n) (hmac_hex (normalize_key key) (body ++ int_text (pos n)))
unfolding sign_without_jcs
sign_without_jcs_pos hmac_hex now n key body = refl

sign_pos :
    (hmac_hex : Bytes → Bytes → Bytes) (transform : Bytes → Bytes) (now n : ℕ) (key body : Bytes)
    → sign hmac_hex transform now (pos n) key body
      ≡ signature_text (pos n) (
          hmac_hex
            (normalize_key key)
            ((if is_nil body then body else transform body) ++ int_text (pos n)))
unfolding sign
sign_pos hmac_hex transform now n key body = refl

-- A signature that Sign made for a body, at a time that has a 64-bit Unix time and is not more than
-- five minutes ago, is accepted for the body with the same key, if removing the key's prefix leaves
-- no second prefix.
pub validate_request-sign :
    (hmac_hex : Bytes → Bytes → Bytes) (transform : Bytes → Bytes) (earlier now n : ℕ)
    (key body : Bytes)
    → IsHex hmac_hex
    → normalize_key (normalize_key key) ≡ normalize_key key
    → n < 2 ^ 63
    → is_expired now (pos n) ≡ false
    → validate_request hmac_hex transform now
        (sign hmac_hex transform earlier (pos n) key body)
        key
        body
      ≡ (true, none)
unfolding validate_request
validate_request-sign hmac_hex transform earlier now n key body hex stable h x =
    let sent = if is_nil body then body else transform body in
    let digest = hmac_hex (normalize_key key) (sent ++ int_text (pos n)) in
    ap (λ s. validate_request hmac_hex transform now s key body)
      (sign_pos hmac_hex transform earlier n key body)
    ∙ validate-signature_text (λ ts. sign hmac_hex transform now ts (normalize_key key) body) now n
        digest
        (sign_pos hmac_hex transform now n (normalize_key key) body
          ∙ ap (λ k. signature_text (pos n) (hmac_hex k (sent ++ int_text (pos n)))) stable)
        (hex _ _).0 (hex _ _).1 h x

trim_newline_lem : (body : Bytes) → trim_newline (body ++ 10 ∷ []) ≡ body
unfolding trim_newline
trim_newline_lem [] = refl
trim_newline_lem (c ∷ []) = refl
trim_newline_lem (c ∷ d ∷ s) = ap (λ r. c ∷ r) (trim_newline_lem (d ∷ s))

-- A signature that was made for a response body without canonicalization is accepted, under the same
-- conditions as for a request, for the body with one newline behind it.
pub validate_response_signature-sign :
    (hmac_hex : Bytes → Bytes → Bytes) (earlier now n : ℕ) (key body : Bytes)
    → IsHex hmac_hex
    → normalize_key (normalize_key key) ≡ normalize_key key
    → n < 2 ^ 63
    → is_expired now (pos n) ≡ false
    → validate_response_signature hmac_hex now
        (sign_without_jcs hmac_hex earlier (pos n) key body)
        key
        (body ++ 10 ∷ [])
      ≡ (true, none)
unfolding validate_response_signature
validate_response_signature-sign hmac_hex earlier now n key body hex stable h x =
    let digest = hmac_hex (normalize_key key) (body ++ int_text (pos n)) in
    ap (λ s. validate_response_signature hmac_hex now s key (body ++ 10 ∷ []))
      (sign_without_jcs_pos hmac_hex earlier n key body)
    ∙ validate-signature_text
        (λ ts.
          sign_without_jcs hmac_hex now ts (normalize_key key) (trim_newline (body ++ 10 ∷ [])))
        now n digest
        (sign_without_jcs_pos hmac_hex now n (normalize_key key) _
          ∙ ap
              (λ k.
                signature_text (pos n)
                  (hmac_hex k (trim_newline (body ++ 10 ∷ []) ++ int_text (pos n))))
              stable
          ∙ ap (λ b. signature_text (pos n) (hmac_hex (normalize_key key) (b ++ int_text (pos n))))
              (trim_newline_lem body))
        (hex _ _).0 (hex _ _).1 h x
