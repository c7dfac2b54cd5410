-- ===== src/Signature/Tests.antt =====
-- The theorems about signatures, for one key, body and time. One letter stands for every digest.
use inngestgo.Prelude.{ℕ, ◌<◌, ◌≡◌, ◌^◌, refl, ◌⊎◌, true, false, none, [], ◌∷◌, arith, pos, is_nil}
use inngestgo.Signature.Query.{Bytes}
use inngestgo.Signature.Accepted.{IsSigned, validate_request_signature-true}
use inngestgo.Signature.RoundTrip.{IsHex, validate_request-sign}
use inngestgo.Signature.{
  normalize_key, is_expired, sign, validate_request, validate_request_signature,
}

abbrev digest : Bytes → Bytes → Bytes
digest key message = b'd' ∷ b'6' ∷ []

abbrev same : Bytes → Bytes
same body = body

-- "signkey-test-12"
abbrev a_key : Bytes
a_key =
    b's' ∷ b'i' ∷ b'g' ∷ b'n' ∷ b'k' ∷ b'e' ∷ b'y' ∷ b'-' ∷ b't' ∷ b'e' ∷ b's' ∷ b't' ∷ b'-' ∷ b'1'
    ∷ b'2' ∷ []

abbrev a_body : Bytes
a_body = b'{' ∷ b'}' ∷ []

abbrev present : ℕ
present = 1700000100000000000

digest-IsHex : IsHex digest
digest-IsHex key message = ground arith

key_once : normalize_key (normalize_key a_key) ≡ normalize_key a_key
unfolding normalize_key
key_once = refl

a_time : 1700000000 < 2 ^ 63
a_time = omega arith

in_time : is_expired present (pos 1700000000) ≡ false
unfolding is_expired
in_time = refl

abbrev a_signature : Bytes
a_signature = sign digest same present (pos 1700000000) a_key a_body

validate_request-sign_example :
    validate_request digest same present
      (sign digest same present (pos 1700000000) a_key a_body)
      a_key
      a_body
    ≡ (true, none)
validate_request-sign_example =
    validate_request-sign digest same present present 1700000000 a_key a_body digest-IsHex key_once
      a_time in_time

is_accepted :
    (sig : Bytes)
    → validate_request digest same present sig a_key a_body ≡ (true, none)
    → (validate_request_signature digest same present sig a_key [] a_body false).0 ≡ true
unfolding validate_request_signature
is_accepted sig h = rw (h, validate_request_signature) refl

validate_request_signature-true_example :
    let r = validate_request_signature digest same present a_signature a_key [] a_body false in
    ((false ≡ true) × (r.1 ≡ []))
    ⊎ (((r.1 ≡ a_key) ⊎ ((r.1 ≡ []) × (is_nil {A = ℕ} [] ≡ false)))
        × IsSigned
            (λ ts. sign digest same present ts (normalize_key r.1) a_body)
            present
            a_signature)
validate_request_signature-true_example =
    validate_request_signature-true digest same present a_signature a_key [] a_body false (
      is_accepted a_signature (
        validate_request-sign digest same present present 1700000000 a_key a_body digest-IsHex
          key_once a_time in_time))
