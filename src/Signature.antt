-- ===== src/Signature.antt =====
-- signature.go: signing, and the validation of signatures. Texts are lists of bytes. The hexadecimal
-- HMAC-SHA256 of a message under a key and jcs.Transform, by the body that it gives back, are
-- parameters. A time is its Unix time in seconds, the present one in nanoseconds, both unbounded.
pub mod Query
pub mod Hashed
pub mod Accepted
pub mod Parsing
pub mod RoundTrip
mod Tests
use inngestgo.Prelude.{
  ℕ, zero, suc, ◌+◌, ◌-◌, ◌*◌, ◌/◌, ◌%◌, Bool, true, false, ◌&&◌, ◌||◌, Option, none, some, List,
  [], ◌∷◌, ◌++◌, ltb, leb, ◌==◌, if◌then◌else◌, is_nil, ℤ, pos, negsuc,
}
use inngestgo.Errors.{Error, sentinel, expired_signature, invalid_signature, invalid_timestamp}
use inngestgo.Signature.Query.{Bytes, bytes_eq, parse_query, get, atoi, int_text}

-- \w
unfoldable pub is_word : ℕ → Bool
is_word c =
    (leb b'0' c && leb c b'9')
    || (leb b'A' c && leb c b'Z')
    || (leb b'a' c && leb c b'z')
    || c == b'_'

unfoldable pub drop_prefix : Bytes → Bytes → Option Bytes
drop_prefix [] s = some s
drop_prefix (c ∷ cs) [] = none
drop_prefix (c ∷ cs) (d ∷ ds) = if c == d then drop_prefix cs ds else none

-- What follows `\w+-`; the flag says whether a word character was read.
unfoldable pub after_word : Bool → Bytes → Option Bytes
unfolding is_word
after_word seen [] = none
after_word seen (c ∷ cs) =
    if is_word c then after_word true cs else if seen && c == b'-' then some cs else none

abbrev pub or_key : Bytes → Option Bytes → Bytes
or_key key none = key
or_key key (some rest) = rest

-- `^signkey-\w+-` is removed.
unfoldable pub normalize_key : Bytes → Bytes
unfolding drop_prefix after_word
normalize_key key =
    elim (drop_prefix (b's' ∷ b'i' ∷ b'g' ∷ b'n' ∷ b'k' ∷ b'e' ∷ b'y' ∷ b'-' ∷ []) key) [
      | none ↦ key
      | some rest ↦ or_key key (after_word false rest)
    ]

-- Time.IsZero
abbrev pub is_zero_time : ℤ → Bool
is_zero_time (pos n) = false
is_zero_time (negsuc n) = n == 62135596799

abbrev second : ℕ
second = 1000000000

-- `time.Since(ts) > signatureTimeDeltaMax`
unfoldable pub is_expired : ℕ → ℤ → Bool
is_expired now (pos ts) = ltb (ts * second + 300 * second) now
is_expired now (negsuc n) = ltb (300 * second) (now + suc n * second)

-- fmt.Sprintf("t=%d&s=%s", ts, sig)
abbrev pub signature_text : ℤ → Bytes → Bytes
signature_text ts digest = b't' ∷ b'=' ∷ (int_text ts ++ b'&' ∷ b's' ∷ b'=' ∷ digest)

abbrev no_signature : Bool × Option Error
no_signature = (false, some (sentinel invalid_signature))

-- The two validations after the key is normalized, by the way in which they sign.
unfoldable pub check_signature :
    (ℤ → Bytes) → (now : ℕ) → Bytes → Bytes → Bytes → Bool × Option Error
unfolding atoi is_expired
check_signature signs now sig t s = if is_nil t || is_nil s then no_signature else (elim (atoi t) [
  | none ↦ (false, some (sentinel invalid_timestamp))
  | some ts ↦
      if is_expired now ts
      then (false, some (sentinel expired_signature))
      else if bytes_eq (signs ts) sig
      then (true, none)
      else no_signature
])

unfoldable pub validate : (ℤ → Bytes) → (now : ℕ) → Bytes → Bool × Option Error
unfolding check_signature parse_query get
validate signs now sig = elim (parse_query sig) [
  | none ↦ no_signature
  | some q ↦ check_signature signs now sig (get (b't' ∷ []) q) (get (b's' ∷ []) q)
]

-- strings.TrimSuffix(body, "\n")
unfoldable pub trim_newline : Bytes → Bytes
trim_newline [] = []
trim_newline (c ∷ []) = if c == 10 then [] else c ∷ []
trim_newline (c ∷ d ∷ cs) = c ∷ trim_newline (d ∷ cs)

module _ (hmac_hex : Bytes → Bytes → Bytes) where
  -- signWithoutJCS
  unfoldable pub sign_without_jcs : (now : ℕ) → ℤ → Bytes → Bytes → Bytes
  unfolding normalize_key int_text
  sign_without_jcs now at key body =
      let ts = if is_zero_time at then pos (now / second) else at in
      signature_text ts (hmac_hex (normalize_key key) (body ++ int_text ts))

  unfoldable pub validate_response_signature :
      (now : ℕ) → Bytes → Bytes → Bytes → Bool × Option Error
  unfolding validate sign_without_jcs trim_newline
  validate_response_signature now sig key body =
      validate (λ ts. sign_without_jcs now ts (normalize_key key) (trim_newline body)) now sig

  module _ (transform : Bytes → Bytes) where
    unfoldable pub sign : (now : ℕ) → ℤ → Bytes → Bytes → Bytes
    unfolding sign_without_jcs
    sign now at key body =
        sign_without_jcs now at key (if is_nil body then body else transform body)

    -- validateRequestSignature
    unfoldable pub validate_request : (now : ℕ) → Bytes → Bytes → Bytes → Bool × Option Error
    unfolding validate sign normalize_key
    validate_request now sig key body =
        validate (λ ts. sign now ts (normalize_key key) body) now sig

    -- ValidateRequestSignature
    unfoldable pub validate_request_signature :
        (now : ℕ) → (sig key fallback body : Bytes) → (is_dev : Bool) → Bool × Bytes × Option Error
    unfolding validate_request
    validate_request_signature now sig key fallback body is_dev =
        let first = validate_request now sig key body in
        let second_try = validate_request now sig fallback body in
        if is_dev
        then (true, [], none)
        else if first.0
        then (true, key, first.1)
        else if is_nil fallback
        then (false, [], first.1)
        else (second_try.0, (if second_try.0 then fallback else []), second_try.1)
