-- ===== src/Signature/Hashed.antt =====
-- signature.go: the hashes of keys. The hexadecimal SHA-256 of bytes is a parameter.
use inngestgo.Prelude.{
  ℕ, ◌+◌, ◌*◌, ◌≡◌, refl, ◌∙◌, ap, ◌⊎◌, inl, inr, Bool, true, false, ◌&&◌, Option, none, some, [],
  ◌∷◌, ◌++◌, ◌==◌, arith, if◌then◌else◌, Option-cases, Bool-cases,
}
use inngestgo.Errors.{text}
use inngestgo.Results.{Result, ok, err}
use inngestgo.Signature.Query.{Bytes, unhex}
use inngestgo.Signature.{is_word, drop_prefix, after_word, normalize_key}

abbrev signkey : Bytes
signkey = b's' ∷ b'i' ∷ b'g' ∷ b'n' ∷ b'k' ∷ b'e' ∷ b'y' ∷ b'-' ∷ []

abbrev push_word : ℕ → Option Bytes → Option Bytes
push_word c none = none
push_word c (some s) = some (c ∷ s)

-- The text that `\w+-` matches; the flag says whether a word character was read.
unfoldable word_part : Bool → Bytes → Option Bytes
unfolding is_word
word_part seen [] = none
word_part seen (c ∷ cs) =
    let rest = word_part true cs in
    if is_word c then push_word c rest else if seen && c == b'-' then some (c ∷ []) else none

abbrev found : Option Bytes → Bytes
found none = []
found (some s) = signkey ++ s

-- keyRegexp.Find
unfoldable pub key_prefix : Bytes → Bytes
unfolding word_part drop_prefix
key_prefix key = elim (drop_prefix signkey key) [
  | none ↦ []
  | some rest ↦ found (word_part false rest)
]

abbrev decoded : Option ℕ → Option ℕ → Option Bytes → Option Bytes
decoded (some a) (some b) (some s) = some ((16 * a + b) ∷ s)
decoded _ _ _ = none

-- hex.Decode
unfoldable pub hex_decode : Bytes → Option Bytes
unfolding unhex
hex_decode [] = some []
hex_decode (a ∷ []) = none
hex_decode (a ∷ b ∷ cs) = decoded (unhex a) (unhex b) (hex_decode cs)

module _ (sha256_hex : Bytes → Bytes) where
  unfoldable pub hash_event_key : Bytes → Bytes
  hash_event_key key = sha256_hex key

  unfoldable pub hashed_signing_key : Bytes → Result Bytes
  unfolding key_prefix normalize_key hex_decode
  hashed_signing_key key = elim (hex_decode (normalize_key key)) [
    | none ↦ err (text "encoding/hex: invalid key")
    | some dst ↦ ok (key_prefix key ++ sha256_hex dst)
  ]

-- Both find nothing, or what the one matches stands in front of what the other leaves.
abbrev Splits : Option Bytes → Option Bytes → Bytes → Type 0
Splits part after cs =
    ((part ≡ none) × (after ≡ none))
    ⊎ ((s : Bytes) × (rest : Bytes) × (part ≡ some s) × (after ≡ some rest) × (s ++ rest ≡ cs))

word_part-Splits : (seen : Bool) (cs : Bytes) → Splits (word_part seen cs) (after_word seen cs) cs
unfolding word_part after_word
word_part-Splits seen [] = inl (refl, refl)
word_part-Splits seen (c ∷ cs) = elim (Bool-cases (is_word c)) [
  | inl w ↦ elim (word_part-Splits true cs) [
    | inl (p, a) ↦ inl (ground arith, ground arith)
    | inr (s, rest, p, a, j) ↦ inr (c ∷ s, rest, ground arith, ground arith, ap (λ r. c ∷ r) j)
  ]
  | inr w ↦ elim (Bool-cases (seen && c == b'-')) [
    | inl d ↦ inr (c ∷ [], cs, ground arith, ground arith, refl)
    | inr d ↦ inl (ground arith, ground arith)
  ]
]

drop_prefix-some : (p s rest : Bytes) → drop_prefix p s ≡ some rest → p ++ rest ≡ s
unfolding drop_prefix
drop_prefix-some [] s rest h = ground arith
drop_prefix-some (c ∷ cs) [] rest h = absurd (ground arith)
drop_prefix-some (c ∷ cs) (d ∷ ds) rest h = ground (arith, drop_prefix-some cs ds rest)

-- The prefix that a hashed key keeps and the key that is hashed make up the whole key.
key_prefix-normalize_key : (key : Bytes) → key_prefix key ++ normalize_key key ≡ key
unfolding key_prefix normalize_key
key_prefix-normalize_key key = elim (Option-cases (drop_prefix signkey key)) [
  | inl e ↦ rw (e, key_prefix, normalize_key) refl
  | inr (rest, e) ↦ elim (word_part-Splits false rest) [
    | inl (p, a) ↦ rw (e, key_prefix, normalize_key) (rw (p, a) refl)
    | inr (s, t, p, a, j) ↦
        rw (e, key_prefix, normalize_key)
          (rw (p, a) (ap (λ r. signkey ++ r) j ∙ drop_prefix-some signkey key rest e))
  ]
]
