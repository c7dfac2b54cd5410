-- ===== src/Signature/Parsing.antt =====
-- Parsing the text of a signature gives back its time and its digest.
use inngestgo.Prelude.{
  ℕ, zero, suc, ◌+◌, ◌-◌, ◌*◌, ◌/◌, ◌%◌, ◌^◌, ◌≤◌, ◌<◌, ◌≡◌, ◌≢◌, refl, ◌∙◌, ap, inl, inr, false,
  some, [], ◌∷◌, ◌++◌, arith, pos, Bool-cases, is_nil, ltb, All,
}
use inngestgo.Signature.Query.{
  Bytes, split, cut, unescape, contains, parse_parts, parse_query, digits_value, atoi, nat_digits,
  int_text,
}

-- A digit or a small letter: query strings hold it as it is.
abbrev pub IsPlain : ℕ → Type 0
IsPlain c = (b'0' ≤ c) × (c ≤ b'z') × (c ≢ b';') × (c ≢ b'=')

abbrev pub AllPlain : Bytes → Type 0
AllPlain s = All IsPlain s

split-append : (s rest : Bytes) → AllPlain s → split b'&' (s ++ b'&' ∷ rest) ≡ s ∷ split b'&' rest
unfolding split
split-append [] rest a = refl
split-append (c ∷ s) rest (p, a) = ground (arith, split-append s rest a)

split_last : (s : Bytes) → AllPlain s → split b'&' s ≡ s ∷ []
unfolding split
split_last [] a = refl
split_last (c ∷ s) (p, a) = ground (arith, split_last s a)

contains_none : (s : Bytes) → AllPlain s → contains b';' s ≡ false
unfolding contains
contains_none [] a = refl
contains_none (c ∷ s) (p, a) = ground (arith, contains_none s a)

unescape_plain : (s : Bytes) → AllPlain s → unescape s ≡ some s
unfolding unescape
unescape_plain [] a = refl
unescape_plain (c ∷ []) (p, a) = ground arith
unescape_plain (c ∷ d ∷ []) (p, a) = ground (arith, unescape_plain (d ∷ []) a)
unescape_plain (c ∷ d ∷ e ∷ s) (p, a) = ground (arith, unescape_plain (d ∷ e ∷ s) a)

digits_value-digit :
    (acc d m : ℕ) (rest : Bytes)
    → d < 10
    → acc * 10 + d ≡ m
    → digits_value acc ((d + b'0') ∷ rest) ≡ digits_value m rest
unfolding digits_value
digits_value-digit acc d m rest h e =
    let same : acc * 10 + (d + b'0' - b'0') ≡ m = omega arith in
    ground (arith, ap (λ k. digits_value k rest) same)

-- The value of a run of digits.
digits_value-nat_digits :
    (fuel n : ℕ) (rest : Bytes)
    → n < fuel
    → digits_value 0 (nat_digits fuel n rest) ≡ digits_value n rest
unfolding nat_digits
digits_value-nat_digits zero n rest h = absurd (omega arith)
digits_value-nat_digits (suc fuel) n rest h = elim (Bool-cases (ltb n 10)) [
  | inl e ↦ rw e (digits_value-digit 0 n n rest (ground arith) (omega arith))
  | inr e ↦ rw e (
      digits_value-nat_digits fuel (n / 10) ((n % 10 + b'0') ∷ rest) (ground arith)
      ∙ digits_value-digit (n / 10) (n % 10) n rest (omega arith) (omega arith))
]

nat_digits-AllPlain :
    (fuel n : ℕ) (rest : Bytes) → n < fuel → AllPlain rest → AllPlain (nat_digits fuel n rest)
unfolding nat_digits
nat_digits-AllPlain zero n rest h a = absurd (omega arith)
nat_digits-AllPlain (suc fuel) n rest h a =
    ground (arith, nat_digits-AllPlain fuel (n / 10) ((n % 10 + b'0') ∷ rest))

-- The text of a number begins with a digit.
nat_digits-cons :
    (fuel n : ℕ) (rest : Bytes) → (c : ℕ) × (s : Bytes) × (nat_digits (suc fuel) n rest ≡ c ∷ s)
unfolding nat_digits
nat_digits-cons zero n rest = elim (Bool-cases (ltb n 10)) [
  | inl e ↦ (n + b'0', rest, rw e refl)
  | inr e ↦ (n % 10 + b'0', rest, rw e refl)
]
nat_digits-cons (suc fuel) n rest = elim (Bool-cases (ltb n 10)) [
  | inl e ↦ (n + b'0', rest, rw e refl)
  | inr e ↦ let r = nat_digits-cons fuel (n / 10) ((n % 10 + b'0') ∷ rest) in (r.0, r.1, rw e r.2)
]

atoi_plain :
    (s : Bytes) (n : ℕ)
    → AllPlain s
    → is_nil s ≡ false
    → digits_value 0 s ≡ some n
    → n < 2 ^ 63
    → atoi s ≡ some (pos n)
unfolding atoi
atoi_plain [] n a e v h = cc
atoi_plain (c ∷ s) n (p, a) e v h = ground arith

pub parse_signature :
    (t s : Bytes)
    → AllPlain t
    → AllPlain s
    → parse_query (b't' ∷ b'=' ∷ (t ++ b'&' ∷ b's' ∷ b'=' ∷ s))
      ≡ some ((b't' ∷ [], t) ∷ (b's' ∷ [], s) ∷ [])
unfolding parse_query parse_parts split contains cut unescape
parse_signature t s a b =
    rw
      (
        split-append t (b's' ∷ b'=' ∷ s) a,
        split_last s b,
        contains_none t a,
        contains_none s b,
        unescape_plain t a,
        unescape_plain s b,
      )
      refl

pub int_text-AllPlain : (n : ℕ) → AllPlain (int_text (pos n))
unfolding int_text
int_text-AllPlain n = nat_digits-AllPlain (suc n) n [] (omega arith) tt

pub atoi-int_text : (n : ℕ) → n < 2 ^ 63 → atoi (int_text (pos n)) ≡ some (pos n)
unfolding int_text digits_value
atoi-int_text n h =
    atoi_plain (int_text (pos n)) n (int_text-AllPlain n)
      (ground (arith, (nat_digits-cons n n []).2))
      (digits_value-nat_digits (suc n) n [] (omega arith)) h

pub int_text-is_nil : (n : ℕ) → is_nil (int_text (pos n)) ≡ false
unfolding int_text
int_text-is_nil n = ground (arith, (nat_digits-cons n n []).2)
