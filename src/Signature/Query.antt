-- ===== src/Signature/Query.antt =====
-- Of the packages net/url, strconv and fmt, what signature.go uses: url.ParseQuery and Values.Get,
-- strconv.Atoi, and %d.
use inngestgo.Prelude.{
  ℕ, zero, suc, ◌+◌, ◌-◌, ◌*◌, ◌/◌, ◌%◌, ◌^◌, Bool, true, false, ◌&&◌, ◌||◌, Option, none, some,
  List, [], ◌∷◌, ltb, leb, ◌==◌, if◌then◌else◌, is_nil, ℤ, pos, negsuc,
}

abbrev pub Bytes : Type 0
Bytes = List ℕ

unfoldable pub bytes_eq : Bytes → Bytes → Bool
bytes_eq [] [] = true
bytes_eq (c ∷ cs) (d ∷ ds) = c == d && bytes_eq cs ds
bytes_eq _ _ = false

abbrev pub push : ℕ → List Bytes → List Bytes
push c [] = (c ∷ []) ∷ []
push c (x ∷ xs) = (c ∷ x) ∷ xs

-- The parts of a text between the separators.
unfoldable pub split : ℕ → Bytes → List Bytes
split sep [] = [] ∷ []
split sep (c ∷ cs) = let rest = split sep cs in if c == sep then [] ∷ rest else push c rest

-- strings.Cut, with nothing after a separator that is missing.
unfoldable pub cut : ℕ → Bytes → Bytes × Bytes
cut sep [] = ([], [])
cut sep (c ∷ cs) = let r = cut sep cs in if c == sep then ([], cs) else (c ∷ r.0, r.1)

unfoldable pub unhex : ℕ → Option ℕ
unhex c =
    if leb b'0' c && leb c b'9'
    then some (c - b'0')
    else if leb b'a' c && leb c b'f'
    then some (c - b'a' + 10)
    else if leb b'A' c && leb c b'F'
    then some (c - b'A' + 10)
    else none

abbrev pub cons_to : ℕ → Option Bytes → Option Bytes
cons_to c none = none
cons_to c (some s) = some (c ∷ s)

abbrev pub escaped : Option ℕ → Option ℕ → Option Bytes → Option Bytes
escaped (some a) (some b) s = cons_to (16 * a + b) s
escaped (some a) none s = none
escaped none b s = none

abbrev pub unplus : ℕ → ℕ
unplus c = if c == b'+' then 32 else c

-- url.QueryUnescape
unfoldable pub unescape : Bytes → Option Bytes
unfolding unhex
unescape [] = some []
unescape (c ∷ []) = if c == b'%' then none else some (unplus c ∷ [])
unescape (c ∷ a ∷ []) = elim (c == b'%') [
  | true ↦ none
  | false ↦ cons_to (unplus c) (unescape (a ∷ []))
]
unescape (c ∷ a ∷ b ∷ cs) = elim (c == b'%') [
  | true ↦ escaped (unhex a) (unhex b) (unescape cs)
  | false ↦ cons_to (unplus c) (unescape (a ∷ b ∷ cs))
]

unfoldable pub contains : ℕ → Bytes → Bool
contains c [] = false
contains c (d ∷ ds) = d == c || contains c ds

-- The key and the value in front of the others; `none` if one has a bad escape.
abbrev pub add_pair :
    Option Bytes → Option Bytes → Option (List (Bytes × Bytes)) → Option (List (Bytes × Bytes))
add_pair (some k) (some v) (some q) = some ((k, v) ∷ q)
add_pair (some k) (some v) none = none
add_pair (some k) none q = none
add_pair none v q = none

unfoldable pub parse_parts : List Bytes → Option (List (Bytes × Bytes))
unfolding contains cut unescape
parse_parts [] = some []
parse_parts (p ∷ ps) =
    let rest = parse_parts ps in
    if contains b';' p
    then none
    else if is_nil p
    then rest
    else add_pair (unescape (cut b'=' p).0) (unescape (cut b'=' p).1) rest

-- url.ParseQuery; an error anywhere makes the whole an error.
unfoldable pub parse_query : Bytes → Option (List (Bytes × Bytes))
unfolding parse_parts split
parse_query s = parse_parts (split b'&' s)

-- Values.Get
unfoldable pub get : Bytes → List (Bytes × Bytes) → Bytes
unfolding bytes_eq
get k [] = []
get k ((j, v) ∷ q) = if bytes_eq j k then v else get k q

abbrev pub is_digit : ℕ → Bool
is_digit c = leb b'0' c && leb c b'9'

unfoldable pub digits_value : ℕ → Bytes → Option ℕ
digits_value acc [] = some acc
digits_value acc (c ∷ cs) =
    let rest = digits_value (acc * 10 + (c - b'0')) cs in if is_digit c then rest else none

abbrev pub negate : ℕ → ℤ
negate zero = pos 0
negate (suc n) = negsuc n

abbrev pub in_range : ℕ → (ℕ → ℤ) → Option ℕ → Option ℤ
in_range bound f none = none
in_range bound f (some n) = if ltb n bound then some (f n) else none

abbrev pub unsigned : ℕ → (ℕ → ℤ) → Bytes → Option ℤ
unsigned bound f ds = if is_nil ds then none else in_range bound f (digits_value 0 ds)

-- strconv.Atoi, for an int of 64 bits.
unfoldable pub atoi : Bytes → Option ℤ
unfolding digits_value
atoi [] = none
atoi (c ∷ cs) =
    if c == b'-'
    then unsigned (2 ^ 63 + 1) negate cs
    else if c == b'+'
    then unsigned (2 ^ 63) pos cs
    else unsigned (2 ^ 63) pos (c ∷ cs)

-- The digits of n in front of `rest`, with fuel for at most `fuel` of them.
unfoldable pub nat_digits : ℕ → ℕ → Bytes → Bytes
nat_digits zero n rest = rest
nat_digits (suc fuel) n rest =
    let more = nat_digits fuel (n / 10) ((n % 10 + b'0') ∷ rest) in
    if ltb n 10 then (n + b'0') ∷ rest else more

-- %d
unfoldable pub int_text : ℤ → Bytes
unfolding nat_digits
int_text (pos n) = nat_digits (suc n) n []
int_text (negsuc n) = b'-' ∷ nat_digits (suc (suc n)) (suc n) []
