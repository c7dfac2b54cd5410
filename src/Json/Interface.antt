-- ===== src/Json/Interface.antt =====
-- Decoding of JSON into interface values, as json.Unmarshal does it for `any` and `map[string]any`.
-- A number becomes a float64: `float` gives the text of the one that is nearest to it, and `none`
-- where it is out of range, which leaves nil.
use mathlib.Core.Option
use inngestgo.Prelude.{
  String, Option, none, some, or_else, ◌≡◌, refl, ap, ◌∙◌, is_some, arith, Option-cases, inl, inr,
  str_eq_iff,
}
use inngestgo.Json.{
  Json, Items, Fields, null, bool, number, string, array, object, nil, cons, end, field, map_field,
}

-- `m[k] = v`, for a key that has no later value.
abbrev put : Option Json → String → Json → Fields → Fields
put none k v fs = field k v fs
put (some later) k v fs = fs

abbrev as_number : Option String → Json
as_number none = null
as_number (some n) = number n

abbrev pub SameKeys : Fields → Fields → Type 0
SameKeys fs es = (k : String) → is_some (map_field k es) ≡ is_some (map_field k fs)

-- A value that no later value of its key replaces is found, as what it is read as.
abbrev pub LastReadsAs : Option Json → (Json → Type 0) → Option Json → Type 0
LastReadsAs (some later) R found = Unit
LastReadsAs none R found = (w : Json) × (found ≡ some w) × R w

module _ (float : String → Option String) where
  unfoldable mutual
    pub as_any : Json → Json
    as_any null = null
    as_any (bool b) = bool b
    as_any (number n) = as_number (float n)
    as_any (string s) = string s
    as_any (array xs) = array (as_slice xs)
    as_any (object fs) = object (as_map fs)

    pub as_slice : Items → Items
    as_slice nil = nil
    as_slice (cons x xs) = cons (as_any x) (as_slice xs)

    pub as_map : Fields → Fields
    as_map end = end
    as_map (field k v fs) = put (map_field k fs) k (as_any v) (as_map fs)

  -- What a value is read as: numbers as float64s, a list item by item, and an object with the same
  -- keys, each with what its last value is read as.
  unfoldable mutual
    pub ReadsAs : Json → Json → Type 0
    ReadsAs null w = w ≡ null
    ReadsAs (bool b) w = w ≡ bool b
    ReadsAs (number n) w = w ≡ or_else (Option.map number (float n)) null
    ReadsAs (string s) w = w ≡ string s
    ReadsAs (array xs) w = (ys : Items) × (w ≡ array ys) × ItemsReadAs xs ys
    ReadsAs (object fs) w = (es : Fields) × (w ≡ object es) × MembersReadAs fs es × SameKeys fs es

    pub ItemsReadAs : Items → Items → Type 0
    ItemsReadAs nil ys = ys ≡ nil
    ItemsReadAs (cons x xs) ys =
        (y : Json) × (zs : Items) × (ys ≡ cons y zs) × ReadsAs x y × ItemsReadAs xs zs

    pub MembersReadAs : Fields → Fields → Type 0
    MembersReadAs end es = Unit
    MembersReadAs (field k v fs) es =
        LastReadsAs (map_field k fs) (ReadsAs v) (map_field k es) × MembersReadAs fs es

  map_field-as_map :
      (key : String) (fs : Fields)
      → map_field key (as_map fs) ≡ Option.map as_any (map_field key fs)
  unfolding map_field as_map
  map_field-as_map key end = refl
  map_field-as_map key (field k v fs) = ground (arith, map_field-as_map key fs, str_eq_iff k key)

  as_map-SameKeys : (fs : Fields) → SameKeys fs (as_map fs)
  as_map-SameKeys fs k = ground (arith, map_field-as_map k fs)

  -- The value of a key is the last one.
  field-last :
      (k : String) (v : Json) (fs : Fields)
      → map_field k fs ≡ none
      → map_field k (field k v fs) ≡ some v
  unfolding map_field
  field-last k v fs e = ground (arith, str_eq_iff k k)

  field-later :
      (key k : String) (w v : Json) (fs : Fields)
      → map_field key fs ≡ some w
      → map_field key (field k v fs) ≡ some w
  unfolding map_field
  field-later key k w v fs e = rw e refl

  mutual
    unfolding as_any as_slice as_map ReadsAs ItemsReadAs MembersReadAs map_field

    pub as_any-ReadsAs : (j : Json) → ReadsAs j (as_any j)
    as_any-ReadsAs null = refl
    as_any-ReadsAs (bool b) = refl
    as_any-ReadsAs (number n) = elim (Option-cases (float n)) [
      | inl e ↦ rw e refl
      | inr (m, e) ↦ rw e refl
    ]
    as_any-ReadsAs (string s) = refl
    as_any-ReadsAs (array xs) = (as_slice xs, refl, as_slice-ReadAs xs)
    as_any-ReadsAs (object fs) = (
      as_map fs,
      refl,
      members fs (as_map fs) (λ k v q. map_field-as_map k fs ∙ ap (Option.map as_any) q),
      as_map-SameKeys fs,
    )

    as_slice-ReadAs : (xs : Items) → ItemsReadAs xs (as_slice xs)
    as_slice-ReadAs nil = refl
    as_slice-ReadAs (cons x xs) =
        (as_any x, as_slice xs, refl, as_any-ReadsAs x, as_slice-ReadAs xs)

    members :
        (fs es : Fields)
        → ((k : String) (v : Json) → map_field k fs ≡ some v → map_field k es ≡ some (as_any v))
        → MembersReadAs fs es
    members end es h = tt
    members (field k v fs) es h = (
      elim (Option-cases (map_field k fs)) [
        | inl e ↦ rw e (as_any v, h k v (field-last k v fs e), as_any-ReadsAs v)
        | inr (w, e) ↦ rw e tt
      ],
      members fs es (λ l w q. h l w (field-later l k w v fs q)),
    )

  pub as_map-ReadAs : (fs : Fields) → MembersReadAs fs (as_map fs) × SameKeys fs (as_map fs)
  as_map-ReadAs fs = (
    members fs (as_map fs) (λ k v q. map_field-as_map k fs ∙ ap (Option.map as_any) q),
    as_map-SameKeys fs,
  )
