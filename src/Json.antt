-- ===== src/Json.antt =====
-- JSON values as encoding/json reads and writes them, for the shapes that the program looks into:
-- json.RawMessage is a parsed value, a missing or empty RawMessage is `none`. A number keeps its
-- literal. Struct fields are found by their tags with letter case ignored, the last one winning,
-- as json.Unmarshal does; keys of a Go map are compared exactly.
pub mod Interface
use Prim.Native.Char.{code}
use inngestgo.Prelude.{
  ℕ, ◌+◌, String, Bool, true, false, ◌&&◌, Option, none, some, leb, ◌==◌, str_eq, if◌then◌else◌,
}

mutual
  pub data Json : Type 0 where
    null : Json
    bool : Bool → Json
    number : String → Json
    string : String → Json
    array : Items → Json
    object : Fields → Json

  pub data Items : Type 0 where
    nil : Items
    cons : Json → Items → Items

  pub data Fields : Type 0 where
    end : Fields
    field : String → Json → Fields → Fields

-- An ASCII capital letter becomes small.
fold_code : ℕ → ℕ
fold_code c = if leb b'A' c && leb c b'Z' then c + 32 else c

-- Equality with the case of ASCII letters ignored: how an object's key sets a struct field by its tag.
unfoldable pub equal_fold : String → String → Bool
unfolding fold_code
equal_fold String.[] String.[] = true
equal_fold (String.◌∷◌ t tag) (String.◌∷◌ k key) =
    fold_code (code t) == fold_code (code k) && equal_fold tag key
equal_fold _ _ = false

-- The value that json.Unmarshal stores in the struct field with the tag: that of the last key.
unfoldable pub struct_field : String → Fields → Option Json
unfolding equal_fold
struct_field tag end = none
struct_field tag (field k v fs) =
    let here : Option Json = if equal_fold tag k then some v else none in
    elim (struct_field tag fs) [ none ↦ here | some w ↦ some w ]

-- The value of a key in a map[string]json.RawMessage.
unfoldable pub map_field : String → Fields → Option Json
map_field key end = none
map_field key (field k v fs) =
    let here : Option Json = if str_eq k key then some v else none in
    elim (map_field key fs) [ none ↦ here | some w ↦ some w ]

-- json.Unmarshal into a string field: null leaves it empty, another kind is an error.
unfoldable pub as_string : Option Json → Option String
as_string none = some ""
as_string (some null) = some ""
as_string (some (string s)) = some s
as_string (some (bool b)) = none
as_string (some (number n)) = none
as_string (some (array xs)) = none
as_string (some (object fs)) = none
