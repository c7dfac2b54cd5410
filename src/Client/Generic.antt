-- ===== src/Client/Generic.antt =====
-- event.go, GenericEvent: an event with types of its own for its data and its user, and how it is
-- turned into an Event by way of JSON. The text of an integer, its reading,
-- and that of a number as a float64 are parameters.
pub mod Kept
mod Tests
use inngestgo.Prelude.{
  String, Bool, true, false, Option, none, some, or_else, if◌then◌else◌, ℤ, pos, is_zero, str_eq,
}
use inngestgo.Json.{
  Json, Fields, null, bool, number, string, array, object, end, field, struct_field, as_string,
}
use inngestgo.Json.Interface.{as_any, as_map}
use inngestgo.Client.{Event}
use inngestgo.Options.{is_set}
use inngestgo.Errors.{text}
use inngestgo.Results.{Result, ok, err}

-- How encoding/json writes a Go type: `none` is an error; `is_empty` is what omitempty leaves out.
pub record Encoder (A : Type 0) : Type 0 where
  pub marshal : A → Option Json
  pub is_empty : A → Bool

pub record GenericEvent (D U : Type 0) : Type 0 where
  pub id : Option String
  pub name : String
  pub event_data : D
  pub user : U
  pub timestamp : ℤ
  pub version : String

-- A field that is left out if it is none.
abbrev field? : String → Option Json → Fields → Fields
field? key none fs = fs
field? key (some j) fs = field key j fs

abbrev string? : String → Option Json
string? s = if is_set s then some (string s) else none

abbrev id? : Option String → Option Json
id? none = none
id? (some s) = some (string s)

-- An interface value; null is nil.
abbrev pub non_nil : Json → Option Json
non_nil null = none
non_nil j = some j

-- Decoding into the field ID, a pointer: what is not a text leaves an empty one.
unfoldable pub read_id : Option Json → Option String
unfolding as_string
read_id none = none
read_id (some null) = none
read_id (some j) = some (or_else (as_string (some j)) "")

module _ (number_text : ℤ → String) (number_of : String → Option ℤ) where
  abbrev timestamp? : ℤ → Option Json
  timestamp? t = if is_zero t then none else some (number (number_text t))

  -- json.Marshal of the struct, with the tags of its fields, from what the two types give.
  unfoldable pub encode_fields :
      {D U : Type 0} → GenericEvent D U → Json → (user : Option Json) → Fields
  encode_fields ge d u = field? "id" (id? ge.id) (
      field "name" (string ge.name) (
        field "data" d (
          field? "user" u
            (field? "ts" (timestamp? ge.timestamp) (field? "v" (string? ge.version) end)))))

  -- Decoding into the field Timestamp: what is no integer leaves 0.
  unfoldable pub read_timestamp : Option Json → ℤ
  read_timestamp (some (number n)) = or_else (number_of n) (pos 0)
  read_timestamp _ = pos 0

  module _ (float : String → Option String) where
    -- Decoding into the field Data, a map[string]any: what is no object leaves nil.
    unfoldable pub read_data : Option Json → Option Fields
    unfolding as_map
    read_data (some (object fs)) = some (as_map float fs)
    read_data _ = none

    -- Decoding into the field User, of type any.
    unfoldable pub read_user : Option Json → Option Json
    unfolding as_any
    read_user none = none
    read_user (some j) = non_nil (as_any float j)

    -- json.Unmarshal into an Event whose fields are zero: a field that cannot be decoded is left
    -- out, and the others are decoded all the same.
    unfoldable pub decode_event : Fields → Event
    unfolding struct_field as_string read_id read_timestamp read_data read_user
    decode_event fs = record {
      id = read_id (struct_field "id" fs);
      name = or_else (as_string (struct_field "name" fs)) "";
      event_data = read_data (struct_field "data" fs);
      user = read_user (struct_field "user" fs);
      timestamp = read_timestamp (struct_field "ts" fs);
      version = or_else (as_string (struct_field "v" fs)) "";
    }

    abbrev pub zero_event : Event
    zero_event = record {
      id = none;
      name = "";
      event_data = none;
      user = none;
      timestamp = pos 0;
      version = "";
    }

    module _ {D U : Type 0} (data_type : Encoder D) (user_type : Encoder U) where
      -- The user's JSON, which is left out if it is empty; `none` is an error.
      unfoldable pub user_json : U → Option (Option Json)
      user_json u =
          if user_type.is_empty u
          then some none
          else (elim (user_type.marshal u) [ none ↦ none | some j ↦ some (some j) ])

      abbrev decoded : GenericEvent D U → Option Json → Option (Option Json) → Event
      decoded ge none u = zero_event
      decoded ge (some d) none = zero_event
      decoded ge (some d) (some u) = decode_event (encode_fields ge d u)

      -- GenericEvent.Event, which ignores both errors.
      unfoldable pub to_event : GenericEvent D U → Event
      unfolding decode_event encode_fields user_json
      to_event ge = decoded ge (data_type.marshal ge.event_data) (user_json ge.user)

-- GenericEvent.Validate
unfoldable pub validate_generic : {D U : Type 0} → GenericEvent D U → Result (Unit {0})
validate_generic ge = if str_eq ge.name "" then err (text "event name must be present") else ok tt
