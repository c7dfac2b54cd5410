-- ===== src/Client/Generic/Tests.antt =====
-- An event whose data are a struct with one field, without a user.
use inngestgo.Prelude.{
  String, false, not, ◌≡◌, ◌↔◌, refl, Option, none, some, is_some, ℤ, pos, str_eq, if◌then◌else◌,
}
use mathlib.Core.Option
use inngestgo.Json.Interface.{as_map}
use inngestgo.Json.{number, map_field, object, field, string, end}
use inngestgo.Results.{ok}
use inngestgo.Client.{validate_event}
use inngestgo.Client.Generic.{Encoder, GenericEvent, user_json, to_event}
use inngestgo.Client.Generic.Kept.{IsKept, IsWellMade, to_event-IsKept, to_event-IsWellMade}

abbrev created : GenericEvent String (Option String)
created = record {
  id = some "1";
  name = "app/user.created";
  event_data = "7";
  user = none;
  timestamp = pos 1700;
  version = "";
}

abbrev data_type : Encoder String
data_type = record {
  marshal = λ s. some (object (field "user_id" (string s) end));
  is_empty = λ s. false;
}

abbrev user_type : Encoder (Option String)
user_type = record { marshal = λ u. Option.map string u; is_empty = λ u. not (is_some u) }

abbrev number_text : ℤ → String
number_text (pos n) = "1700"
number_text t = "0"

abbrev number_of : String → Option ℤ
number_of s = if str_eq s "1700" then some (pos 1700) else none

abbrev float : String → Option String
float s = some s

-- The later of two values of a key is kept.
later_kept :
    as_map float (field "a" (number "1") (field "a" (string "b") end)) ≡ field "a" (string "b") end
unfolding as_map map_field
later_kept = refl

to_event-IsKept_example :
    IsKept number_text number_of float created
      (field "user_id" (string "7") end)
      none
      (to_event number_text number_of float data_type user_type created)
unfolding user_json
to_event-IsKept_example =
    to_event-IsKept number_text number_of float data_type user_type created refl
      (field "user_id" (string "7") end) none refl refl

to_event-IsWellMade_example :
    (validate_event (to_event number_text number_of float data_type user_type created) ≡ ok tt)
    ↔ IsWellMade number_text number_of float data_type user_type created refl
to_event-IsWellMade_example =
    to_event-IsWellMade number_text number_of float data_type user_type created refl
