-- ===== src/Client.antt =====
-- client.go and event.go: the client, which sends events to the event API. The marshalling of the
-- events, the reading of URLs and the API's answer are parameters.
pub mod Sending
pub mod Generic
mod Tests
use Prim.Native.String.{◌++◌ as str_append}
use inngestgo.Prelude.{
  ℕ, String, Bool, true, false, ◌&&◌, ◌||◌, Option, none, some, List, [], ◌∷◌, ◌++◌, is_nil,
  is_some, ◌==◌, length, or_else, str_eq, if◌then◌else◌, ℤ, Map,
}
use inngestgo.Json.{Json, Fields, end, object, string, number}
use inngestgo.Errors.{Error, text, wrapped}
use inngestgo.Results.{Result, ok, err, plain, ◌>>=◌, ◌>>◌}
use inngestgo.Options.{Environment, is_set, env_is_dev, dev_server_url, default_event_api_origin}
use inngestgo.Http.{Headers, words, set_header, content_type}

-- Event: `event_data` and `user` are nil where they are none.
pub record Event : Type 0 where
  pub id : Option String
  pub name : String
  pub event_data : Option Fields
  pub user : Option Json
  pub timestamp : ℤ
  pub version : String

abbrev pub no_fields : Option Fields → Bool
no_fields none = true
no_fields (some end) = true
no_fields (some fs) = false

-- Event.Validate
unfoldable pub validate_event : Event → Result (Unit {0})
validate_event e =
    if str_eq e.name ""
    then err (text "event name must be present")
    else if no_fields e.event_data
    then err (text "event data must be present")
    else ok tt

-- Event.Map, with the text of a number as a parameter.
unfoldable pub event_map : (ℤ → String) → Event → Map Json
event_map number_text e =
    (("name", string e.name)
      ∷ ("data", object (or_else e.event_data end))
      ∷ ("user", or_else e.user (object end))
      ∷ ("ts", number (number_text e.timestamp))
      ∷ [])
    ++ (if is_set e.version then ("v", string e.version) ∷ [] else [])
    ++ (elim e.id [ none ↦ [] | some id ↦ ("id", string id) ∷ [] ])

-- What is sent: an Event, a GenericEvent by its name, or a value that has no method Validate.
pub data Sendable : Type 0 where
  event : Event → Sendable
  generic_event : (name : String) → Sendable
  other_value : Sendable

-- `if v, ok := e.(validatable); ok { … v.Validate() … }`
unfoldable pub validate_any : Sendable → Result (Unit {0})
unfolding validate_event
validate_any (event e) = validate_event e
validate_any (generic_event name) =
    if str_eq name "" then err (text "event name must be present") else ok tt
validate_any other_value = ok tt

unfoldable pub validate_all : List Sendable → Result (Unit {0})
unfolding validate_any
validate_all [] = ok tt
validate_all (e ∷ es) =
    let rest = validate_all es in plain "error validating event" (validate_any e) >> rest

pub record ClientOpts : Type 0 where
  pub event_key : Option String
  pub event_url : Option String
  pub env : Option String

-- A request of the HTTP client: only a POST with a type is made.
pub record Posted : Type 0 where
  pub url : String
  pub headers : Headers
  pub events : List Sendable

-- The API's answer, by its status and the ids that its body decodes to.
pub record EventApiResponse : Type 0 where
  pub status_code : ℕ
  pub ids : List String

-- The environment, with the event key as a text.
module _ (environment : Environment) (event_key : String) (has_host : String → Bool) where
  unfoldable pub get_event_key : ClientOpts → String
  unfolding env_is_dev
  get_event_key c = elim c.event_key [
    | some key ↦ key
    | none ↦
        if is_set event_key
        then event_key
        else if env_is_dev environment
        then "NO_EVENT_KEY_SET"
        else ""
  ]

  unfoldable pub get_env : ClientOpts → String
  get_env c = or_else c.env environment.env

  unfoldable pub endpoint : ClientOpts → String
  unfolding env_is_dev dev_server_url
  endpoint c = or_else c.event_url (
      if env_is_dev environment
      then dev_server_url has_host environment
      else default_event_api_origin)

  unfoldable pub event_url : ClientOpts → String
  unfolding endpoint get_event_key
  event_url c = str_append (endpoint c) (str_append "/e/" (get_event_key c))

  -- The ids are dropped unless there is one.
  unfoldable pub read_response : EventApiResponse → Result (List String)
  read_response resp =
      if resp.status_code == 200 || resp.status_code == 201
      then ok (if length resp.ids == 1 then resp.ids else [])
      else if resp.status_code == 400
      then err (text "invalid event data")
      else if resp.status_code == 401
      then err (text "unknown ingest key")
      else if resp.status_code == 403
      then err (text "this ingest key is not authorized to send this event")
      else err (text "unknown status code sending event")

  -- The request that is posted: not the one that is created with the SDK's headers and the
  -- environment's.
  unfoldable pub posted : ClientOpts → List Sendable → Posted
  unfolding event_url set_header
  posted c es = record {
    url = event_url c;
    headers = set_header content_type (words "application/json") [];
    events = es;
  }

  module _ (marshalled : List Sendable → Result (Unit {0})) (created : Result (Unit {0}))
      (does : Posted → Result EventApiResponse) where
    abbrev pub checked : List Sendable → Result (Unit {0})
    checked es =
        validate_all es
        >> plain "error marshalling event to json" (marshalled es)
        >> plain "error creating event request" created

    -- The requests that are made, with the ids or the error.
    unfoldable pub send_many : ClientOpts → List Sendable → List Posted × Result (List String)
    unfolding validate_all posted read_response
    send_many c es = elim (checked es) [
      | err e ↦ ([], err e)
      | ok t ↦
          let req = posted c es in
          (req ∷ [], plain "error sending event request" (does req) >>= λ resp. read_response resp)
    ]

    abbrev first_id : Result (List String) → Result String
    first_id (err e) = err e
    first_id (ok []) = ok ""
    first_id (ok (id ∷ ids)) = ok id

    unfoldable pub send : ClientOpts → Sendable → List Posted × Result String
    unfolding send_many
    send c e = let r = send_many c (e ∷ []) in (r.0, first_id r.1)

    abbrev no_client : Error
    no_client = text "no default client initialized for inngest"

    -- The functions Send and SendMany of the package, which use DefaultClient.
    unfoldable pub send_by_default : Option ClientOpts → Sendable → List Posted × Result String
    unfolding send
    send_by_default none e = ([], err no_client)
    send_by_default (some c) e = send c e

    unfoldable pub send_many_by_default :
        Option ClientOpts → List Sendable → List Posted × Result (List String)
    unfolding send_many
    send_many_by_default none es = ([], err no_client)
    send_many_by_default (some c) es = send_many c es
