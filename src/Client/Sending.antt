-- ===== src/Client/Sending.antt =====
-- What becomes of events that are sent.
use inngestgo.Prelude.{
  ◌≡◌, ◌≢◌, refl, ◌⊎◌, inl, inr, String, Bool, false, Option, none, some, List, [], ◌∷◌, arith, All,
  str_eq_iff, length,
}
use inngestgo.Json.{Fields, end, field}
use inngestgo.Results.{Result, ok, Result-cases}
use inngestgo.Options.{Environment}
use inngestgo.Client.{
  Sendable, event, generic_event, other_value, validate_event, validate_any, validate_all,
  ClientOpts, Posted, EventApiResponse, no_fields, posted, read_response, checked, send_many,
}

-- Well-formed events: an Event has a name and some data, a GenericEvent has a name.
abbrev pub IsWellFormed : Sendable → Type 0
IsWellFormed (event e) = (e.name ≢ "") × ((fs : Fields) × (e.event_data ≡ some fs) × (fs ≢ end))
IsWellFormed (generic_event name) = name ≢ ""
IsWellFormed other_value = Unit

no_fields-false :
    (d : Option Fields) → no_fields d ≡ false → (fs : Fields) × (d ≡ some fs) × (fs ≢ end)
no_fields-false none h = absurd cc
no_fields-false (some end) h = absurd cc
no_fields-false (some (field k v fs)) h = (field k v fs, refl, λ e. cc)

pub validate_any-ok : (e : Sendable) (t : Unit {0}) → validate_any e ≡ ok t → IsWellFormed e
unfolding validate_any validate_event
validate_any-ok (event e) t h =
    (ground (arith, str_eq_iff e.name ""), no_fields-false e.event_data (ground arith))
validate_any-ok (generic_event name) t h = ground (arith, str_eq_iff name "")
validate_any-ok other_value t h = tt

validate_all-ok : (es : List Sendable) (t : Unit {0}) → validate_all es ≡ ok t → All IsWellFormed es
unfolding validate_all
validate_all-ok [] t h = tt
validate_all-ok (e ∷ es) t h = elim (Result-cases (validate_any e)) [
  | inl (x, v) ↦ absurd (ground arith)
  | inr (u, v) ↦ (validate_any-ok e u v, validate_all-ok es t (ground arith))
]

-- The API accepted the one request; of its ids one is given back, and of several none.
abbrev pub IsAccepted : List String → EventApiResponse → Type 0
IsAccepted ids resp =
    ((resp.status_code ≡ 200) ⊎ (resp.status_code ≡ 201))
    × ((length resp.ids ≡ 1) × (ids ≡ resp.ids) ⊎ (length resp.ids ≢ 1) × (ids ≡ []))

module _ (environment : Environment) (event_key : String) (has_host : String → Bool)
    (marshalled : List Sendable → Result (Unit {0})) (created : Result (Unit {0}))
    (does : Posted → Result EventApiResponse) where
  read_response-ok :
      (resp : EventApiResponse) (ids : List String)
      → read_response environment event_key has_host resp ≡ ok ids
      → IsAccepted ids resp
  unfolding read_response
  read_response-ok resp ids h = ground arith

  -- The checks before the request all succeeded.
  checked-ok :
      (es : List Sendable) (t : Unit {0})
      → checked environment event_key has_host marshalled created does es ≡ ok t
      → All IsWellFormed es
  checked-ok es t h = elim (Result-cases (validate_all es)) [
    | inl (e, v) ↦ absurd (ground arith)
    | inr (u, v) ↦ validate_all-ok es u v
  ]

  -- Where sending gives ids and no error, every event was well-formed, one request was made, with
  -- all the events and to the URL with the event key, and the API answered it 200 or 201; the ids
  -- are those of the answer if there is exactly one, and none otherwise.
  pub send_many-ok :
      (c : ClientOpts) (es : List Sendable) (ids : List String)
      → (send_many environment event_key has_host marshalled created does c es).1 ≡ ok ids
      → All IsWellFormed es
        × ((send_many environment event_key has_host marshalled created does c es).0
            ≡ posted environment event_key has_host c es ∷ [])
        × ((resp : EventApiResponse) × (does (posted environment event_key has_host c es) ≡ ok resp)
            × IsAccepted ids resp)
  unfolding send_many
  send_many-ok c es ids h =
      let req = posted environment event_key has_host c es in
      elim (Result-cases (checked environment event_key has_host marshalled created does es)) [
        | inl (e, k) ↦ absurd (ground arith)
        | inr (t, k) ↦ elim (Result-cases (does req)) [
          | inl (e, d) ↦ absurd (ground arith)
          | inr (resp, d) ↦
              (checked-ok es t k, ground arith, (resp, d, read_response-ok resp ids (ground arith)))
        ]
      ]
