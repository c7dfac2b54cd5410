-- ===== src/Client/Tests.antt =====
-- The theorem about sending, for one event of two.
use inngestgo.Prelude.{String, Bool, false, ◌≡◌, refl, List, [], ◌∷◌, none, some, All, pos}
use inngestgo.Json.{string, field, end}
use inngestgo.Results.{Result, ok}
use inngestgo.Options.Tests.{environment}
use inngestgo.Client.{
  Sendable, event, generic_event, ClientOpts, Posted, EventApiResponse, posted, send_many,
}
use inngestgo.Client.Sending.{IsWellFormed, IsAccepted, send_many-ok}

abbrev events : List Sendable
events =
    event (record {
      id = none;
      name = "app/user.created";
      event_data = some (field "id" (string "7") end);
      user = none;
      timestamp = pos 0;
      version = "";
    })
    ∷ generic_event "app/user.greeted"
    ∷ []

abbrev client : ClientOpts
client = record { event_key = none; event_url = none; env = none }

abbrev no_host : String → Bool
no_host s = false

abbrev fine : List Sendable → Result (Unit {0})
fine es = ok tt

abbrev two_ids : Posted → Result EventApiResponse
two_ids req = ok (record { status_code = 200; ids = "1" ∷ "2" ∷ [] })

nothing_returned :
    (send_many environment "key" no_host fine (ok tt) two_ids client events).1 ≡ ok []
unfolding send_many
nothing_returned = refl

send_many-ok_example :
    All IsWellFormed events
    × ((send_many environment "key" no_host fine (ok tt) two_ids client events).0
        ≡ posted environment "key" no_host client events ∷ [])
    × ((resp : EventApiResponse) × (two_ids (posted environment "key" no_host client events)
          ≡ ok resp)
        × IsAccepted [] resp)
send_many-ok_example =
    send_many-ok environment "key" no_host fine (ok tt) two_ids client events [] nothing_returned
