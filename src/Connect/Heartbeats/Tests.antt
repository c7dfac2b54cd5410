-- ===== src/Connect/Heartbeats/Tests.antt =====
-- A gateway that sends two heartbeats and then none, and what becomes of its connection.
use inngestgo.Prelude.{
  ℕ, ◌*◌, ◌≡◌, refl, ◌↔◌, true, false, none, some, List, [], ◌∷◌, ◌++◌, arith, All,
}
use inngestgo.Errors.{Error, sentinel, context_canceled}
use inngestgo.Results.{ok}
use inngestgo.Connect.Buffer.{new_message_buffer}
use inngestgo.Connect.RunLoop.Defs.{Keys, Loop, active}
use inngestgo.Connect.Handshake.{gateway_heartbeat}
use inngestgo.Connect.Reading.{ReadState, read_loop}
use inngestgo.Connect.Heartbeats.{Beat, reads, sender_tick, watch_tick, session, new_session}
use inngestgo.Connect.Heartbeats.Missed.{GoesOn, IsSilent, session-IsSilent}
use inngestgo.Connect.Heartbeats.Ends.{outcome, reads_until_cut, session-read_loop}

abbrev cut : Error
cut = sentinel context_canceled

abbrev seconds : ℕ → ℕ
seconds n = n * 1000000000

abbrev heartbeat : ℕ → Beat
heartbeat at =
    reads (ok (record { number = at; kind = gateway_heartbeat; at = at; decoded = ok tt }))

abbrev beats : List Beat
beats =
    sender_tick (ok tt)
    ∷ heartbeat (seconds 10)
    ∷ watch_tick (seconds 20)
    ∷ heartbeat (seconds 21)
    ∷ watch_tick (seconds 30)
    ∷ watch_tick (seconds 40)
    ∷ watch_tick (seconds 50)
    ∷ []

abbrev nothing_read : ReadState
nothing_read = record { added = []; last_heartbeat = none; buffer = new_message_buffer }

beats_missed : (session cut beats (new_session nothing_read)).missed ≡ true
unfolding session read_loop
beats_missed = refl

beats-GoesOn : All GoesOn beats
beats-GoesOn = (tt, ((λ e. cc), (tt, ((λ e. cc), (tt, (tt, (tt, tt)))))))

session-IsSilent_example :
    ((session cut beats (new_session nothing_read)).missed ≡ true) ↔ IsSilent beats
session-IsSilent_example =
    session-IsSilent cut beats nothing_read refl beats-GoesOn
      (tt, (tt, (tt, (omega arith, (tt, (tt, (tt, tt)))))))

-- A read behind the tick at which the gateway counts as lost.
abbrev late : List Beat
late = beats ++ heartbeat (seconds 51) ∷ []

late-outcome : (session cut late (new_session nothing_read)).ended ≡ some cut
unfolding session read_loop
late-outcome = refl

session-read_loop_example :
    outcome (session cut late (new_session nothing_read))
    ≡ read_loop (reads_until_cut cut none late) nothing_read
session-read_loop_example = session-read_loop cut late (new_session nothing_read) refl refl

abbrev keys : Keys
keys = record { hashed_signing_key = "first"; hashed_signing_key_fallback = "" }

abbrev loop : Loop
loop = record {
  state = active;
  auth = record { hashed_signing_key = "first"; fallback = false };
  attempts = 0;
  is_initial_connection = false;
}
