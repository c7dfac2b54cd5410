-- ===== src/Connect/Reading/Tests.antt =====
-- The theorem about the read loop, for a request, a heartbeat and the closing message.
use inngestgo.Prelude.{List, [], ◌∷◌, none}
use inngestgo.Results.{Result, ok}
use inngestgo.Connect.Buffer.{new_message_buffer}
use inngestgo.Connect.Handshake.{gateway_closing, gateway_executor_request, gateway_heartbeat}
use inngestgo.Connect.Reading.{Message, ReadState, read_loop}
use inngestgo.Connect.Reading.Ends.{Outcome, read_loop-Outcome}

abbrev reads : List (Result Message)
reads =
    ok (record { number = 1; kind = gateway_executor_request; at = 5; decoded = ok tt })
    ∷ ok (record { number = 2; kind = gateway_heartbeat; at = 6; decoded = ok tt })
    ∷ ok (record { number = 3; kind = gateway_closing; at = 7; decoded = ok tt })
    ∷ []

abbrev nothing_read : ReadState
nothing_read = record { added = []; last_heartbeat = none; buffer = new_message_buffer }

read_loop-Outcome_example : Outcome reads nothing_read (read_loop reads nothing_read)
read_loop-Outcome_example = read_loop-Outcome reads nothing_read
