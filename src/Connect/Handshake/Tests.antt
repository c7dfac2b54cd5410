-- ===== src/Connect/Handshake/Tests.antt =====
-- The theorems about a connection, at concrete answers of the API, the gateway and the WebSocket.
use inngestgo.Prelude.{
  String, true, false, ◌≡◌, ◌≢◌, refl, none, some, [], ◌∷◌, All, arith, str_eq_iff,
}
use inngestgo.Json.{null}
use inngestgo.Errors.{Error, sentinel, io_eof, any_link, close_reason}
use inngestgo.Connect.Buffer.{value_body, MessageBuffer, new_message_buffer, add_pending, Status}
use inngestgo.Connect.RunLoop.Defs.{
  ConnectReport, Keys, Loop, connecting, connect_done, returns, round,
}
use inngestgo.Connect.RunLoop.Attempts.{connects}
use inngestgo.Connect.Handshake.{
  Result, ok, err, StartCall, StartResponse, gateway_hello, gateway_connection_ready,
  HandshakeCalls, perform_connect_handshake, PrepareCalls, prepare_connection, handle_connection,
  after_connection, connect, handle_message_reply_ack, is_draining, is_lost,
}
use inngestgo.Connect.Handshake
use inngestgo.Connect.Handshake.Reports.{IsSound, connect-IsSound, lost-gives_up}

abbrev pub handshake : HandshakeCalls
handshake = record {
  hello = ok gateway_hello;
  marshalled = ok tt;
  sent = ok tt;
  ready = ok gateway_connection_ready;
}

abbrev pub prepare : PrepareCalls
prepare = record {
  start = record {
    marshalled = ok tt;
    created = ok tt;
    sent = ok 200;
    body_read = ok tt;
    unmarshalled = ok (record {
      gateway_endpoint = "wss://gateway";
      gateway_group = "a";
      session_token = "s";
      sync_token = "t";
    });
  };
  parsed = ok tt;
  rewritten = ok tt;
  dialled = ok tt;
  handshake = handshake;
}

connect-IsSound_example :
    All
      (IsSound (prepare_connection prepare) (ok tt) (some (sentinel io_eof)))
      (connect (prepare_connection prepare) (ok tt) (some (sentinel io_eof)))
connect-IsSound_example = connect-IsSound prepare (ok tt) (some (sentinel io_eof))

abbrev waiting : MessageBuffer
waiting =
    add_pending
      (record {
        request_id = "r";
        env_id = "env";
        app_id = "app";
        status = Status.done;
        body = value_body null;
        no_retry = false;
        retry_after = none;
      })
      new_message_buffer

an_id : ◌≢◌ {A = String} "r" ""
an_id e = ground (arith, str_eq_iff "r" "")

abbrev keys : Keys
keys = record { hashed_signing_key = "first"; hashed_signing_key_fallback = "" }

abbrev fresh : Loop
fresh = record {
  state = connecting;
  auth = record { hashed_signing_key = "first"; fallback = false };
  attempts = 1;
  is_initial_connection = false;
}

io_eof-close_reason : close_reason (sentinel io_eof) ≡ none
unfolding close_reason
io_eof-close_reason = refl

io_eof-is_draining : any_link is_draining (sentinel io_eof) ≡ false
unfolding any_link is_draining
io_eof-is_draining = refl

io_eof-is_lost : any_link is_lost (sentinel io_eof) ≡ true
unfolding any_link is_lost
io_eof-is_lost = refl

lost-gives_up_example :
    (r : ConnectReport) × (x : Error) × (after_connection
        (handle_connection (ok tt) (some (sentinel io_eof)))
      ≡ Handshake.done r ∷ [])
    × (r.reconnect ≡ true)
    × ((round keys fresh (connect_done r true false)).next ≡ returns (some x))
    × (connects (round keys fresh (connect_done r true false)).actions ≡ 0)
lost-gives_up_example =
    lost-gives_up keys fresh (sentinel io_eof) true false io_eof-close_reason io_eof-is_draining
      io_eof-is_lost
