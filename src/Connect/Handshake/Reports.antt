-- ===== src/Connect/Handshake/Reports.antt =====
-- What a connection reports to the run loop, and what becomes of acknowledgements.
use inngestgo.Prelude.{
  String, Bool, true, false, ◌≡◌, ◌≢◌, refl, ◌⊎◌, ◌↔◌, inl, inr, Option, none, some, [], ◌∷◌, arith,
  lookup, lookup-erase, str_eq_iff, All, Bool-cases,
}
use inngestgo.Errors.{Error, text, wrapped, reconnect, any_link, close_reason, close_error}
use inngestgo.Connect.Buffer.{MessageBuffer, acknowledge}
use inngestgo.Connect.RunLoop.Defs.{
  ConnectReport, Keys, Loop, connect_done, returns, round, on_error, check_auth, check_reason,
  is_too_many, is_unauthenticated, is_retriable,
}
use inngestgo.Connect.RunLoop.Attempts.{connects}
use inngestgo.Connect.Handshake.{
  Result, ok, err, gateway_hello, gateway_connection_ready, HandshakeCalls,
  perform_connect_handshake, PrepareCalls, Connection, prepare_connection, should_reconnect,
  read_error, handle_connection, after_connection, Notice, connected, done, connect,
  handle_message_reply_ack, is_draining, is_lost,
}

Result-cases {ℓ} :
    {A : Type ℓ} (r : Result A) → ((e : Error) × (r ≡ err e)) ⊎ ((a : A) × (r ≡ ok a))
Result-cases (err e) = inl (e, refl)
Result-cases (ok a) = inr (a, refl)

prepare_connection-err :
    (c : PrepareCalls) (e : Error) → prepare_connection c ≡ err e → should_reconnect e ≡ true
unfolding prepare_connection should_reconnect any_link
prepare_connection-err c e h = ground arith

read_error-should_reconnect :
    (e : Error)
    → any_link is_draining (read_error e) ≡ false
    → should_reconnect (read_error e) ≡ true
unfolding read_error should_reconnect any_link is_draining
read_error-should_reconnect e d = ground arith

-- A report asks to reconnect, or the connection was set up and ended without an error.
abbrev pub IsSound : Result Connection → Result (Unit {0}) → Option Error → Notice → Type 0
IsSound p flushed read connected = (c : Connection) × (p ≡ ok c)
IsSound p flushed read (done r) =
    (r.reconnect ≡ true) ⊎ ((c : Connection) × (p ≡ ok c) × (flushed ≡ ok tt) × (read ≡ none))

ended-IsSound :
    (p : Connection) (flushed : Result (Unit {0})) (read : Option Error)
    → All (IsSound (ok p) flushed read) (after_connection (handle_connection flushed read))
unfolding after_connection handle_connection should_reconnect any_link
ended-IsSound p (err e) read = ground arith
ended-IsSound p (ok t) none = (inr (p, refl, refl, refl), tt)
ended-IsSound p (ok t) (some e) = elim (Bool-cases (any_link is_draining (read_error e))) [
  | inl d ↦ rw d tt
  | inr d ↦ rw d (inl (read_error-should_reconnect e d), tt)
]

-- Whatever the API, the gateway and the WebSocket answer, each report of a connection asks the run
-- loop to reconnect, unless the connection was set up and ended without an error; and a connection
-- is announced as established only if it was set up.
pub connect-IsSound :
    (c : PrepareCalls) (flushed : Result (Unit {0})) (read : Option Error)
    → All
        (IsSound (prepare_connection c) flushed read)
        (connect (prepare_connection c) flushed read)
unfolding connect
connect-IsSound c flushed read = elim (Result-cases (prepare_connection c)) [
  | inl (e, p) ↦ rw (p, connect) (inl (prepare_connection-err c e p), tt)
  | inr (k, p) ↦ rw (p, connect) ((k, refl), ended-IsSound k flushed read)
]

-- The handshake succeeds exactly when the gateway's hello is read first, the connect message is
-- sent, and the gateway's ready message is read then.
perform_connect_handshake_iff :
    (c : HandshakeCalls)
    → (perform_connect_handshake c ≡ ok tt) ↔ (
        (c.hello ≡ ok gateway_hello)
        × (c.marshalled ≡ ok tt)
        × (c.sent ≡ ok tt)
        × (c.ready ≡ ok gateway_connection_ready))
unfolding perform_connect_handshake
perform_connect_handshake_iff c = (λ h. ground arith, λ h. ground arith)

-- A reply acknowledgement from the gateway leaves every response that waits for one waiting,
-- whatever the message holds, since the empty request id is acknowledged in its place.
handle_message_reply_ack-pending :
    (payload : Result (Unit {0})) (m : MessageBuffer) (id : String)
    → id ≢ ""
    → let m' = (handle_message_reply_ack payload m).1 in
      (lookup id m'.pending_ack ≡ lookup id m.pending_ack) × (m'.buffered ≡ m.buffered)
unfolding handle_message_reply_ack acknowledge
handle_message_reply_ack-pending (err e) m id ne = (refl, refl)
handle_message_reply_ack-pending (ok t) m id ne =
    ground (arith, lookup-erase "" id m.pending_ack, str_eq_iff "" id)

-- A connection that is lost with no close frame, as by the end of the stream, is reported with an
-- empty close reason, and the run loop then gives up: it returns an error and starts no connection,
-- although the report asks to reconnect.
pub lost-gives_up :
    (keys : Keys) (l : Loop) (e : Error) (h d : Bool)
    → close_reason e ≡ none
    → any_link is_draining e ≡ false
    → any_link is_lost e ≡ true
    → (r : ConnectReport) × (x : Error) × (after_connection (handle_connection (ok tt) (some e))
        ≡ done r ∷ [])
      × (r.reconnect ≡ true)
      × ((round keys l (connect_done r h d)).next ≡ returns (some x))
      × (connects (round keys l (connect_done r h d)).actions ≡ 0)
unfolding after_connection handle_connection read_error should_reconnect any_link close_reason
    is_draining round on_error check_auth check_reason is_too_many is_unauthenticated is_retriable
    connects
lost-gives_up keys l e h d c n s = (
  record {
    reconnect = true;
    err = some (
        wrapped "could not handle connection"
          (reconnect (wrapped "connection closed unexpectedly" (close_error ""))));
  },
  text "connect failed with error code",
  ground arith,
  refl,
  ground arith,
  ground arith,
)
