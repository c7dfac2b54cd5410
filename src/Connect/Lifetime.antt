-- ===== src/Connect/Lifetime.antt =====
-- The end of a worker: connect/connection.go, the shutdown in handleConnection, and
-- connect/handler.go, the end of Connect and Close; sendBufferedMessage of connect/workerapi.go,
-- which the flushes call, and instanceId.
pub mod Safe
pub mod Flushes
mod Tests
use inngestgo.Prelude.{
  ℕ, String, Bool, true, false, Option, none, some, List, [], ◌∷◌, ◌==◌, ◌||◌, ◌&&◌, not, str_eq,
  if◌then◌else◌, Map,
}
use inngestgo.Errors.{Error, text, wrapped}
use inngestgo.Results.{Result, ok, err, plain, ◌>>=◌, ◌>>◌}
use inngestgo.Connect.Buffer.{
  SdkResponse, MessageBuffer, has_messages, flush, wake, append, add_pending,
}
use inngestgo.Connect.Delivery.{Ledger, flush_ledger}
use inngestgo.Connect.RunLoop.Defs.{ConnectionState, closed}

-- The steps of sendBufferedMessage, each with its outcome.
pub record FlushCall : Type 0 where
  pub marshalled : Result (Unit {0})
  pub created : Result (Unit {0})
  pub sent : Result ℕ
  pub body_read : Result (Unit {0})
  pub unmarshalled : Result (Unit {0})

abbrev is_ok_status : ℕ → Result (Unit {0})
is_ok_status status = if status == 200 then ok tt else err (text "unexpected status code")

unfoldable pub send_buffered_message : FlushCall → Result (Unit {0})
send_buffered_message c = do
  plain "could not marshal sdk response for flush request" c.marshalled
  plain "could not create flush request" c.created
  status ← plain "could not send flush request" c.sent
  is_ok_status status
  plain "could not read flush response" c.body_read
  plain "could not unmarshal flush response" c.unmarshalled

-- How far the connection is with its shutdown at the end of handleConnection: it writes
-- WORKER_PAUSE, waits for the worker pool, closes the socket, flushes, and sends its report.
pub data EndStage : Type 0 where
  pausing waiting closing flushing reporting gone : EndStage

-- How far Connect is: the run loop runs, its end waits for the report, may flush, has flushed.
pub data FinalStage : Type 0 where
  runs waits goes_on over : FinalStage

-- `timed_out` is "shutting down without final signal", `failed` that the error of a flush is logged.
pub record Shutdown : Type 0 where
  pub stage : EndStage
  pub final : FinalStage
  pub timed_out : Bool
  pub failed : Bool
  pub ledger : Ledger

pub data Ending : Type 0 where
  connection_goes_on : (ℕ → SdkResponse → Bool) → (ℕ → Map SdkResponse → Map SdkResponse) → Ending
  -- a goroutine of addPending wakes
  wakes : SdkResponse → Ending
  -- a request that still runs has its response, which is written or not
  hands_over : SdkResponse → (written : Bool) → Ending
  run_loop_ends : Ending
  takes_report : Ending
  five_seconds : Ending
  flushes_last : (ℕ → SdkResponse → Bool) → (ℕ → Map SdkResponse → Map SdkResponse) → Ending

abbrev pub requests_run : EndStage → Bool
requests_run pausing = true
requests_run waiting = true
requests_run _ = false

abbrev pub handed_over : SdkResponse → Bool → MessageBuffer → MessageBuffer
handed_over r true m = add_pending r m
handed_over r false m = append r (add_pending r m)

abbrev pub buffer_to : MessageBuffer → Shutdown → Shutdown
buffer_to m s = record s { ledger = record s.ledger { buffer = m } }

-- `if h.messageBuffer.hasMessages() { … flush … }`, with an error only logged.
unfoldable pub flush_at_end :
    (ℕ → SdkResponse → Bool) → (ℕ → Map SdkResponse → Map SdkResponse) → Shutdown → Shutdown
unfolding has_messages flush flush_ledger
flush_at_end sends order s = record s {
  failed = s.failed || (has_messages s.ledger.buffer && not (flush sends order s.ledger.buffer).2);
  ledger = flush_ledger sends order s.ledger;
}

-- The next step of the connection, by how far it is; the report waits for its receiver.
unfoldable pub shut_down_connection :
    (ℕ → SdkResponse → Bool)
    → (ℕ → Map SdkResponse → Map SdkResponse)
    → EndStage
    → Shutdown
    → Shutdown
unfolding flush_at_end
shut_down_connection sends order pausing s = record s { stage = waiting }
shut_down_connection sends order waiting s = record s { stage = closing }
shut_down_connection sends order closing s = record s { stage = flushing }
shut_down_connection sends order flushing s = record (flush_at_end sends order s) {
  stage = reporting;
}
shut_down_connection sends order reporting s = s
shut_down_connection sends order gone s = s

-- The report ends a run loop that still runs, and else its end goes on.
abbrev pub report_taken : FinalStage → Shutdown → Shutdown
report_taken runs s = record s { stage = gone; final = waits }
report_taken waits s = record s { stage = gone; final = goes_on }
report_taken _ s = s

abbrev pub wait_over : FinalStage → Shutdown → Shutdown
wait_over waits s = record s { final = goes_on; timed_out = true }
wait_over _ s = s

abbrev pub loop_over : FinalStage → Shutdown → Shutdown
loop_over runs s = record s { final = waits }
loop_over _ s = s

abbrev pub last_flush :
    (ℕ → SdkResponse → Bool)
    → (ℕ → Map SdkResponse → Map SdkResponse)
    → FinalStage
    → Shutdown
    → Shutdown
last_flush sends order goes_on s = record (flush_at_end sends order s) { final = over }
last_flush sends order _ s = s

abbrev pub is_reporting : EndStage → Bool
is_reporting reporting = true
is_reporting _ = false

-- The end of a connection that is set up, and of Connect, one step of one goroutine at a time.
unfoldable pub shut_down : Ending → Shutdown → Shutdown
unfolding shut_down_connection wake append add_pending flush_at_end
shut_down (connection_goes_on sends order) s = shut_down_connection sends order s.stage s
shut_down (wakes r) s = buffer_to (wake r s.ledger.buffer) s
shut_down (hands_over r written) s =
    if requests_run s.stage then buffer_to (handed_over r written s.ledger.buffer) s else s
shut_down run_loop_ends s = loop_over s.final s
shut_down takes_report s = if is_reporting s.stage then report_taken s.final s else s
shut_down five_seconds s = wait_over s.final s
shut_down (flushes_last sends order) s = last_flush sends order s.final s

-- The worker is told to end while its connection is handled.
abbrev pub new_shutdown : MessageBuffer → Shutdown
new_shutdown m = record {
  stage = pausing;
  final = runs;
  timed_out = false;
  failed = false;
  ledger = record { buffer = m; sent = [] };
}

unfoldable pub shut_down_all : List Ending → Shutdown → Shutdown
unfolding shut_down
shut_down_all [] s = s
shut_down_all (e ∷ es) s = shut_down_all es (shut_down e s)

-- What Close and Connect look at; `set_up` tells whether cancelWorkerCtx is set.
pub record WorkerState : Type 0 where
  pub is_closed : Bool
  pub set_up : Bool
  pub cancelled : Bool
  pub state : ConnectionState

-- Close; the goroutine that it waits for returns no error.
unfoldable pub close : WorkerState → Result (Unit {0}) × WorkerState
close w =
    if w.is_closed
    then (ok tt, w)
    else if w.set_up
    then (ok tt, record { is_closed = true; set_up = true; cancelled = true; state = closed })
    else (err (text "connection was not fully set up"), record w { is_closed = true })

-- What Connect waits for: its context's end, or what the run loop tells of the first connection.
pub data First : Type 0 where
  cancelled_first : First
  told : Option Error → First

unfoldable pub await_first : First → WorkerState → Result (Unit {0}) × WorkerState
unfolding close
await_first cancelled_first w =
    (err (text "context canceled while establishing connection"), (close w).1)
await_first (told none) w = (ok tt, w)
await_first (told (some e)) w = (err (wrapped "could not establish connection" e), w)

unfoldable pub instance_id : Option String → (hostname : String) → String
instance_id (some id) hostname = id
instance_id none hostname = if str_eq hostname "" then "<missing-instance-id>" else hostname
