-- ===== src/Connect/Heartbeats.antt =====
-- connect/connection.go, handleConnection: the goroutines beside the read loop, of which one sends
-- the worker's heartbeats and one watches for those of the gateway. What the three of them meet is
-- one sequence; times are in nanoseconds. The WebSocket is a parameter: `cut` is the error of a read
-- whose context is cancelled.
pub mod Missed
pub mod Ends
mod Tests
use inngestgo.Prelude.{
  ℕ, ◌+◌, ◌*◌, Bool, true, false, Option, none, some, List, [], ◌∷◌, ltb, ◌||◌, if◌then◌else◌,
}
use inngestgo.Errors.{Error}
use inngestgo.Results.{Result, err}
use inngestgo.Connect.Reading.{Message, ReadState, read_loop}

abbrev pub worker_heartbeat_interval : ℕ
worker_heartbeat_interval = 10 * 1000000000

abbrev pub grace_period : ℕ
grace_period = 2 * worker_heartbeat_interval

pub data Beat : Type 0 where
  reads : Result Message → Beat
  -- a tick of heartbeatTicker, with the outcome of the write
  sender_tick : Result (Unit {0}) → Beat
  -- a tick of heartbeatReplyTicker, the first one after two intervals
  watch_tick : (at : ℕ) → Beat
  -- `<-ctx.Done()`
  worker_done : Beat

-- `ended` is what the read loop has returned, `missed` whether the watch has cancelled the reader's
-- context.
pub record Session : Type 0 where
  pub reading : ReadState
  pub ended : Option Error
  pub sent : ℕ
  pub missed : Bool
  pub is_done : Bool

-- `lastGatewayHeartbeatReceived.Before(time.Now().Add(-gracePeriod))`; without a heartbeat it is
-- the zero time, which is before all others.
unfoldable pub is_overdue : ℕ → Option ℕ → Bool
is_overdue at none = true
is_overdue at (some last) = ltb (last + grace_period) at

-- `readerLifetimeContext.Err() != nil`: the watch has cancelled it, or its parent is done.
abbrev pub is_cancelled : Session → Bool
is_cancelled s = s.missed || s.is_done

module _ (cut : Error) where
  -- A read, while the loop has not ended. Once its context is cancelled, also while it waits, it
  -- fails.
  unfoldable pub read_one : Option Error → Result Message → Session → Session
  read_one (some e) r s = s
  read_one none r s =
      let (e, t) = read_loop ((if is_cancelled s then err cut else r) ∷ []) s.reading in
      record s { reading = t; ended = e }

  -- An error of the write is only logged.
  unfoldable pub beat : Beat → Session → Session
  unfolding is_overdue read_one
  beat (reads r) s = read_one s.ended r s
  beat (sender_tick written) s = if s.is_done then s else record s { sent = s.sent + 1 }
  beat (watch_tick at) s =
      if s.is_done
      then s
      else if is_overdue at s.reading.last_heartbeat
      then record s { missed = true }
      else s
  beat worker_done s = record s { is_done = true }

  unfoldable pub session : List Beat → Session → Session
  unfolding beat
  session [] s = s
  session (b ∷ bs) s = session bs (beat b s)

-- What handleConnection starts with; the reading goes on from a state with no heartbeat.
abbrev pub new_session : ReadState → Session
new_session t = record { reading = t; ended = none; sent = 0; missed = false; is_done = false }
