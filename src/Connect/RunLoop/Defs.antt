-- ===== src/Connect/RunLoop/Defs.antt =====
-- The state and the rounds of the run loop.
use inngestgo.Prelude.{
  ℕ, zero, suc, ◌+◌, ◌*◌, String, Bool, true, false, ◌||◌, ◌&&◌, Option, none, some, List, [], ◌∷◌,
  ◌++◌, str_eq, ◌==◌, if◌then◌else◌,
}
use inngestgo.Errors.{
  Error, text, sentinel, unauthenticated, too_many_connections, any_link, close_reason,
}

pub data ConnectionState : Type 0 where
  connecting active paused reconnecting closing closed : ConnectionState

pub record AuthContext : Type 0 where
  pub hashed_signing_key : String
  pub fallback : Bool

pub record Keys : Type 0 where
  pub hashed_signing_key : String
  pub hashed_signing_key_fallback : String

-- The handler's state and auth, and the loop's own variables.
pub record Loop : Type 0 where
  pub state : ConnectionState
  pub auth : AuthContext
  pub attempts : ℕ
  pub is_initial_connection : Bool

pub record ConnectReport : Type 0 where
  pub reconnect : Bool
  pub err : Option Error

pub data Event : Type 0 where
  worker_done : Event
  connected : Event
  -- with whether there are buffered messages, and whether the worker's context ends during the wait
  connect_done : ConnectReport → (has_messages done_waiting : Bool) → Event
  initiate : Event

pub data Action : Type 0 where
  signal : Option Error → Action  -- a send to initialConnectionDone
  flush : String → Action
  wait : ℕ → Action  -- in nanoseconds
  connect : String → Action  -- `go h.connect` with the key

-- The loop goes on, or returns.
pub data Next : Type 0 where
  continues : Next
  returns : Option Error → Next

pub record Round : Type 0 where
  pub loop : Loop
  pub actions : List Action
  pub next : Next

abbrev second : ℕ
second = 1000000000

abbrev nth_or_last : List ℕ → ℕ → ℕ → ℕ
nth_or_last [] n last = last
nth_or_last (x ∷ xs) zero last = x
nth_or_last (x ∷ xs) (suc n) last = nth_or_last xs n x

unfoldable pub exp_backoff : ℕ → ℕ
exp_backoff attempt =
    nth_or_last
      (second
        ∷ (2 * second)
        ∷ (5 * second)
        ∷ (10 * second)
        ∷ (20 * second)
        ∷ (30 * second)
        ∷ (60 * second)
        ∷ (120 * second)
        ∷ (300 * second)
        ∷ [])
      attempt 0

-- `if isInitialConnection { isInitialConnection = false; initialConnectionDone <- e }`
abbrev pub signals : Option Error → Loop → List Action
signals e l = if l.is_initial_connection then signal e ∷ [] else []

abbrev pub signalled : Loop → Loop
signalled l = record l { is_initial_connection = false }

-- The loop ends with e, and says so to a caller that still waits.
abbrev pub stop_with : Loop → Option Error → Option Error → Round
stop_with l told e = record { loop = signalled l; actions = signals told l; next = returns e }

-- What follows the `select`.
unfoldable pub try_connect : Loop → Round
try_connect l =
    if l.attempts == 5
    then stop_with l (some (text "could not establish connection after 5 attempts"))
        (some (text "could not establish connection after 5 attempts"))
    else record {
      loop = record l { attempts = l.attempts + 1 };
      actions = connect l.auth.hashed_signing_key ∷ [];
      next = continues;
    }

abbrev pub before : List Action → Round → Round
before first r = record r { actions = first ++ r.actions }

abbrev pub flushes : Bool → Loop → List Action
flushes true l = flush l.auth.hashed_signing_key ∷ []
flushes false l = []

-- Flush, wait for the delay or the end of the worker, and try again.
unfoldable pub retry : Bool → Bool → Loop → Round
unfolding try_connect exp_backoff
retry has_messages done_waiting l =
    before (flushes has_messages l ++ wait (exp_backoff l.attempts) ∷ [])
      (if done_waiting then stop_with l none none else try_connect l)

unfoldable pub is_too_many : Error → Bool
is_too_many (sentinel too_many_connections) = true
is_too_many _ = false

unfoldable pub is_unauthenticated : Error → Bool
is_unauthenticated (sentinel unauthenticated) = true
is_unauthenticated _ = false

-- The reasons of a close after which the loop reconnects.
unfoldable pub is_retriable : Option String → Bool
is_retriable none = true
is_retriable (some reason) =
    str_eq reason "connect_authentication_failed"
    || str_eq reason "connect_gateway_closing"
    || str_eq reason "connect_internal_error"
    || str_eq reason "connect_worker_hello_timeout"

abbrev use_fallback : Keys → Loop → Loop
use_fallback keys l = record l {
  auth = record { hashed_signing_key = keys.hashed_signing_key_fallback; fallback = true };
}

unfoldable pub check_reason : Error → Bool → Bool → Loop → Round
unfolding retry is_retriable
check_reason e has_messages done_waiting l =
    if is_retriable (close_reason e)
    then retry has_messages done_waiting l
    else stop_with l (some (text "connect failed with error code"))
        (some (text "connect failed with error code"))

unfoldable pub check_auth : Keys → Error → Bool → Bool → Loop → Round
unfolding check_reason is_unauthenticated
check_auth keys e has_messages done_waiting l =
    if any_link is_unauthenticated e
    then (if l.auth.fallback
        then stop_with l (some (text "failed to authenticate with fallback key, exiting"))
            (some (text "failed to authenticate with fallback key, exiting"))
        else if str_eq keys.hashed_signing_key_fallback ""
        then stop_with l (some (text "fallback signing key is required"))
            (some (text "fallback signing key is required"))
        else check_reason e has_messages done_waiting (use_fallback keys l))
    else check_reason e has_messages done_waiting l

-- The branch of a report that asks to reconnect. Where too many connections end the first one, the
-- loop returns the outer `err`, which is nil.
unfoldable pub on_error : Keys → Option Error → Bool → Bool → Loop → Round
unfolding check_auth is_too_many retry
on_error keys none has_messages done_waiting l = retry has_messages done_waiting l
on_error keys (some e) has_messages done_waiting l =
    if any_link is_too_many e && l.is_initial_connection
    then stop_with l (some (text "too many connections")) none
    else check_auth keys e has_messages done_waiting l

-- One round of the loop.
unfoldable pub round : Keys → Loop → Event → Round
unfolding on_error try_connect
round keys l worker_done = record { loop = l; actions = []; next = returns none }
round keys l connected = record {
  loop = record l { state = active; attempts = 0; is_initial_connection = false };
  actions = signals none l;
  next = continues;
}
round keys l (connect_done report has_messages done_waiting) =
    if report.reconnect
    then on_error keys report.err has_messages done_waiting (record l { state = reconnecting })
    else stop_with (record l { state = closed }) none none
round keys l initiate = try_connect l

-- The loop over the events that it receives, up to its return.
unfoldable pub run : Keys → Loop → List Event → Round
unfolding round
run keys l [] = record { loop = l; actions = []; next = continues }
run keys l (e ∷ es) =
    let r = round keys l e in
    let rest = run keys r.loop es in
    elim r.next [ continues ↦ before r.actions rest | returns x ↦ r ]

-- The loop's start in connectHandler.Connect, which refuses an empty key.
unfoldable pub start : Keys → Option Loop
start keys =
    if str_eq keys.hashed_signing_key ""
    then none
    else some (record {
      state = connecting;
      auth = record { hashed_signing_key = keys.hashed_signing_key; fallback = false };
      attempts = 0;
      is_initial_connection = true;
    })
