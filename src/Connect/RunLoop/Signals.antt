-- ===== src/Connect/RunLoop/Signals.antt =====
-- What the caller of Connect is told about the first connection.
use inngestgo.Prelude.{
  ℕ, suc, ◌+◌, ◌≡◌, ◌⊎◌, Bool, true, false, Option, none, some, List, [], ◌∷◌, ◌++◌, arith, All,
}
use inngestgo.Errors.{Error}
use inngestgo.Connect.RunLoop.Defs.{
  Loop, Keys, reconnecting, Event, worker_done, connected, connect_done, initiate, Action, signal,
  flush, wait, connect, continues, Round, try_connect, retry, check_reason, check_auth, on_error,
  round, run,
}

-- The sends to initialConnectionDone among the actions.
pub told : List Action → ℕ
told [] = 0
told (signal e ∷ acts) = suc (told acts)
told (flush k ∷ acts) = told acts
told (wait d ∷ acts) = told acts
told (connect k ∷ acts) = told acts

abbrev pub waiting : Bool → ℕ
waiting true = 1
waiting false = 0

told-append : (acts bs : List Action) → told (acts ++ bs) ≡ told acts + told bs
unfolding told
told-append [] bs = omega arith
told-append (signal e ∷ acts) bs = omega (arith, told-append acts bs)
told-append (flush k ∷ acts) bs = told-append acts bs
told-append (wait d ∷ acts) bs = told-append acts bs
told-append (connect k ∷ acts) bs = told-append acts bs

-- A round tells a waiting caller or leaves it waiting, and one that returns leaves nobody waiting.
abbrev pub IsTold : Loop → Round → Type 0
IsTold l r =
    (told r.actions + waiting r.loop.is_initial_connection ≡ waiting l.is_initial_connection)
    × ((r.next ≡ continues) ⊎ (r.loop.is_initial_connection ≡ false))

try_connect-IsTold : (l : Loop) → IsTold l (try_connect l)
unfolding try_connect told
try_connect-IsTold l = ground arith

retry-IsTold : (h d : Bool) (l : Loop) → IsTold l (retry h d l)
unfolding retry told
retry-IsTold h d l = ground (arith, try_connect-IsTold l)

check_reason-IsTold : (e : Error) (h d : Bool) (l : Loop) → IsTold l (check_reason e h d l)
unfolding check_reason told
check_reason-IsTold e h d l = ground (arith, retry-IsTold h d l)

check_auth-IsTold :
    (keys : Keys) (e : Error) (h d : Bool) (l : Loop) → IsTold l (check_auth keys e h d l)
unfolding check_auth told
check_auth-IsTold keys e h d l = ground (
  arith,
  check_reason-IsTold e h d l,
  check_reason-IsTold e h d (record l {
    auth = record { hashed_signing_key = keys.hashed_signing_key_fallback; fallback = true };
  }),
)

on_error-IsTold :
    (keys : Keys) (e : Option Error) (h d : Bool) (l : Loop) → IsTold l (on_error keys e h d l)
unfolding on_error told
on_error-IsTold keys none h d l = retry-IsTold h d l
on_error-IsTold keys (some e) h d l = ground (arith, check_auth-IsTold keys e h d l)

abbrev IsEvent : Event → Type 0
IsEvent worker_done = ⊥
IsEvent connected = Unit
IsEvent (connect_done r h d) = Unit
IsEvent initiate = Unit

round-IsTold : (keys : Keys) (l : Loop) (e : Event) → IsEvent e → IsTold l (round keys l e)
unfolding round told
round-IsTold keys l worker_done ev = absurd ev
round-IsTold keys l connected ev = ground arith
round-IsTold keys l (connect_done r h d) ev =
    ground (arith, on_error-IsTold keys r.err h d (record l { state = reconnecting }))
round-IsTold keys l initiate ev = try_connect-IsTold l

abbrev pub NotDone : List Event → Type 0
NotDone es = All IsEvent es

-- While the worker is not closed, the loop tells the caller of Connect about its first connection
-- at most once; it has told exactly when it no longer takes the connection for the first one, and
-- it never returns without having told.
pub run-told :
    (keys : Keys) (l : Loop) (es : List Event)
    → NotDone es
    → let r = run keys l es in
      (told r.actions + waiting r.loop.is_initial_connection ≡ waiting l.is_initial_connection)
      × ((r.next ≡ continues) ⊎ (r.loop.is_initial_connection ≡ false))
unfolding run told
run-told keys l [] n = ground arith
run-told keys l (e ∷ es) (n, ns) =
    let r = round keys l e in
    ground (
      arith,
      round-IsTold keys l e n,
      run-told keys r.loop es ns,
      told-append r.actions (run keys r.loop es).actions,
    )
