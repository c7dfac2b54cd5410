-- ===== src/Connect/RunLoop/Attempts.antt =====
-- How often the run loop tries to connect, and how long it waits.
use inngestgo.Prelude.{
  ℕ, zero, suc, ◌+◌, ◌*◌, ◌≤◌, ◌≡◌, Bool, true, Option, none, some, List, [], ◌∷◌, ◌++◌, arith, All,
}
use inngestgo.Errors.{Error}
use inngestgo.Connect.RunLoop.Defs.{
  Loop, Keys, reconnecting, Event, worker_done, connected, connect_done, initiate, Action, signal,
  flush, wait, connect, Round, try_connect, retry, check_reason, check_auth, on_error, round, run,
  exp_backoff,
}

-- The connections started among the actions.
unfoldable pub connects : List Action → ℕ
connects [] = 0
connects (signal e ∷ acts) = connects acts
connects (flush k ∷ acts) = connects acts
connects (wait d ∷ acts) = connects acts
connects (connect k ∷ acts) = suc (connects acts)

connects-append : (xs ys : List Action) → connects (xs ++ ys) ≡ connects xs + connects ys
unfolding connects
connects-append [] ys = omega arith
connects-append (signal e ∷ xs) ys = connects-append xs ys
connects-append (flush k ∷ xs) ys = connects-append xs ys
connects-append (wait d ∷ xs) ys = connects-append xs ys
connects-append (connect k ∷ xs) ys = omega (arith, connects-append xs ys)

-- Each connection that a round starts is counted as an attempt, and there are at most five.
abbrev Counts : Loop → Round → Type 0
Counts l r = (connects r.actions + l.attempts ≡ r.loop.attempts) × (r.loop.attempts ≤ 5)

try_connect-Counts : (l : Loop) → l.attempts ≤ 5 → Counts l (try_connect l)
unfolding try_connect connects
try_connect-Counts l b = ground arith

retry-Counts : (h d : Bool) (l : Loop) → l.attempts ≤ 5 → Counts l (retry h d l)
unfolding retry connects
retry-Counts h d l b = ground (arith, try_connect-Counts l)

check_reason-Counts :
    (e : Error) (h d : Bool) (l : Loop) → l.attempts ≤ 5 → Counts l (check_reason e h d l)
unfolding check_reason connects
check_reason-Counts e h d l b = ground (arith, retry-Counts h d l)

check_auth-Counts :
    (keys : Keys) (e : Error) (h d : Bool) (l : Loop)
    → l.attempts ≤ 5
    → Counts l (check_auth keys e h d l)
unfolding check_auth connects
check_auth-Counts keys e h d l b = ground (
  arith,
  check_reason-Counts e h d l,
  check_reason-Counts e h d (record l {
    auth = record { hashed_signing_key = keys.hashed_signing_key_fallback; fallback = true };
  }),
)

on_error-Counts :
    (keys : Keys) (e : Option Error) (h d : Bool) (l : Loop)
    → l.attempts ≤ 5
    → Counts l (on_error keys e h d l)
unfolding on_error connects
on_error-Counts keys none h d l b = retry-Counts h d l b
on_error-Counts keys (some e) h d l b = ground (arith, check_auth-Counts keys e h d l)

-- The events other than a connection that was established.
abbrev pub IsOther : Event → Type 0
IsOther worker_done = Unit
IsOther connected = ⊥
IsOther (connect_done r h d) = Unit
IsOther initiate = Unit

round-Counts :
    (keys : Keys) (l : Loop) (e : Event) → IsOther e → l.attempts ≤ 5 → Counts l (round keys l e)
unfolding round connects
round-Counts keys l worker_done o b = ground arith
round-Counts keys l connected o b = absurd o
round-Counts keys l (connect_done r h d) o b =
    ground (arith, on_error-Counts keys r.err h d (record l { state = reconnecting }))
round-Counts keys l initiate o b = try_connect-Counts l b

-- Without a connection being established in between, every connection that the loop starts is one
-- more attempt, and the attempts never exceed five, whatever is reported: so at most five
-- connections are started.
pub run-connects :
    (keys : Keys) (l : Loop) (es : List Event)
    → All IsOther es
    → l.attempts ≤ 5
    → let r = run keys l es in
      (connects r.actions + l.attempts ≡ r.loop.attempts) × (r.loop.attempts ≤ 5)
unfolding run connects
run-connects keys l [] o b = ground arith
run-connects keys l (e ∷ es) (o, os) b =
    let r = round keys l e in
    ground (
      arith,
      round-Counts keys l e o,
      run-connects keys r.loop es os,
      connects-append r.actions (run keys r.loop es).actions,
    )

-- The delays before a reconnect grow with the attempts, from one second to five minutes.
exp_backoff_mono :
    (a : ℕ)
    → (exp_backoff a ≤ exp_backoff (suc a))
      × (1000000000 ≤ exp_backoff a)
      × (exp_backoff a ≤ 300 * 1000000000)
unfolding exp_backoff
exp_backoff_mono zero = omega arith
exp_backoff_mono (suc zero) = omega arith
exp_backoff_mono (suc (suc zero)) = omega arith
exp_backoff_mono (suc (suc (suc zero))) = omega arith
exp_backoff_mono (suc (suc (suc (suc zero)))) = omega arith
exp_backoff_mono (suc (suc (suc (suc (suc zero))))) = omega arith
exp_backoff_mono (suc (suc (suc (suc (suc (suc zero)))))) = omega arith
exp_backoff_mono (suc (suc (suc (suc (suc (suc (suc zero))))))) = omega arith
exp_backoff_mono (suc (suc (suc (suc (suc (suc (suc (suc zero)))))))) = omega arith
exp_backoff_mono (suc (suc (suc (suc (suc (suc (suc (suc (suc a))))))))) = omega arith
