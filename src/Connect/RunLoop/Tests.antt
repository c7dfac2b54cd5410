-- ===== src/Connect/RunLoop/Tests.antt =====
-- The theorems about the run loop, at concrete keys and events.
use inngestgo.Prelude.{
  ◌+◌, ◌≤◌, ◌≡◌, ◌≢◌, refl, ◌⊎◌, true, false, some, List, [], ◌∷◌, arith, All, str_eq_iff,
}
use inngestgo.Errors.{Error, text, sentinel, wrapped, unauthenticated, any_link, close_reason}
use inngestgo.Connect.RunLoop.Defs.{
  Keys, Loop, connecting, Event, connect_done, initiate, continues, returns, on_error, run, signals,
  is_unauthenticated, is_too_many, is_retriable,
}
use inngestgo.Connect.RunLoop.Signals.{told, waiting, run-told}
use inngestgo.Connect.RunLoop.Attempts.{connects, run-connects}
use inngestgo.Connect.RunLoop.Keys.{Uses, NoAuthError, on_error-unauthenticated}

abbrev keys : Keys
keys = record { hashed_signing_key = "first"; hashed_signing_key_fallback = "second" }

abbrev fresh : Loop
fresh = record {
  state = connecting;
  auth = record { hashed_signing_key = "first"; fallback = false };
  attempts = 0;
  is_initial_connection = true;
}

abbrev denied : Error
denied = wrapped "could not start connection" (sentinel unauthenticated)

abbrev lost : Event
lost = connect_done (record { reconnect = true; err = some (text "lost") }) true false

abbrev events : List Event
events = initiate ∷ lost ∷ lost ∷ []

run-told_example :
    let r = run keys fresh events in
    (told r.actions + waiting r.loop.is_initial_connection ≡ 1)
    × ((r.next ≡ continues) ⊎ (r.loop.is_initial_connection ≡ false))
run-told_example = run-told keys fresh events (tt, (tt, (tt, tt)))

run-connects_example :
    let r = run keys fresh events in
    (connects r.actions + 0 ≡ r.loop.attempts) × (r.loop.attempts ≤ 5)
run-connects_example = run-connects keys fresh events (tt, (tt, (tt, tt))) (omega arith)

lost-NoAuthError : NoAuthError lost
unfolding any_link is_unauthenticated
lost-NoAuthError e h = ground arith

denied_first : any_link is_unauthenticated denied ≡ true
unfolding any_link is_unauthenticated
denied_first = refl

not_too_many : any_link is_too_many denied ≡ false
unfolding any_link is_too_many
not_too_many = refl

denied-is_retriable : is_retriable (close_reason denied) ≡ true
unfolding is_retriable close_reason
denied-is_retriable = refl

second_key : keys.hashed_signing_key_fallback ≢ ""
second_key e = ground (arith, str_eq_iff "second" "")

on_error-unauthenticated_example :
    let r = on_error keys (some denied) true false fresh in
    ((fresh.auth.fallback ≡ false)
      × (r.next ≡ continues)
      × (r.loop.auth.fallback ≡ true)
      × (connects r.actions ≡ 1)
      × All (Uses "second") r.actions
      × (r.loop.auth.hashed_signing_key ≡ "second"))
    ⊎ ((x : Error) × (fresh.auth.fallback ≡ true)
        × (r.next ≡ returns (some x))
        × (r.loop.auth ≡ fresh.auth)
        × (r.actions ≡ signals (some x) fresh))
on_error-unauthenticated_example =
    on_error-unauthenticated keys denied true fresh denied_first not_too_many denied-is_retriable
      second_key (omega arith)
