-- ===== src/Connect/Gateways/Tests.antt =====
-- A worker that is connected to the gateway group "a" and moves on when it drains.
use inngestgo.Prelude.{true, false, refl, [], ◌∷◌, All}
use inngestgo.Errors.{sentinel, gateway_draining, any_link}
use inngestgo.Connect.RunLoop.Defs.{Keys, Loop, connecting, initiate, connected, round}
use inngestgo.Connect.Handshake.{prepare_connection, is_draining}
use inngestgo.Connect.Handshake.Tests.{prepare}
use inngestgo.Connect.Gateways.{
  Chain, preparing, announced, handling, tells, drains, Worker, react, starts, connects, moves,
  Reach, here, next, new_worker, move_on, tell,
}
use inngestgo.Connect.Gateways.Gapless.{IsGood}
use inngestgo.Connect.Gateways.Single.{IsSingle, Reach-IsSingle, Reach-gapless}

abbrev keys : Keys
keys = record { hashed_signing_key = "first"; hashed_signing_key_fallback = "second" }

abbrev loop : Loop
loop = record {
  state = connecting;
  auth = record { hashed_signing_key = "first"; fallback = false };
  attempts = 0;
  is_initial_connection = true;
}

abbrev first : Chain
first = record { key = "first"; excluded = []; stage = preparing; old = [] }

abbrev established : Chain
established = record first { stage = handling "a" }

abbrev started : Worker
started = react keys initiate (record (new_worker loop) { initiated = true })

abbrev notified : Worker
notified =
    react keys connected (record started { chains = record first { stage = announced "a" } ∷ [] })

abbrev drained : Worker
drained = record notified { chains = move_on "a" established ∷ [] }

path : Reach keys (new_worker loop) drained
unfolding new_worker react round prepare_connection any_link tell is_draining
path =
    next
      (next
        (next (next here (starts refl refl)) (connects [] [] first prepare _ refl refl refl refl))
        (moves [] [] (record first { stage = announced "a" }) established refl (tells "a" refl)))
      (moves [] [] established (move_on "a" established) refl
        (drains "a" (sentinel gateway_draining) refl refl))

Reach-IsSingle_example : IsSingle drained
Reach-IsSingle_example = Reach-IsSingle keys loop drained path

Reach-gapless_example : All IsGood drained.chains
Reach-gapless_example = Reach-gapless keys loop drained path
