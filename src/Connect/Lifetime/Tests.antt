-- ===== src/Connect/Lifetime/Tests.antt =====
-- A shutdown with two buffered responses, an API that fails at first, and a timeout in between.
use mathlib.Core.List.Perm
use inngestgo.Prelude.{
  ℕ, zero, suc, String, Bool, true, false, none, Map, List, [], ◌∷◌, ◌≡◌, refl, All, is_some,
  insert, erase, lookup,
}
use inngestgo.Json.{null}
use inngestgo.Connect.Buffer.{
  Status, SdkResponse, value_body, MessageBuffer, new_message_buffer, add_pending, append,
}
use inngestgo.Connect.Delivery.Distinct.{IsMap, distinct}
use inngestgo.Connect.Delivery.Kept.{IsDelivered}
use inngestgo.Connect.Lifetime.{
  Ending, connection_goes_on, wakes, hands_over, run_loop_ends, takes_report, five_seconds,
  flushes_last, shut_down_all, new_shutdown,
}
use inngestgo.Connect.Lifetime.Safe.{Reorders, in_turn, is_sent}
use inngestgo.Connect.Lifetime.Flushes.{shut_down_all-sent}

abbrev response : String → SdkResponse
response id = record {
  request_id = id;
  env_id = "env";
  app_id = "app";
  status = Status.done;
  body = value_body null;
  no_retry = false;
  retry_after = none;
}

abbrev two_buffered : MessageBuffer
two_buffered =
    add_pending (response "c") (append (response "b") (append (response "a") new_message_buffer))

abbrev in_order : ℕ → Map SdkResponse → Map SdkResponse
in_order k m = m

abbrev never : ℕ → SdkResponse → Bool
never n r = false

abbrev later : ℕ → SdkResponse → Bool
later zero r = false
later (suc n) r = true

abbrev step : Ending
step = connection_goes_on never in_order

abbrev endings : List Ending
endings =
    run_loop_ends
    ∷ step
    ∷ hands_over (response "d") false
    ∷ step
    ∷ step
    ∷ step
    ∷ wakes (response "c")
    ∷ takes_report
    ∷ flushes_last later in_order
    ∷ []

-- The first flush fails; the last one sends the response that was handed over too.
endings_sent : (shut_down_all endings (new_shutdown two_buffered)).ledger.buffer.buffered ≡ []
unfolding shut_down_all append add_pending new_message_buffer lookup insert erase
endings_sent = refl

-- Where the connection never reports, the last flush is made after five seconds.
late_flush :
    (shut_down_all
      (run_loop_ends ∷ step ∷ five_seconds ∷ flushes_last later in_order ∷ [])
      (new_shutdown two_buffered)).timed_out
    ≡ true
unfolding shut_down_all append add_pending new_message_buffer
late_flush = refl

endings-Reorders : All Reorders endings
endings-Reorders = (
  tt,
  (
    (λ k m. Perm.refl m),
    (
      tt,
      (
        (λ k m. Perm.refl m),
        ((λ k m. Perm.refl m), ((λ k m. Perm.refl m), (tt, (tt, ((λ k m. Perm.refl m), tt))))),
      ),
    ),
  ),
)

two_buffered-IsMap : IsMap two_buffered.buffered
unfolding append add_pending new_message_buffer distinct insert
two_buffered-IsMap = (refl, refl)

a_buffered : is_some (lookup "a" two_buffered.buffered) ≡ true
unfolding append add_pending new_message_buffer lookup insert
a_buffered = refl

shut_down_all-sent_example :
    let t = shut_down_all endings (new_shutdown two_buffered) in
    IsDelivered "a" t.ledger × (is_sent "a" t ≡ true) × (in_turn t ≡ true)
shut_down_all-sent_example =
    shut_down_all-sent "a" endings two_buffered endings-Reorders two_buffered-IsMap a_buffered
