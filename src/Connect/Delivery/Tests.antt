-- ===== src/Connect/Delivery/Tests.antt =====
-- A reply that cannot be written, one flush that fails and one that does not.
use inngestgo.Prelude.{
  ℕ, Bool, true, false, ◌≡◌, ◌≢◌, refl, some, List, [], ◌∷◌, ◌++◌, Map, All, arith, str_eq_iff,
  insert, erase,
}
use mathlib.Core.List.Perm
use inngestgo.Errors.{text, is_step_error, is_no_retry_error, get_retry_at_time}
use inngestgo.Results.{ok, err}
use inngestgo.Execution.Verdict.{judge}
use inngestgo.Connect.Buffer.{SdkResponse, new_message_buffer, append, add_pending, acknowledge}
use inngestgo.Connect.Invoke.{connect_invoke}
use inngestgo.Connect.Invoke.Tests.{calls, one, response, answered}
use inngestgo.Connect.Delivery.{Happening, invokes, acks, flushes, Ledger, new_ledger, happen_all}
use inngestgo.Connect.Buffer.{flush}
use inngestgo.Connect.Buffer.Flush.{messages}
use inngestgo.Connect.Delivery.Distinct.{distinct}
use inngestgo.Connect.Delivery.Flushes.{happen_all-distinct}
use inngestgo.Connect.Delivery.Kept.{IsDelivered, Reorders, happen_all-IsDelivered}

abbrev never : ℕ → SdkResponse → Bool
never n r = false

abbrev always : ℕ → SdkResponse → Bool
always n r = true

abbrev as_it_is : ℕ → Map SdkResponse → Map SdkResponse
as_it_is n m = m

abbrev unwritten : Happening
unwritten = invokes calls (ok tt) (err (text "closed"))

abbrev before : List Happening
before = flushes never as_it_is ∷ []

abbrev after : List Happening
after = flushes never as_it_is ∷ acks (ok tt) ∷ flushes always as_it_is ∷ []

abbrev sent : Ledger
sent = record {
  buffer = record { buffered = []; pending_ack = []; watchers = response ∷ [] };
  sent = response ∷ [];
}

it_is_sent : happen_all one (before ++ unwritten ∷ after) new_ledger ≡ some sent
unfolding happen_all connect_invoke judge is_step_error is_no_retry_error get_retry_at_time
    acknowledge append insert add_pending new_message_buffer erase
it_is_sent = refl

All-Reorders : All Reorders (before ++ unwritten ∷ after)
All-Reorders =
    ((λ k m. Perm.refl m), (tt, ((λ k m. Perm.refl m), (tt, ((λ k m. Perm.refl m), tt)))))

has_id : response.request_id ≢ ""
has_id e = ground (arith, str_eq_iff "r1" "")

happen_all-IsDelivered_example : IsDelivered "r1" sent
happen_all-IsDelivered_example =
    happen_all-IsDelivered one before after calls (err (text "closed")) response sent has_id
      answered All-Reorders it_is_sent

-- The same reply, before any flush.
abbrev at_hand : Ledger
at_hand = record {
  buffer = record { buffered = ("r1", response) ∷ []; pending_ack = []; watchers = response ∷ [] };
  sent = [];
}

it_is_at_hand : happen_all one (unwritten ∷ []) new_ledger ≡ some at_hand
unfolding happen_all connect_invoke judge is_step_error is_no_retry_error get_retry_at_time
    acknowledge append insert add_pending new_message_buffer erase
it_is_at_hand = refl

happen_all-distinct_example :
    let (m, f, all) = flush always as_it_is at_hand.buffer in
    distinct (f.sent ++ messages m.buffered) ≡ true
happen_all-distinct_example =
    happen_all-distinct one (unwritten ∷ []) at_hand always as_it_is (tt, tt) (λ k m. Perm.refl m)
      it_is_at_hand
