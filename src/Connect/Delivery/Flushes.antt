-- ===== src/Connect/Delivery/Flushes.antt =====
-- What a flush sends at any time of a worker's life.
use inngestgo.Prelude.{
  ℕ, String, ◌≡◌, ◌≢◌, refl, Bool, true, Option, some, List, ◌++◌, arith, Map, All, any, str_eq_iff,
}
use mathlib.Core.List.{Perm}
use inngestgo.SdkRequest.{Request}
use inngestgo.Execution.{Invoked}
use inngestgo.Connect.Buffer.{SdkResponse, new_message_buffer, flush}
use inngestgo.Connect.Buffer.Flush.{messages}
use inngestgo.Connect.Delivery.{Happening, Ledger, new_ledger, happen_all}
use inngestgo.Connect.Delivery.Distinct.{distinct, flush-distinct}
use inngestgo.Connect.Delivery.Kept.{Reorders, happen_all-Keeps}

-- The buffer of a worker is a map at every time; any request serves to find that.
a_request : ◌≢◌ {A = String} "a" ""
a_request e = ground (arith, str_eq_iff "a" "")

module _ (invoker : String → Option String → Request → Invoked) where
  -- Whatever has happened to a worker, and whatever the API then answers to a flush, in whatever
  -- order the runtime goes through the map: no two of the responses that the flush sends and of
  -- those that it leaves are for one request.
  pub happen_all-distinct :
      (hs : List Happening) (t : Ledger) (sends : ℕ → SdkResponse → Bool)
      (order : ℕ → Map SdkResponse → Map SdkResponse)
      → All Reorders hs
      → ((k : ℕ) (m : Map SdkResponse) → Perm (order k m) m)
      → happen_all invoker hs new_ledger ≡ some t
      → let (m, f, all) = flush sends order t.buffer in
        distinct (f.sent ++ messages m.buffered) ≡ true
  unfolding new_message_buffer any distinct
  happen_all-distinct hs t sends order o reorders e =
      flush-distinct sends order reorders t.buffer
        (happen_all-Keeps invoker "a" hs new_ledger t a_request o e (refl, refl)).filed
