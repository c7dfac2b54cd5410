-- ===== src/Connect/Buffer/Loss.antt =====
-- That a response is not lost while it waits, and what the goroutines of addPending do to it.
use inngestgo.Prelude.{
  String, true, ◌||◌, ◌≡◌, ◌≢◌, none, some, arith, lookup, insert, erase, lookup-insert,
  lookup-erase, str_eq_iff, is_some,
}
use inngestgo.Connect.Buffer.{SdkResponse, MessageBuffer, append, add_pending, wake, acknowledge}

-- A response for the request is buffered, or waits for its acknowledgement.
abbrev pub IsKept : String → MessageBuffer → Type 0
IsKept id m = (is_some (lookup id m.buffered) || is_some (lookup id m.pending_ack)) ≡ true

pub append-IsKept :
    (id : String) (r : SdkResponse) (m : MessageBuffer) → IsKept id m → IsKept id (append r m)
unfolding append
append-IsKept id r m k =
    ground (
      arith,
      lookup-insert r.request_id id r m.buffered,
      lookup-erase r.request_id id m.pending_ack,
    )

pub add_pending-IsKept :
    (id : String) (r : SdkResponse) (m : MessageBuffer) → IsKept id m → IsKept id (add_pending r m)
unfolding add_pending
add_pending-IsKept id r m k = ground (arith, lookup-insert r.request_id id r m.pending_ack)

pub wake-IsKept :
    (id : String) (r : SdkResponse) (m : MessageBuffer) → IsKept id m → IsKept id (wake r m)
unfolding wake
wake-IsKept id r m k =
    ground (
      arith,
      lookup-insert r.request_id id r m.buffered,
      lookup-erase r.request_id id m.pending_ack,
    )

pub acknowledge-IsKept :
    (id k : String) (m : MessageBuffer) → k ≢ id → IsKept id m → IsKept id (acknowledge k m)
unfolding acknowledge
acknowledge-IsKept id k m ne h = ground (arith, lookup-erase k id m.pending_ack, str_eq_iff k id)

-- A response that is not acknowledged is buffered when its timeout passes, and a response that was
-- acknowledged in time is not buffered then.
wake-add_pending :
    (r : SdkResponse) (m : MessageBuffer)
    → (lookup r.request_id (wake r (add_pending r m)).buffered ≡ some r)
      × (lookup r.request_id (wake r (add_pending r m)).pending_ack ≡ none)
      × (wake r (acknowledge r.request_id (add_pending r m))
          ≡ acknowledge r.request_id (add_pending r m))
unfolding wake add_pending acknowledge
wake-add_pending r m = ground (
  arith,
  lookup-insert r.request_id r.request_id r m.pending_ack,
  lookup-insert r.request_id r.request_id r m.buffered,
  lookup-erase r.request_id r.request_id (insert r.request_id r m.pending_ack),
  str_eq_iff r.request_id r.request_id,
)

-- The goroutine of an acknowledged response outlives it: when a later response for the same request
-- waits, the next wake-up of the old goroutine puts the old response into the buffer in its place.
wake_stale :
    (old new : SdkResponse) (m : MessageBuffer)
    → new.request_id ≡ old.request_id
    → let m' = wake old (add_pending new (acknowledge old.request_id (add_pending old m))) in
      (lookup old.request_id m'.buffered ≡ some old) × (lookup old.request_id m'.pending_ack ≡ none)
unfolding wake add_pending acknowledge
wake_stale old new m e =
    let p = erase old.request_id (insert old.request_id old m.pending_ack) in
    ground (
      arith,
      lookup-insert new.request_id old.request_id new p,
      lookup-insert old.request_id old.request_id old m.buffered,
      lookup-erase old.request_id old.request_id (insert new.request_id new p),
      str_eq_iff old.request_id old.request_id,
      str_eq_iff new.request_id old.request_id,
    )
