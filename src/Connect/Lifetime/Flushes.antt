-- ===== src/Connect/Lifetime/Flushes.antt =====
-- What becomes of the buffered responses when a worker is shut down.
use mathlib.Core.List.{Perm}
use inngestgo.Prelude.{
  ℕ, String, Bool, true, false, not, ◌||◌, ◌≡◌, refl, List, [], ◌∷◌, arith, Map, lookup,
  lookup-insert, All, any, is_some, Bool-cases, inl, inr, subst,
}
use inngestgo.Connect.Buffer.{SdkResponse, MessageBuffer, wake, append, add_pending}
use inngestgo.Connect.Delivery.{Ledger}
use inngestgo.Connect.Delivery.Filed.{answers}
use inngestgo.Connect.Delivery.Distinct.{IsMap}
use inngestgo.Connect.Delivery.Kept.{IsDelivered, Keeps, buffer-Keeps, wake-IsMap, Changes-Keeps}
use inngestgo.Connect.Buffer.Loss.{wake-IsKept}
use inngestgo.Connect.Lifetime.{
  gone, FinalStage, runs, waits, goes_on, over, Shutdown, Ending, connection_goes_on, wakes,
  hands_over, run_loop_ends, takes_report, five_seconds, flushes_last, flush_at_end, shut_down,
  shut_down_all, buffer_to, handed_over, requests_run, loop_over, wait_over, report_taken,
  last_flush, is_reporting,
}
use inngestgo.Connect.Lifetime.{new_shutdown}
use inngestgo.Connect.Lifetime.Safe.{
  Reorders, has_flushed, in_turn, is_sent, is_gone, before_last, moved-IsSafe, final_before,
  report_before, still_sent, flushed-IsSafe, connection-IsSafe, IsSafe,
}

-- A change of the buffer that keeps what is in it.
buffer_to-IsSafe :
    (id : String) (s : Shutdown) (m : MessageBuffer)
    → Keeps id s.ledger (record s.ledger { buffer = m })
    → (is_some (lookup id s.ledger.buffer.buffered) ≡ true → is_some (lookup id m.buffered) ≡ true)
    → IsSafe id s
    → IsSafe id (buffer_to m s)
buffer_to-IsSafe id s m k stays i = record {
  filed = k.filed;
  kept = k.delivers i.kept;
  turn = i.turn;
  sends =
      still_sent (any (answers id) s.ledger.sent) s.failed
        (is_some (lookup id s.ledger.buffer.buffered)) (is_some (lookup id m.buffered))
        (not (has_flushed s)) stays i.sends;
}

wake-stays :
    (id : String) (r : SdkResponse) (m : MessageBuffer)
    → is_some (lookup id m.buffered) ≡ true
    → is_some (lookup id (wake r m).buffered) ≡ true
unfolding wake
wake-stays id r m e = ground (arith, lookup-insert r.request_id id r m.buffered)

handed_over-stays :
    (id : String) (r : SdkResponse) (written : Bool) (m : MessageBuffer)
    → is_some (lookup id m.buffered) ≡ true
    → is_some (lookup id (handed_over r written m).buffered) ≡ true
unfolding append add_pending
handed_over-stays id r true m e = e
handed_over-stays id r false m e = ground (arith, lookup-insert r.request_id id r m.buffered)

handed_over-Keeps :
    (id : String) (r : SdkResponse) (written : Bool) (l : Ledger)
    → IsMap l.buffer.buffered
    → Keeps id l (record l { buffer = handed_over r written l.buffer })
handed_over-Keeps id r true l f = Changes-Keeps id l _ (inr (inl (r, refl))) f
handed_over-Keeps id r false l f = Changes-Keeps id l _ (inr (inr (r, refl))) f

loop_over-IsSafe :
    (id : String) (s : Shutdown) (fi : FinalStage)
    → s.final ≡ fi
    → IsSafe id s
    → IsSafe id (loop_over fi s)
loop_over-IsSafe id s runs e i =
    moved-IsSafe id s s.stage waits s.timed_out i (final_before s runs e) refl
loop_over-IsSafe id s waits e i = i
loop_over-IsSafe id s goes_on e i = i
loop_over-IsSafe id s over e i = i

wait_over-IsSafe :
    (id : String) (s : Shutdown) (fi : FinalStage)
    → s.final ≡ fi
    → IsSafe id s
    → IsSafe id (wait_over fi s)
wait_over-IsSafe id s waits e i =
    moved-IsSafe id s s.stage goes_on true i (final_before s waits e) refl
wait_over-IsSafe id s runs e i = i
wait_over-IsSafe id s goes_on e i = i
wait_over-IsSafe id s over e i = i

report_taken-IsSafe :
    (id : String) (s : Shutdown) (fi : FinalStage)
    → s.final ≡ fi
    → is_reporting s.stage ≡ true
    → IsSafe id s
    → IsSafe id (report_taken fi s)
report_taken-IsSafe id s runs e r i =
    moved-IsSafe id s gone waits s.timed_out i (report_before s r) refl
report_taken-IsSafe id s waits e r i =
    moved-IsSafe id s gone goes_on s.timed_out i (report_before s r) (ground arith)
report_taken-IsSafe id s goes_on e r i = i
report_taken-IsSafe id s over e r i = i

last_flush-IsSafe :
    (sends : ℕ → SdkResponse → Bool) (order : ℕ → Map SdkResponse → Map SdkResponse) (id : String)
    (s : Shutdown) (fi : FinalStage)
    → ((k : ℕ) (m : Map SdkResponse) → Perm (order k m) m)
    → s.final ≡ fi
    → IsSafe id s
    → IsSafe id (last_flush sends order fi s)
unfolding flush_at_end
last_flush-IsSafe sends order id s goes_on reorders e i =
    flushed-IsSafe sends order reorders id s s.stage over i
      (subst (λ x. (before_last x || (s.timed_out || is_gone s.stage)) ≡ true) e i.turn)
last_flush-IsSafe sends order id s runs reorders e i = i
last_flush-IsSafe sends order id s waits reorders e i = i
last_flush-IsSafe sends order id s over reorders e i = i

shut_down-IsSafe :
    (id : String) (e : Ending) (s : Shutdown) → Reorders e → IsSafe id s → IsSafe id (shut_down e s)
unfolding shut_down
shut_down-IsSafe id (connection_goes_on sends order) s o i =
    connection-IsSafe sends order o id s s.stage refl i
shut_down-IsSafe id (wakes r) s o i =
    let l = s.ledger in
    buffer_to-IsSafe id s (wake r l.buffer)
      (buffer-Keeps id l (wake r l.buffer) (wake-IsMap r l.buffer i.filed)
        (wake-IsKept id r l.buffer))
      (wake-stays id r l.buffer) i
shut_down-IsSafe id (hands_over r written) s o i = elim (Bool-cases (requests_run s.stage)) [
  | inl e ↦ rw e (
      buffer_to-IsSafe id s (handed_over r written s.ledger.buffer)
        (handed_over-Keeps id r written s.ledger i.filed)
        (handed_over-stays id r written s.ledger.buffer) i)
  | inr e ↦ rw e i
]
shut_down-IsSafe id run_loop_ends s o i = loop_over-IsSafe id s s.final refl i
shut_down-IsSafe id takes_report s o i = elim (Bool-cases (is_reporting s.stage)) [
  | inl e ↦ rw e (report_taken-IsSafe id s s.final refl e i)
  | inr e ↦ rw e i
]
shut_down-IsSafe id five_seconds s o i = wait_over-IsSafe id s s.final refl i
shut_down-IsSafe id (flushes_last sends order) s o i =
    last_flush-IsSafe sends order id s s.final o refl i

shut_down_all-IsSafe :
    (id : String) (es : List Ending) (s : Shutdown)
    → All Reorders es
    → IsSafe id s
    → IsSafe id (shut_down_all es s)
unfolding shut_down_all
shut_down_all-IsSafe id [] s o i = i
shut_down_all-IsSafe id (e ∷ es) s (o, os) i =
    shut_down_all-IsSafe id es (shut_down e s) os (shut_down-IsSafe id e s o i)

-- Whatever happens while a worker is shut down and in whatever order, from a buffer that files each
-- response under its request, for a request with a buffered response: a response to it was sent,
-- is buffered or waits; once the connection or Connect's end has flushed, one was sent or a flush
-- has failed; and Connect's end flushes only after the connection has reported, or after five
-- seconds without its report.
pub shut_down_all-sent :
    (id : String) (es : List Ending) (m : MessageBuffer)
    → All Reorders es
    → IsMap m.buffered
    → is_some (lookup id m.buffered) ≡ true
    → let t = shut_down_all es (new_shutdown m) in
      IsDelivered id t.ledger × (is_sent id t ≡ true) × (in_turn t ≡ true)
shut_down_all-sent id es m o f found =
    let start : IsSafe id (new_shutdown m) = record {
      filed = f;
      kept = ground (arith, found);
      turn = refl;
      sends = ground (arith, found);
    } in
    let i = shut_down_all-IsSafe id es (new_shutdown m) o start in (i.kept, i.sends, i.turn)
