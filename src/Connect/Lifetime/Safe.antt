-- ===== src/Connect/Lifetime/Safe.antt =====
-- What holds at every step of a shutdown, and that flushes keep it.
use mathlib.Core.List.{Perm}
use inngestgo.Prelude.{
  ℕ, String, Bool, true, false, not, ◌||◌, ◌&&◌, ◌≡◌, refl, [], ◌∷◌, ◌++◌, arith, Map, lookup, any,
  any-append, is_some, is_nil, Bool-cases, inl, inr, subst, sym, ap, ◌∙◌,
}
use inngestgo.Connect.Buffer.{SdkResponse, MessageBuffer, has_messages, flush}
use inngestgo.Connect.Buffer.Flush.{flush_lem}
use inngestgo.Connect.Delivery.{flush_ledger}
use inngestgo.Connect.Delivery.Filed.{answers, flush-answers}
use inngestgo.Connect.Delivery.Distinct.{IsMap}
use inngestgo.Connect.Delivery.Kept.{IsDelivered, Keeps, flush_ledger-Keeps}
use inngestgo.Connect.Lifetime.{
  EndStage, pausing, waiting, closing, flushing, reporting, gone, FinalStage, runs, waits, over,
  Shutdown, Ending, connection_goes_on, flushes_last, flush_at_end, shut_down_connection,
  is_reporting,
}

abbrev pub Reorders : Ending → Type 0
Reorders (connection_goes_on sends order) = (k : ℕ) (m : Map SdkResponse) → Perm (order k m) m
Reorders (flushes_last sends order) = (k : ℕ) (m : Map SdkResponse) → Perm (order k m) m
Reorders _ = Unit

abbrev pub after_flush : EndStage → Bool
after_flush reporting = true
after_flush gone = true
after_flush _ = false

abbrev pub is_gone : EndStage → Bool
is_gone gone = true
is_gone _ = false

abbrev pub is_over : FinalStage → Bool
is_over over = true
is_over _ = false

abbrev pub before_last : FinalStage → Bool
before_last runs = true
before_last waits = true
before_last _ = false

-- The connection, or Connect's end, has flushed.
abbrev pub has_flushed : Shutdown → Bool
has_flushed s = after_flush s.stage || is_over s.final

-- Connect's end goes on only after the connection's report, or after five seconds.
abbrev pub in_turn : Shutdown → Bool
in_turn s = before_last s.final || (s.timed_out || is_gone s.stage)

-- The response to the request was sent, or a flush failed, or it is buffered and no flush was made.
abbrev pub is_sent : String → Shutdown → Bool
is_sent id s =
    any (answers id) s.ledger.sent
    || (s.failed || (is_some (lookup id s.ledger.buffer.buffered) && not (has_flushed s)))

pub record IsSafe (id : String) (s : Shutdown) : Type 0 where
  pub filed : IsMap s.ledger.buffer.buffered
  pub kept : IsDelivered id s.ledger
  pub turn : in_turn s ≡ true
  pub sends : is_sent id s ≡ true

-- What a flush at the end does.
record Flushes (id : String) (s t : Shutdown) : Type 0 where
  stage : t.stage ≡ s.stage
  final : t.final ≡ s.final
  timed : t.timed_out ≡ s.timed_out
  ledger : Keeps id s.ledger t.ledger
  settles : (any (answers id) t.ledger.sent || t.failed) ≡ true

lookup-nil : (id : String) (m : Map SdkResponse) → is_nil m ≡ true → is_some (lookup id m) ≡ false
unfolding lookup
lookup-nil id [] e = refl
lookup-nil id (x ∷ m) e = cc

not-has_messages : (m : MessageBuffer) → has_messages m ≡ false → is_nil m.buffered ≡ true
unfolding has_messages
not-has_messages m e = ground arith

-- A flush sends what is buffered, or reports a failure.
settled_by :
    (x y z f n b h : Bool)
    → z ≡ (x || y)
    → (x || (f || (b && h))) ≡ true
    → (b ≡ true → (y || n) ≡ true)
    → (z || (f || n)) ≡ true
settled_by x y z f n b h e safe sends = elim (Bool-cases b) [
  | inl c ↦ ground (arith, sends c)
  | inr c ↦ ground arith
]

none_left :
    (x f b h : Bool) → b ≡ false → (x || (f || (b && h))) ≡ true → (x || (f || false)) ≡ true
none_left x f b h e safe = ground arith

or_more : (x f r : Bool) → (x || f) ≡ true → (x || (f || r)) ≡ true
or_more x f r e = ground arith

-- A step that leaves the ledger.
pub moved-IsSafe :
    (id : String) (s : Shutdown) (st : EndStage) (fi : FinalStage) (timed_out : Bool)
    → IsSafe id s
    → (after_flush st || is_over fi) ≡ has_flushed s
    → (before_last fi || (timed_out || is_gone st)) ≡ true
    → IsSafe id (record s { stage = st; final = fi; timed_out = timed_out })
moved-IsSafe id s st fi timed_out i same turn =
    let safe : Bool → Type 0 = λ h.
      (any (answers id) s.ledger.sent
        || (s.failed || (is_some (lookup id s.ledger.buffer.buffered) && not h)))
      ≡ true in
    record { filed = i.filed; kept = i.kept; turn = turn; sends = subst safe (sym same) i.sends }

-- The turn does not depend on the stage before the report.
turn_before :
    (s : Shutdown) (st : EndStage)
    → s.stage ≡ st
    → in_turn s ≡ true
    → (before_last s.final || (s.timed_out || is_gone st)) ≡ true
turn_before s st e t = subst (λ x. (before_last s.final || (s.timed_out || is_gone x)) ≡ true) e t

flushed_before :
    (s : Shutdown) (st : EndStage)
    → s.stage ≡ st
    → (after_flush st || is_over s.final) ≡ has_flushed s
flushed_before s st e = ap (λ x. after_flush x || is_over s.final) (sym e)

pub final_before :
    (s : Shutdown) (fi : FinalStage)
    → s.final ≡ fi
    → (after_flush s.stage || is_over fi) ≡ has_flushed s
final_before s fi e = ap (λ x. after_flush s.stage || is_over x) (sym e)

after_report : (st : EndStage) → is_reporting st ≡ true → after_flush st ≡ true
after_report reporting r = refl
after_report gone r = refl
after_report pausing r = cc
after_report waiting r = cc
after_report closing r = cc
after_report flushing r = cc

pub report_before : (s : Shutdown) → is_reporting s.stage ≡ true → true ≡ has_flushed s
report_before s r = let flushed = after_report s.stage r in ground (arith, flushed)

pub still_sent :
    (x f b c h : Bool)
    → (b ≡ true → c ≡ true)
    → (x || (f || (b && h))) ≡ true
    → (x || (f || (c && h))) ≡ true
still_sent x f b c h stays e = elim (Bool-cases b) [
  | inl k ↦ ground (arith, stays k)
  | inr k ↦ ground arith
]

module _ (sends : ℕ → SdkResponse → Bool) (order : ℕ → Map SdkResponse → Map SdkResponse)
    (reorders : (k : ℕ) (m : Map SdkResponse) → Perm (order k m) m) where
  flush-sends :
      (id : String) (m : MessageBuffer)
      → IsMap m.buffered
      → is_some (lookup id m.buffered) ≡ true
      → let (m', f, all) = flush sends order m in (any (answers id) f.sent || not all) ≡ true
  flush-sends id m i found =
      let (left, unacked, split, all, low, high) = flush_lem sends order m reorders in
      let r = flush sends order m in
      let sent_or_left = flush-answers sends order reorders id m i.0 in
      elim (Bool-cases (is_nil (r.1).left)) [
        | inl e ↦
            let none_left = ap (λ b. is_some (lookup id b)) left ∙ lookup-nil id (r.1).left e in
            ground (arith, sent_or_left, none_left)
        | inr e ↦ ground (arith, all)
      ]

  flush_at_end-settles :
      (id : String) (s : Shutdown)
      → IsMap s.ledger.buffer.buffered
      → is_sent id s ≡ true
      → let t = flush_at_end sends order s in (any (answers id) t.ledger.sent || t.failed) ≡ true
  unfolding flush_at_end flush_ledger
  flush_at_end-settles id s i safe =
      let m = s.ledger.buffer in
      let r = flush sends order m in
      let b = is_some (lookup id m.buffered) in
      elim (Bool-cases (has_messages m)) [
        | inl e ↦ rw e (
            settled_by (any (answers id) s.ledger.sent) (any (answers id) (r.1).sent)
              (any (answers id) (s.ledger.sent ++ (r.1).sent)) s.failed (not r.2) b
              (not (has_flushed s)) (any-append (answers id) s.ledger.sent (r.1).sent) safe
              (flush-sends id m i))
        | inr e ↦ rw e (
            none_left (any (answers id) s.ledger.sent) s.failed b (not (has_flushed s))
              (lookup-nil id m.buffered (not-has_messages m e)) safe)
      ]

  -- A flush that the connection or Connect's end makes, in its turn.
  pub flushed-IsSafe :
      (id : String) (s : Shutdown) (st : EndStage) (fi : FinalStage)
      → IsSafe id s
      → (before_last fi || (s.timed_out || is_gone st)) ≡ true
      → IsSafe id (record (flush_at_end sends order s) { stage = st; final = fi })
  unfolding flush_at_end
  flushed-IsSafe id s st fi i turn =
      let k = flush_ledger-Keeps sends order reorders id s.ledger i.filed in
      let t = flush_at_end sends order s in
      record {
        filed = k.filed;
        kept = k.delivers i.kept;
        turn = turn;
        sends =
            or_more (any (answers id) (flush_ledger sends order s.ledger).sent) t.failed
              (is_some (lookup id (flush_ledger sends order s.ledger).buffer.buffered)
                && not (after_flush st || is_over fi))
              (flush_at_end-settles id s i.filed i.sends);
      }

  pub connection-IsSafe :
      (id : String) (s : Shutdown) (st : EndStage)
      → s.stage ≡ st
      → IsSafe id s
      → IsSafe id (shut_down_connection sends order st s)
  unfolding shut_down_connection
  connection-IsSafe id s pausing e i =
      moved-IsSafe id s waiting s.final s.timed_out i (flushed_before s pausing e)
        (turn_before s pausing e i.turn)
  connection-IsSafe id s waiting e i =
      moved-IsSafe id s closing s.final s.timed_out i (flushed_before s waiting e)
        (turn_before s waiting e i.turn)
  connection-IsSafe id s closing e i =
      moved-IsSafe id s flushing s.final s.timed_out i (flushed_before s closing e)
        (turn_before s closing e i.turn)
  connection-IsSafe id s flushing e i =
      flushed-IsSafe id s reporting s.final i (turn_before s flushing e i.turn)
  connection-IsSafe id s reporting e i = i
  connection-IsSafe id s gone e i = i
