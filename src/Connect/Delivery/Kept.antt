-- ===== src/Connect/Delivery/Kept.antt =====
-- That no response of a worker is lost.
use inngestgo.Prelude.{
  ℕ, String, Bool, true, ◌||◌, ◌≡◌, ◌≢◌, refl, sym, subst, ◌⊎◌, inl, inr, Option, some, List, [],
  ◌∷◌, ◌++◌, arith, Map, lookup, All, any, any-append, is_some, Bool-cases, Option-cases,
}
use mathlib.Core.List.{Perm}
use inngestgo.Results.{Result, ok, err}
use inngestgo.SdkRequest.{Request}
use inngestgo.Execution.{Invoked}
use inngestgo.Connect.Buffer.{
  SdkResponse, MessageBuffer, new_message_buffer, append, add_pending, wake, acknowledge,
  has_messages, flush,
}
use inngestgo.Connect.Buffer.Flush.{flush_lem}
use inngestgo.Connect.Buffer.Loss.{
  IsKept, append-IsKept, add_pending-IsKept, wake-IsKept, acknowledge-IsKept,
}
use inngestgo.Connect.Handshake.{handle_message_reply_ack}
use inngestgo.Connect.Invoke.{
  InvokeCalls, Reply, replies, crashes, connect_invoke, handle_invoke_message,
}
use inngestgo.Connect.Invoke.Replies.{handle_invoke_message-kept}
use inngestgo.Connect.Delivery.Filed.{answers, flush-answers}
use inngestgo.Connect.Delivery.Distinct.{IsMap, insert-IsMap, flush-IsMap, distinct}
use inngestgo.Connect.Delivery.{
  Happening, invokes, write_fails, wakes, acks, flushes, Ledger, new_ledger, flush_ledger, happen,
  happen_all,
}

-- A response to the request waits, is buffered, or was taken by the API.
abbrev pub IsDelivered : String → Ledger → Type 0
IsDelivered id l =
    ((is_some (lookup id l.buffer.buffered) || is_some (lookup id l.buffer.pending_ack))
      || any (answers id) l.sent)
    ≡ true

abbrev pub Reorders : Happening → Type 0
Reorders (invokes c marshalled written) = Unit
Reorders (write_fails r) = Unit
Reorders (wakes r) = Unit
Reorders (acks payload) = Unit
Reorders (flushes sends order) = (k : ℕ) (m : Map SdkResponse) → Perm (order k m) m

-- What a step does to the buffer and to the responses that were sent.
pub record Keeps (id : String) (l t : Ledger) : Type 0 where
  pub filed : IsMap t.buffer.buffered
  pub delivers : IsDelivered id l → IsDelivered id t

module _ (sends : ℕ → SdkResponse → Bool) (order : ℕ → Map SdkResponse → Map SdkResponse)
    (reorders : (k : ℕ) (m : Map SdkResponse) → Perm (order k m) m) where
  pub flush_ledger-Keeps :
      (id : String) (l : Ledger) → IsMap l.buffer.buffered → Keeps id l (flush_ledger sends order l)
  unfolding flush_ledger
  flush_ledger-Keeps id l f = elim (Bool-cases (has_messages l.buffer)) [
    | inr e ↦ rw e (record { filed = f; delivers = λ d. d })
    | inl e ↦ rw e (record {
      filed = flush-IsMap sends order reorders l.buffer f;
      delivers = λ d. ground (
        arith,
        flush-answers sends order reorders id l.buffer f.0,
        (flush_lem sends order l.buffer reorders).1,
        any-append (answers id) l.sent (flush sends order l.buffer).1.sent,
      );
    })
  ]

-- A step that leaves what was sent, and keeps what the buffer keeps.
pub buffer-Keeps :
    (id : String) (l : Ledger) (b : MessageBuffer)
    → IsMap b.buffered
    → (IsKept id l.buffer → IsKept id b)
    → Keeps id l (record l { buffer = b })
buffer-Keeps id l b f k =
    elim (Bool-cases
      (is_some (lookup id l.buffer.buffered) || is_some (lookup id l.buffer.pending_ack))) [
        | inl e ↦ record { filed = f; delivers = λ d. ground (arith, k e) }
        | inr e ↦ record { filed = f; delivers = λ d. ground arith }
      ]

pub wake-IsMap :
    (r : SdkResponse) (m : MessageBuffer) → IsMap m.buffered → IsMap (wake r m).buffered
unfolding wake
wake-IsMap r m f = elim (Bool-cases (is_some (lookup r.request_id m.pending_ack))) [
  | inl e ↦ rw e (insert-IsMap r m.buffered f)
  | inr e ↦ rw e f
]

acks-Keeps :
    (id : String) (p : Result (Unit {0})) (l : Ledger)
    → id ≢ ""
    → IsMap l.buffer.buffered
    → Keeps id l (record l { buffer = (handle_message_reply_ack p l.buffer).1 })
unfolding handle_message_reply_ack
acks-Keeps id (err e) l n f = record { filed = f; delivers = λ d. d }
acks-Keeps id (ok t) l n f =
    buffer-Keeps id l (acknowledge "" l.buffer) (unfold acknowledge in f)
      (acknowledge-IsKept id "" l.buffer (λ e. n (sym e)))

-- What the handling of a request does to the buffer.
abbrev pub Changes : MessageBuffer → MessageBuffer → Type 0
Changes m b =
    (b ≡ m)
    ⊎ ((r : SdkResponse) × (b ≡ add_pending r m))
    ⊎ ((r : SdkResponse) × (b ≡ append r (add_pending r m)))

pub Changes-Keeps :
    (id : String) (l : Ledger) (b : MessageBuffer)
    → Changes l.buffer b
    → IsMap l.buffer.buffered
    → Keeps id l (record l { buffer = b })
unfolding append add_pending
Changes-Keeps id l b (inl e) f = buffer-Keeps id l b (rw e f) (λ k. rw e k)
Changes-Keeps id l b (inr (inl (r, e))) f =
    buffer-Keeps id l b (rw e f) (λ k. rw e (add_pending-IsKept id r l.buffer k))
Changes-Keeps id l b (inr (inr (r, e))) f =
    buffer-Keeps id l b (rw e (insert-IsMap r l.buffer.buffered f))
      (λ k. rw e (append-IsKept id r (add_pending r l.buffer) (add_pending-IsKept id r l.buffer k)))

module _ (invoker : String → Option String → Request → Invoked) where
  -- By the reply.
  replied-Changes :
      (c : InvokeCalls) (reply : Reply) (marshalled written : Result (Unit {0})) (m : MessageBuffer)
      (x : Result (Unit {0}) × MessageBuffer)
      → connect_invoke invoker c ≡ reply
      → handle_invoke_message invoker c marshalled written m ≡ some x
      → Changes m x.1
  unfolding handle_invoke_message
  replied-Changes c crashes marshalled written m x q e =
      let k = rw (q, handle_invoke_message) at e in cc
  replied-Changes c (replies (err f)) marshalled written m x q e =
      let k = rw (q, handle_invoke_message) at e in inl (ground arith)
  replied-Changes c (replies (ok r)) (err f) written m x q e =
      let k = rw (q, handle_invoke_message) at e in inl (ground arith)
  replied-Changes c (replies (ok r)) (ok t) (ok u) m x q e =
      let k = rw (q, handle_invoke_message) at e in inr (inl (r, ground arith))
  replied-Changes c (replies (ok r)) (ok t) (err f) m x q e =
      let k = rw (q, handle_invoke_message) at e in inr (inr (r, ground arith))

  happen-Keeps :
      (id : String) (h : Happening) (l t : Ledger)
      → id ≢ ""
      → Reorders h
      → happen invoker h l ≡ some t
      → IsMap l.buffer.buffered
      → Keeps id l t
  unfolding happen
  happen-Keeps id (write_fails r) l t n o e f = subst (Keeps id l) (cc) (
      buffer-Keeps id l (append r l.buffer) (unfold append in insert-IsMap r l.buffer.buffered f)
        (append-IsKept id r l.buffer))
  happen-Keeps id (wakes r) l t n o e f =
      subst (Keeps id l) (cc)
        (buffer-Keeps id l (wake r l.buffer) (wake-IsMap r l.buffer f) (wake-IsKept id r l.buffer))
  happen-Keeps id (acks p) l t n o e f = subst (Keeps id l) (cc) (acks-Keeps id p l n f)
  happen-Keeps id (flushes sends order) l t n o e f =
      subst (Keeps id l) (cc) (flush_ledger-Keeps sends order o id l f)
  happen-Keeps id (invokes c marshalled written) l t n o e f =
      elim (Option-cases (handle_invoke_message invoker c marshalled written l.buffer)) [
        | inl q ↦ let k = rw (q, happen) at e in cc
        | inr (x, q) ↦
            let k = rw (q, happen) at e in
            subst (Keeps id l) (cc) (
              Changes-Keeps id l x.1
                (replied-Changes c (connect_invoke invoker c) marshalled written l.buffer x refl q)
                f)
      ]

  pub happen_all-Keeps :
      (id : String) (hs : List Happening) (l t : Ledger)
      → id ≢ ""
      → All Reorders hs
      → happen_all invoker hs l ≡ some t
      → IsMap l.buffer.buffered
      → Keeps id l t
  unfolding happen_all
  happen_all-Keeps id [] l t n o e f =
      let same : l ≡ t = cc in subst (Keeps id l) same (record { filed = f; delivers = λ d. d })
  happen_all-Keeps id (h ∷ hs) l t n (o, os) e f = elim (Option-cases (happen invoker h l)) [
    | inl q ↦ let k = rw (q, happen_all) at e in cc
    | inr (u, q) ↦
        let first = happen-Keeps id h l u n o q f in
        let rest = happen_all-Keeps id hs u t n os (rw (q, happen_all) at e) first.filed in
        record { filed = rest.filed; delivers = λ d. rest.delivers (first.delivers d) }
  ]

  -- A response that was made and marshalled is in the buffer after that.
  made-IsDelivered :
      (c : InvokeCalls) (written : Result (Unit {0})) (resp : SdkResponse) (l t : Ledger)
      → connect_invoke invoker c ≡ replies (ok resp)
      → happen invoker (invokes c (ok tt) written) l ≡ some t
      → IsDelivered resp.request_id t
  unfolding happen
  made-IsDelivered c written resp l t q e =
      let (x, done, kept) = handle_invoke_message-kept invoker c written l.buffer resp q in
      let k = rw (done, happen) at e in ground (arith, kept)

  -- From any buffer whose entries are filed under their requests.
  happen_all-IsDelivered_from :
      (before after : List Happening) (c : InvokeCalls) (written : Result (Unit {0}))
      (resp : SdkResponse) (l t : Ledger)
      → resp.request_id ≢ ""
      → connect_invoke invoker c ≡ replies (ok resp)
      → All Reorders (before ++ invokes c (ok tt) written ∷ after)
      → happen_all invoker (before ++ invokes c (ok tt) written ∷ after) l ≡ some t
      → IsMap l.buffer.buffered
      → IsDelivered resp.request_id t
  unfolding happen_all
  happen_all-IsDelivered_from [] after c written resp l t n q (o, os) e f =
      elim (Option-cases (happen invoker (invokes c (ok tt) written) l)) [
        | inl p ↦ let k = rw (p, happen_all) at e in cc
        | inr (u, p) ↦
            let made = made-IsDelivered c written resp l u q p in
            let first = happen-Keeps resp.request_id (invokes c (ok tt) written) l u n o p f in
            let rest =
              happen_all-Keeps resp.request_id after u t n os (rw (p, happen_all) at e)
                first.filed in
            rest.delivers made
      ]
  happen_all-IsDelivered_from (h ∷ before) after c written resp l t n q (o, os) e f =
      elim (Option-cases (happen invoker h l)) [
        | inl p ↦ let k = rw (p, happen_all) at e in cc
        | inr (u, p) ↦
            happen_all-IsDelivered_from before after c written resp u t n q os
              (rw (p, happen_all) at e) (happen-Keeps resp.request_id h l u n o p f).filed
      ]

  -- Whatever a worker is asked from its start, whatever fails and in whatever order it happens: once
  -- a response for a request with an id was made and marshalled, a response to this request waits
  -- for its acknowledgement, is buffered, or was taken by the API, at every later time at which the
  -- process has not crashed.
  pub happen_all-IsDelivered :
      (before after : List Happening) (c : InvokeCalls) (written : Result (Unit {0}))
      (resp : SdkResponse) (t : Ledger)
      → resp.request_id ≢ ""
      → connect_invoke invoker c ≡ replies (ok resp)
      → All Reorders (before ++ invokes c (ok tt) written ∷ after)
      → happen_all invoker (before ++ invokes c (ok tt) written ∷ after) new_ledger ≡ some t
      → IsDelivered resp.request_id t
  unfolding new_message_buffer any distinct
  happen_all-IsDelivered before after c written resp t n q o e =
      happen_all-IsDelivered_from before after c written resp new_ledger t n q o e (refl, refl)
