-- ===== src/Connect/Reading/Ends.antt =====
-- When the read loop ends, and what it has given to the worker pool by then.
use inngestgo.Prelude.{
  ℕ, ◌≡◌, ◌≢◌, refl, sym, ap, ◌∙◌, Bool, true, false, Option, none, some, List, [], ◌∷◌, ◌++◌, All,
  if◌then◌else◌,
}
use mathlib.Core.List.{append-nil, append_assoc}
use inngestgo.Errors.{Error, sentinel, gateway_draining}
use inngestgo.Results.{Result, ok, err}
use inngestgo.Connect.Handshake.{
  MessageKind, gateway_closing, gateway_executor_request, gateway_heartbeat, worker_reply_ack,
  gateway_hello, gateway_connection_ready, other_kind, handle_message_reply_ack,
}
use inngestgo.Connect.Reading.{Message, ReadState, handle_message, read_loop}

-- The reads that the loop goes on after.
abbrev pub IsOpen : Result Message → Type 0
IsOpen (err e) = ⊥
IsOpen (ok msg) = msg.kind ≢ gateway_closing

-- The error with which a read ends the loop.
abbrev pub Ends : Result Message → Error → Type 0
Ends (err e) cause = cause ≡ e
Ends (ok msg) cause = (msg.kind ≡ gateway_closing) × (cause ≡ sentinel gateway_draining)

abbrev pub is_request : MessageKind → Bool
is_request gateway_executor_request = true
is_request _ = false

-- The requests among the reads.
abbrev pub requests : List (Result Message) → List Message
requests [] = []
requests (err e ∷ reads) = requests reads
requests (ok msg ∷ reads) =
    let rest = requests reads in if is_request msg.kind then msg ∷ rest else rest

-- Either the loop has ended, at the first read that ends it, or none of the reads does.
abbrev pub Outcome : List (Result Message) → ReadState → Option Error × ReadState → Type 0
Outcome reads s (none, t) = All IsOpen reads × (t.added ≡ s.added ++ requests reads)
Outcome reads s (some cause, t) =
    (before : List (Result Message)) × (last : Result Message) × (after : List (Result Message))
    × (reads ≡ before ++ last ∷ after)
    × All IsOpen before
    × Ends last cause
    × (t.added ≡ s.added ++ requests before)

Outcome-next :
    (msg : Message) (reads : List (Result Message)) (s t : ReadState) (r : Option Error × ReadState)
    → msg.kind ≢ gateway_closing
    → ((rest : List (Result Message))
        → t.added ++ requests rest ≡ s.added ++ requests (ok msg ∷ rest))
    → Outcome reads t r
    → Outcome (ok msg ∷ reads) s r
Outcome-next msg reads s t (none, u) k a (o, e) = ((k, o), e ∙ a reads)
Outcome-next msg reads s t (some cause, u) k a (before, last, after, q, o, l, e) =
    (ok msg ∷ before, last, after, ap (λ rs. ok msg ∷ rs) q, (k, o), l, e ∙ a before)

-- By the kind of the first message.
after_message :
    (kind : MessageKind) (n at : ℕ) (d : Result (Unit {0})) (reads : List (Result Message))
    (s : ReadState)
    → ((t : ReadState) → Outcome reads t (read_loop reads t))
    → let msg : Message = record { number = n; kind = kind; at = at; decoded = d } in
      Outcome (ok msg ∷ reads) s (read_loop (ok msg ∷ reads) s)
unfolding read_loop handle_message
after_message gateway_closing n at d reads s ih =
    ([], _, reads, refl, tt, (refl, refl), sym (append-nil s.added))
after_message gateway_executor_request n at d reads s ih =
    let msg : Message = record {
      number = n;
      kind = gateway_executor_request;
      at = at;
      decoded = d;
    } in
    Outcome-next msg reads s (record s { added = s.added ++ msg ∷ [] }) _ (λ e. cc)
      (λ rest. append_assoc s.added (msg ∷ []) (requests rest))
      (ih (record s { added = s.added ++ msg ∷ [] }))
after_message gateway_heartbeat n at d reads s ih =
    Outcome-next _ reads s (record s { last_heartbeat = some at }) _ (λ e. cc) (λ rest. refl)
      (ih (record s { last_heartbeat = some at }))
after_message worker_reply_ack n at d reads s ih =
    let t = record s { buffer = (handle_message_reply_ack d s.buffer).1 } in
    Outcome-next _ reads s t _ (λ e. cc) (λ rest. refl) (ih t)
after_message gateway_hello n at d reads s ih =
    Outcome-next _ reads s s _ (λ e. cc) (λ rest. refl) (ih s)
after_message gateway_connection_ready n at d reads s ih =
    Outcome-next _ reads s s _ (λ e. cc) (λ rest. refl) (ih s)
after_message other_kind n at d reads s ih =
    Outcome-next _ reads s s _ (λ e. cc) (λ rest. refl) (ih s)

-- The read loop ends exactly at the first read that fails or is the gateway's closing message, with
-- the failure or the error that the gateway is draining, and it waits while there is no such read;
-- by then each request that was read before was given to the worker pool once, in the order of the
-- reads, and nothing else was.
pub read_loop-Outcome :
    (reads : List (Result Message)) (s : ReadState) → Outcome reads s (read_loop reads s)
unfolding read_loop
read_loop-Outcome [] s = (tt, sym (append-nil s.added))
read_loop-Outcome (err e ∷ reads) s = ([], err e, reads, refl, tt, refl, sym (append-nil s.added))
read_loop-Outcome (ok msg ∷ reads) s =
    after_message msg.kind msg.number msg.at msg.decoded reads s (read_loop-Outcome reads)
