-- ===== src/Connect/Heartbeats/Ends.antt =====
-- What the heartbeats leave alone, and what follows when they are missed.
use inngestgo.Prelude.{
  ◌+◌, ◌*◌, ◌<◌, ltb, if◌then◌else◌, ℕ, ◌≡◌, refl, sym, ap, ◌∙◌, Bool, true, false, Option, none,
  some, List, [], ◌∷◌, arith, Option-cases, Bool-cases, inl, inr,
}
use inngestgo.Errors.{Error, text, wrapped, reconnect, any_link, close_reason}
use inngestgo.Results.{Result, ok, err}
use inngestgo.Connect.RunLoop.Defs.{
  ConnectReport, Keys, Loop, connect_done, continues, round, on_error, check_auth, check_reason,
  retry, try_connect, is_too_many, is_unauthenticated, is_retriable,
}
use inngestgo.Connect.RunLoop.Attempts.{connects}
use inngestgo.Connect.Handshake.{
  MessageKind, gateway_heartbeat, should_reconnect, read_error, handle_connection, after_connection,
  done, is_draining, is_lost,
}
use inngestgo.Connect.Reading.{Message, ReadState, handle_message, read_loop}
use inngestgo.Connect.Heartbeats.{
  Beat, reads, sender_tick, watch_tick, worker_done, Session, is_cancelled, is_overdue, read_one,
  beat, session,
}
use inngestgo.Connect.Heartbeats.Missed.{latest, received}

abbrev pub outcome : Session → Option Error × ReadState
outcome s = (s.ended, s.reading)

abbrev is_old : ℕ → Option ℕ → Bool
is_old at none = true
is_old at (some t) = ltb (t + 20 * 1000000000) at

-- The first read fails.
abbrev pub cut_off : Error → List Beat → List (Result Message)
cut_off cut [] = []
cut_off cut (reads r ∷ bs) = err cut ∷ []
cut_off cut (sender_tick w ∷ bs) = cut_off cut bs
cut_off cut (watch_tick at ∷ bs) = cut_off cut bs
cut_off cut (worker_done ∷ bs) = cut_off cut bs

-- The reads up to the worker's end or to a tick of the watch at which the last heartbeat is more
-- than twenty seconds old, and then one that fails.
abbrev pub reads_until_cut : Error → Option ℕ → List Beat → List (Result Message)
reads_until_cut cut last [] = []
reads_until_cut cut last (reads r ∷ bs) =
    r ∷ reads_until_cut cut (latest (received (reads r)) last) bs
reads_until_cut cut last (sender_tick w ∷ bs) = reads_until_cut cut last bs
reads_until_cut cut last (watch_tick at ∷ bs) =
    let rest = reads_until_cut cut last bs in if is_old at last then cut_off cut bs else rest
reads_until_cut cut last (worker_done ∷ bs) = cut_off cut bs

module _ (cut : Error) where
  beat-outcome :
      (b : Beat) (s : Session) (e : Error) → s.ended ≡ some e → outcome (beat cut b s) ≡ outcome s
  unfolding beat read_one
  beat-outcome (reads r) s e h = rw h refl
  beat-outcome (sender_tick w) s e h = ground arith
  beat-outcome (watch_tick at) s e h = ground arith
  beat-outcome worker_done s e h = refl

  session-outcome :
      (bs : List Beat) (s : Session) (e : Error)
      → s.ended ≡ some e
      → outcome (session cut bs s) ≡ outcome s
  unfolding session
  session-outcome [] s e h = refl
  session-outcome (b ∷ bs) s e h =
      let k = beat-outcome b s e h in session-outcome bs (beat cut b s) e (ap (λ p. p.0) k ∙ h) ∙ k

  -- What a beat other than a read leaves alone.
  record Keeps (s t : Session) : Type 0 where
    reading : t.reading ≡ s.reading
    ended : t.ended ≡ s.ended
    cancelled : is_cancelled s ≡ true → is_cancelled t ≡ true

  sender_tick-Keeps : (w : Result (Unit {0})) (s : Session) → Keeps s (beat cut (sender_tick w) s)
  unfolding beat
  sender_tick-Keeps w s = ground arith

  watch_tick-Keeps : (at : ℕ) (s : Session) → Keeps s (beat cut (watch_tick at) s)
  unfolding beat
  watch_tick-Keeps at s = ground arith

  worker_done-Keeps : (s : Session) → Keeps s (beat cut worker_done s)
  unfolding beat
  worker_done-Keeps s = ground arith

  cancelled_read :
      (r : Result Message) (s : Session)
      → s.ended ≡ none
      → is_cancelled s ≡ true
      → beat cut (reads r) s ≡ record s { ended = some cut }
  unfolding beat
  cancelled_read r s n c =
      let now_cut : read_one cut none r s ≡ record s { ended = some cut } =
        unfold read_one read_loop in rw c refl in
      ap (λ o. read_one cut o r s) n ∙ now_cut

  -- A reading that is cancelled ends with the next read.
  session-cut_off :
      (bs : List Beat) (s : Session)
      → s.ended ≡ none
      → is_cancelled s ≡ true
      → outcome (session cut bs s) ≡ read_loop (cut_off cut bs) s.reading
  unfolding session
  session-cut_off [] s n c = unfold read_loop in ap (λ o. (o, s.reading)) n
  session-cut_off (reads r ∷ bs) s n c =
      ap (λ t. outcome (session cut bs t)) (cancelled_read r s n c)
      ∙ session-outcome bs (record s { ended = some cut }) cut refl
      ∙ unfold read_loop in refl
  session-cut_off (sender_tick w ∷ bs) s n c =
      let k = sender_tick-Keeps w s in
      session-cut_off bs (beat cut (sender_tick w) s) (k.ended ∙ n) (k.cancelled c)
      ∙ ap (read_loop (cut_off cut bs)) k.reading
  session-cut_off (watch_tick at ∷ bs) s n c =
      let k = watch_tick-Keeps at s in
      session-cut_off bs (beat cut (watch_tick at) s) (k.ended ∙ n) (k.cancelled c)
      ∙ ap (read_loop (cut_off cut bs)) k.reading
  session-cut_off (worker_done ∷ bs) s n c =
      let k = worker_done-Keeps s in
      session-cut_off bs (beat cut worker_done s) (k.ended ∙ n) (k.cancelled c)
      ∙ ap (read_loop (cut_off cut bs)) k.reading

abbrev go_on : List (Result Message) → Option Error × ReadState → Option Error × ReadState
go_on rs (some e, t) = (some e, t)
go_on rs (none, t) = read_loop rs t

read_loop-cons :
    (r : Result Message) (rs : List (Result Message)) (t : ReadState)
    → read_loop (r ∷ rs) t ≡ go_on rs (read_loop (r ∷ []) t)
unfolding read_loop
read_loop-cons (err e) rs t = refl
read_loop-cons (ok msg) rs t = elim (Option-cases (handle_message msg t).0) [
  | inl n ↦ ground arith
  | inr (e, h) ↦ ground arith
]

-- A message that does not end the loop.
handle_message-last :
    (kind : MessageKind) (n at : ℕ) (d : Result (Unit {0})) (s : ReadState)
    → let msg : Message = record { number = n; kind = kind; at = at; decoded = d } in
      ((handle_message msg s).1).last_heartbeat
      ≡ latest (received (reads (ok msg))) s.last_heartbeat
unfolding handle_message
handle_message-last gateway_heartbeat n at d s = refl
handle_message-last kind n at d s = ground arith

-- The last heartbeat after a read.
read_loop-last :
    (r : Result Message) (t u : ReadState)
    → read_loop (r ∷ []) t ≡ (none, u)
    → u.last_heartbeat ≡ latest (received (reads r)) t.last_heartbeat
unfolding read_loop
read_loop-last (err e) t u q = cc
read_loop-last (ok msg) t u q =
    ground (arith, handle_message-last msg.kind msg.number msg.at msg.decoded t)

module _ (cut : Error) where
  -- The session after a read, by what the loop made of it.
  after_read :
      (r : Result Message) (bs : List Beat) (s : Session) (out : Option Error × ReadState)
      → s.ended ≡ none
      → is_cancelled s ≡ false
      → read_loop (r ∷ []) s.reading ≡ out
      → ((u : Session)
          → u.ended ≡ none
          → is_cancelled u ≡ false
          → outcome (session cut bs u)
            ≡ read_loop (reads_until_cut cut u.reading.last_heartbeat bs) u.reading)
      → outcome (session cut bs (beat cut (reads r) s))
        ≡ go_on (reads_until_cut cut (latest (received (reads r)) s.reading.last_heartbeat) bs) out
  unfolding beat read_one
  after_read r bs s (none, t) n c q ih =
      rw (n, c, q)
        (ih (record s { reading = t; ended = none }) refl c
          ∙ ap (λ l. read_loop (reads_until_cut cut l bs) t) (read_loop-last r s.reading t q))
  after_read r bs s (some e, t) n c q ih =
      rw (n, c, q) (session-outcome cut bs (record s { reading = t; ended = some e }) e refl)

  sender_tick-cut :
      (w : Result (Unit {0})) (s : Session)
      → is_cancelled (beat cut (sender_tick w) s) ≡ is_cancelled s
  unfolding beat
  sender_tick-cut w s = ground arith

  watch_tick-cut :
      (at : ℕ) (s : Session)
      → is_cancelled s ≡ false
      → is_cancelled (beat cut (watch_tick at) s) ≡ is_old at s.reading.last_heartbeat
  unfolding beat is_overdue
  watch_tick-cut at s c = ground arith

  -- However the ticks of the two other goroutines and the end of the worker fall between the reads:
  -- the read loop ends as it does, and leaves the state that it leaves, where it gets the reads up
  -- to the worker's end, or to the first tick of the watch at which the last heartbeat read is more
  -- than twenty seconds old or there was none, and then, for the next read, a failure. At first
  -- the reading has not ended and is not cancelled.
  pub session-read_loop :
      (bs : List Beat) (s : Session)
      → s.ended ≡ none
      → is_cancelled s ≡ false
      → outcome (session cut bs s)
        ≡ read_loop (reads_until_cut cut s.reading.last_heartbeat bs) s.reading
  unfolding session
  session-read_loop [] s n c = unfold read_loop in ap (λ o. (o, s.reading)) n
  session-read_loop (reads r ∷ bs) s n c =
      after_read r bs s (read_loop (r ∷ []) s.reading) n c refl (session-read_loop bs)
      ∙ sym (
          read_loop-cons r
            (reads_until_cut cut (latest (received (reads r)) s.reading.last_heartbeat) bs)
            s.reading)
  session-read_loop (sender_tick w ∷ bs) s n c =
      let k = sender_tick-Keeps cut w s in
      session-read_loop bs (beat cut (sender_tick w) s) (k.ended ∙ n) (sender_tick-cut w s ∙ c)
      ∙ ap (λ t. read_loop (reads_until_cut cut t.last_heartbeat bs) t) k.reading
  session-read_loop (watch_tick at ∷ bs) s n c =
      let k = watch_tick-Keeps cut at s in
      let t = beat cut (watch_tick at) s in
      elim (Bool-cases (is_old at s.reading.last_heartbeat)) [
        | inl o ↦ rw o (
            session-cut_off cut bs t (k.ended ∙ n) (watch_tick-cut at s c ∙ o)
            ∙ ap (read_loop (cut_off cut bs)) k.reading)
        | inr o ↦ rw o (
            session-read_loop bs t (k.ended ∙ n) (watch_tick-cut at s c ∙ o)
            ∙ ap (λ u. read_loop (reads_until_cut cut u.last_heartbeat bs) u) k.reading)
      ]
  session-read_loop (worker_done ∷ bs) s n c =
      unfold beat in session-cut_off cut bs (record s { is_done = true }) n (ground arith)

-- A connection that ends because a heartbeat of the gateway was missed, so that the read fails with
-- no close frame, is replaced: its report asks to reconnect, and the run loop goes on and starts
-- one connection, if fewer than five attempts were made and the worker is not closed meanwhile.
missed-reconnects :
    (keys : Keys) (l : Loop) (e : Error) (h : Bool)
    → close_reason e ≡ none
    → any_link is_draining e ≡ false
    → any_link is_lost e ≡ false
    → l.attempts < 5
    → (r : ConnectReport) × (after_connection (handle_connection (ok tt) (some e)) ≡ done r ∷ [])
      × (r.reconnect ≡ true)
      × ((round keys l (connect_done r h false)).next ≡ continues)
      × (connects (round keys l (connect_done r h false)).actions ≡ 1)
unfolding after_connection handle_connection read_error should_reconnect any_link close_reason
    is_draining round on_error check_auth check_reason is_too_many is_unauthenticated is_retriable
    retry try_connect connects
missed-reconnects keys l e h c n s a = (
  record {
    reconnect = true;
    err =
        some (
          wrapped "could not handle connection"
            (reconnect (text "connection closed unexpectedly")));
  },
  ground arith,
  refl,
  ground arith,
  ground arith,
)
