-- ===== src/Connect/Heartbeats/Missed.antt =====
-- When a gateway counts as lost because its heartbeats are missing.
use inngestgo.Prelude.{
  ℕ, ◌+◌, ◌<◌, ◌≤◌, ◌≡◌, refl, ap, ◌∙◌, subst, ◌↔◌, inl, inr, Bool, true, false, Option, none, some,
  List, [], ◌∷◌, ◌++◌, arith, All, Bool-cases,
}
use inngestgo.Errors.{Error}
use inngestgo.Results.{Result, ok, err}
use inngestgo.Connect.Handshake.{MessageKind, gateway_closing, gateway_heartbeat}
use inngestgo.Connect.Reading.{Message, ReadState, handle_message, read_loop}
use inngestgo.Connect.Reading.Ends.{IsOpen}
use inngestgo.Connect.Heartbeats.{
  grace_period, Beat, reads, sender_tick, watch_tick, worker_done, Session, is_overdue, read_one,
  beat, session, new_session,
}

-- What the gateway sends keeps the read loop going, and the worker is not being closed.
abbrev pub GoesOn : Beat → Type 0
GoesOn (reads r) = IsOpen r
GoesOn (sender_tick w) = Unit
GoesOn (watch_tick at) = Unit
GoesOn worker_done = ⊥

abbrev pub heartbeat_at : MessageKind → ℕ → Option ℕ
heartbeat_at gateway_heartbeat at = some at
heartbeat_at _ at = none

-- The time of the gateway's heartbeat that is read.
abbrev pub received : Beat → Option ℕ
received (reads (ok msg)) = heartbeat_at msg.kind msg.at
received (reads (err e)) = none
received (sender_tick w) = none
received (watch_tick at) = none
received worker_done = none

-- More than the grace period before.
abbrev pub IsOld : ℕ → Option ℕ → Type 0
IsOld at none = Unit
IsOld at (some t) = t + grace_period < at

abbrev pub latest : Option ℕ → Option ℕ → Option ℕ
latest none last = last
latest (some t) last = some t

abbrev NotBefore : Option ℕ → Option ℕ → Type 0
NotBefore none t = Unit
NotBefore (some m) none = Unit
NotBefore (some m) (some t) = m ≤ t

-- The heartbeats are read in the order of their times.
abbrev pub InOrder : Option ℕ → List Beat → Type 0
InOrder last [] = Unit
InOrder last (b ∷ bs) = NotBefore last (received b) × InOrder (latest (received b) last) bs

-- Does the watch find the last heartbeat overdue?
abbrev alarm : Beat → Option ℕ → Bool
alarm (watch_tick at) last = is_overdue at last
alarm _ last = false

module _ (cut : Error) where
  record Follows (b : Beat) (s t : Session) : Type 0 where
    last : t.reading.last_heartbeat ≡ latest (received b) s.reading.last_heartbeat
    reads_on : t.ended ≡ none
    not_done : t.is_done ≡ false
    missed : t.missed ≡ alarm b s.reading.last_heartbeat

  -- By the kind of the message.
  read-Follows :
      (kind : MessageKind) (n at : ℕ) (d : Result (Unit {0})) (s : Session)
      → let msg : Message = record { number = n; kind = kind; at = at; decoded = d } in
        IsOpen (ok msg)
        → s.ended ≡ none
        → s.is_done ≡ false
        → s.missed ≡ false
        → Follows (reads (ok msg)) s (beat cut (reads (ok msg)) s)
  unfolding beat read_one read_loop handle_message
  read-Follows gateway_closing n at d s o e f m = absurd (o refl)
  read-Follows gateway_heartbeat n at d s o e f m = rw (e, f, m) (ground arith)
  read-Follows kind n at d s o e f m = rw (e, f, m) (ground arith)

  -- While the reader's context is not cancelled.
  beat-Follows :
      (b : Beat) (s : Session)
      → GoesOn b
      → s.ended ≡ none
      → s.is_done ≡ false
      → s.missed ≡ false
      → Follows b s (beat cut b s)
  unfolding beat
  beat-Follows (reads (ok msg)) s o e f m =
      read-Follows msg.kind msg.number msg.at msg.decoded s o e f m
  beat-Follows (reads (err x)) s o e f m = absurd o
  beat-Follows (sender_tick w) s o e f m = ground arith
  beat-Follows (watch_tick at) s o e f m = ground arith
  beat-Follows worker_done s o e f m = absurd o

-- A tick of the watch at which all heartbeats that were read before are old.
abbrev pub IsSilent : List Beat → Type 0
IsSilent bs =
    (before : List Beat) × (at : ℕ) × (after : List Beat) × (bs ≡ before ++ watch_tick at ∷ after)
    × All (λ b. IsOld at (received b)) before

is_overdue-IsOld : (at : ℕ) (last : Option ℕ) → is_overdue at last ≡ true → IsOld at last
unfolding is_overdue
is_overdue-IsOld at none h = tt
is_overdue-IsOld at (some t) h = ground arith

IsOld-is_overdue : (at : ℕ) (last : Option ℕ) → IsOld at last → is_overdue at last ≡ true
unfolding is_overdue
IsOld-is_overdue at none h = refl
IsOld-is_overdue at (some t) h = ground arith

-- What is old is so without the heartbeats that came before it.
latest-IsOld :
    (at : ℕ) (t last : Option ℕ)
    → NotBefore last t
    → IsOld at (latest t last)
    → IsOld at last × IsOld at t
latest-IsOld at none last n o = (o, tt)
latest-IsOld at (some t) none n o = (tt, o)
latest-IsOld at (some t) (some m) n o = (omega arith, o)

IsOld-latest : (at : ℕ) (t last : Option ℕ) → IsOld at last → IsOld at t → IsOld at (latest t last)
IsOld-latest at none last o p = o
IsOld-latest at (some t) last o p = p

module _ (cut : Error) where
  read_one-missed :
      (o : Option Error) (r : Result Message) (s : Session) → (read_one cut o r s).missed ≡ s.missed
  unfolding read_one
  read_one-missed none r s = refl
  read_one-missed (some e) r s = refl

  -- Nothing takes back that the reading was cancelled.
  beat-missed : (b : Beat) (s : Session) → s.missed ≡ true → (beat cut b s).missed ≡ true
  unfolding beat
  beat-missed (reads r) s m = read_one-missed s.ended r s ∙ m
  beat-missed (sender_tick w) s m = ground arith
  beat-missed (watch_tick at) s m = ground arith
  beat-missed worker_done s m = m

  session-missed :
      (bs : List Beat) (s : Session) → s.missed ≡ true → (session cut bs s).missed ≡ true
  unfolding session
  session-missed [] s m = m
  session-missed (b ∷ bs) s m = session-missed bs (beat cut b s) (beat-missed b s m)

  missed_of_silent :
      (before : List Beat) (at : ℕ) (after : List Beat) (s : Session)
      → All GoesOn (before ++ watch_tick at ∷ after)
      → s.ended ≡ none
      → s.is_done ≡ false
      → s.missed ≡ false
      → IsOld at s.reading.last_heartbeat
      → All (λ b. IsOld at (received b)) before
      → (session cut (before ++ watch_tick at ∷ after) s).missed ≡ true
  unfolding session
  missed_of_silent [] at after s (g, gs) e f m o os =
      let k = beat-Follows cut (watch_tick at) s g e f m in
      session-missed after (beat cut (watch_tick at) s)
        (k.missed ∙ IsOld-is_overdue at s.reading.last_heartbeat o)
  missed_of_silent (b ∷ before) at after s (g, gs) e f m o (p, ps) =
      let k = beat-Follows cut b s g e f m in
      elim (Bool-cases (beat cut b s).missed) [
        | inl c ↦ session-missed (before ++ watch_tick at ∷ after) (beat cut b s) c
        | inr c ↦
            missed_of_silent before at after (beat cut b s) gs k.reads_on k.not_done c
              (rw k.last (IsOld-latest at (received b) s.reading.last_heartbeat o p)) ps
      ]

abbrev IsSilentFrom : Option ℕ → List Beat → Type 0
IsSilentFrom last bs =
    (before : List Beat) × (at : ℕ) × (after : List Beat) × (bs ≡ before ++ watch_tick at ∷ after)
    × All (λ b. IsOld at (received b)) before
    × IsOld at last

later :
    (b : Beat) (bs : List Beat) (last : Option ℕ)
    → NotBefore last (received b)
    → IsSilentFrom (latest (received b) last) bs
    → IsSilentFrom last (b ∷ bs)
later b bs last n (before, at, after, q, os, o) =
    let (p, r) = latest-IsOld at (received b) last n o in
    (b ∷ before, at, after, ap (λ l. b ∷ l) q, (r, os), p)

-- A beat that raises the alarm is a tick of the watch.
alarm-IsSilentFrom :
    (b : Beat) (bs : List Beat) (last : Option ℕ) → alarm b last ≡ true → IsSilentFrom last (b ∷ bs)
alarm-IsSilentFrom (watch_tick at) bs last a = ([], at, bs, refl, tt, is_overdue-IsOld at last a)
alarm-IsSilentFrom (reads r) bs last a = cc
alarm-IsSilentFrom (sender_tick w) bs last a = cc
alarm-IsSilentFrom worker_done bs last a = cc

silent_of_missed :
    (cut : Error) (bs : List Beat) (s : Session)
    → All GoesOn bs
    → InOrder s.reading.last_heartbeat bs
    → s.ended ≡ none
    → s.is_done ≡ false
    → s.missed ≡ false
    → (session cut bs s).missed ≡ true
    → IsSilentFrom s.reading.last_heartbeat bs
unfolding session
silent_of_missed cut [] s g i e f n m = cc
silent_of_missed cut (b ∷ bs) s (g, gs) (i, is) e f n m =
    let k = beat-Follows cut b s g e f n in
    elim (Bool-cases (alarm b s.reading.last_heartbeat)) [
      | inl a ↦ alarm-IsSilentFrom b bs s.reading.last_heartbeat a
      | inr a ↦ later b bs s.reading.last_heartbeat i (
          subst (λ l. IsSilentFrom l bs) k.last
            (silent_of_missed cut bs (beat cut b s) gs (rw k.last is) k.reads_on k.not_done
              (k.missed ∙ a) m))
    ]

-- While nothing that the gateway sends ends the reading and the worker is not closed, and where
-- heartbeats are read in the order of their times, the watch cancels the reading exactly if at some
-- tick of it every heartbeat of the gateway that was read before is more than twenty seconds old,
-- or there was none.
pub session-IsSilent :
    (cut : Error) (bs : List Beat) (t : ReadState)
    → t.last_heartbeat ≡ none
    → All GoesOn bs
    → InOrder none bs
    → ((session cut bs (new_session t)).missed ≡ true) ↔ IsSilent bs
session-IsSilent cut bs t n g i = (
  λ m.
      let (before, at, after, q, os, o) =
        silent_of_missed cut bs (new_session t) g (rw n i) refl refl refl m in
      (before, at, after, q, os),
  λ (before, at, after, q, os). rw q (
      missed_of_silent cut before at after (new_session t) (subst (All GoesOn) q g) refl refl refl
        (rw n tt) os),
)
