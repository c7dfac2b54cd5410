-- ===== src/Connect/RunLoop/Keys.antt =====
-- Which signing key the run loop uses.
use inngestgo.Prelude.{
  ◌<◌, ◌≡◌, ◌≢◌, refl, Bool, true, false, Option, none, some, List, [], ◌∷◌, String, arith, All,
  All-append, str_eq_iff, subst, ◌∙◌, Bool-cases, ◌⊎◌, inl, inr,
}
use inngestgo.Errors.{Error, text, any_link, close_reason}
use inngestgo.Connect.RunLoop.Attempts.{connects}
use inngestgo.Connect.RunLoop.Defs.{
  Loop, Keys, AuthContext, reconnecting, Event, worker_done, connected, connect_done, initiate,
  Action, signal, flush, wait, connect, Next, continues, returns, Round, try_connect, retry,
  check_reason, check_auth, on_error, round, run, is_unauthenticated, is_too_many, is_retriable,
  before, signals,
}

-- An action that uses a key uses this one.
abbrev pub Uses : String → Action → Type 0
Uses key (signal e) = Unit
Uses key (flush k) = k ≡ key
Uses key (wait d) = Unit
Uses key (connect k) = k ≡ key

abbrev KeepsKey : Loop → Round → Type 0
KeepsKey l r = All (Uses l.auth.hashed_signing_key) r.actions × (r.loop.auth ≡ l.auth)

try_connect-KeepsKey : (l : Loop) → KeepsKey l (try_connect l)
unfolding try_connect
try_connect-KeepsKey l = ground arith

retry-KeepsKey : (h d : Bool) (l : Loop) → KeepsKey l (retry h d l)
unfolding retry try_connect
retry-KeepsKey h d l = ground arith

check_reason-KeepsKey : (e : Error) (h d : Bool) (l : Loop) → KeepsKey l (check_reason e h d l)
unfolding check_reason
check_reason-KeepsKey e h d l = ground (arith, retry-KeepsKey h d l)

-- The report does not say that authentication failed.
abbrev pub NoAuthError : Event → Type 0
NoAuthError worker_done = Unit
NoAuthError connected = Unit
NoAuthError (connect_done r h d) =
    (e : Error) → r.err ≡ some e → any_link is_unauthenticated e ≡ false
NoAuthError initiate = Unit

on_error-KeepsKey :
    (keys : Keys) (o : Option Error) (h d : Bool) (l : Loop)
    → ((e : Error) → o ≡ some e → any_link is_unauthenticated e ≡ false)
    → KeepsKey l (on_error keys o h d l)
unfolding on_error check_auth
on_error-KeepsKey keys none h d l n = retry-KeepsKey h d l
on_error-KeepsKey keys (some e) h d l n = ground (arith, n e refl, check_reason-KeepsKey e h d l)

round-KeepsKey : (keys : Keys) (l : Loop) (e : Event) → NoAuthError e → KeepsKey l (round keys l e)
unfolding round
round-KeepsKey keys l worker_done n = (tt, refl)
round-KeepsKey keys l connected n = ground arith
round-KeepsKey keys l (connect_done r h d) n =
    ground (arith, on_error-KeepsKey keys r.err h d (record l { state = reconnecting }) n)
round-KeepsKey keys l initiate n = try_connect-KeepsKey l

then-KeepsKey :
    (l : Loop) (r rest : Round) (n : Next)
    → KeepsKey l r
    → KeepsKey r.loop rest
    → KeepsKey l (elim n [ continues ↦ before r.actions rest | returns x ↦ r ])
then-KeepsKey l r rest continues (u, e) (v, f) = (
  All-append (Uses l.auth.hashed_signing_key) r.actions rest.actions u
      (subst (λ (a : AuthContext). All (Uses a.hashed_signing_key) rest.actions) e v),
  f ∙ e,
)
then-KeepsKey l r rest (returns x) k m = k

-- As long as no report says that authentication failed, every connection and every flush uses the
-- key that the loop started with, and that key stays.
run-Uses :
    (keys : Keys) (l : Loop) (es : List Event)
    → All NoAuthError es
    → let r = run keys l es in
      All (Uses l.auth.hashed_signing_key) r.actions × (r.loop.auth ≡ l.auth)
unfolding run
run-Uses keys l [] n = (tt, refl)
run-Uses keys l (e ∷ es) (n, ns) =
    let r = round keys l e in
    then-KeepsKey l r (run keys r.loop es) r.next (round-KeepsKey keys l e n)
      (run-Uses keys r.loop es ns)

-- A report that authentication failed, from the first signing key, makes the loop go on with the
-- fallback key if there is one: the loop starts one connection, this connection and the flush
-- before it use the fallback key, and the loop keeps it. A second such report makes the loop return
-- an error, with no action but to tell it to a caller that still waits. The report is not about too many connections, its close reason allows a retry, the
-- wait is not cut short, and fewer than five attempts were made.
pub on_error-unauthenticated :
    (keys : Keys) (e : Error) (h : Bool) (l : Loop)
    → any_link is_unauthenticated e ≡ true
    → any_link is_too_many e ≡ false
    → is_retriable (close_reason e) ≡ true
    → keys.hashed_signing_key_fallback ≢ ""
    → l.attempts < 5
    → let r = on_error keys (some e) h false l in
      ((l.auth.fallback ≡ false)
        × (r.next ≡ continues)
        × (r.loop.auth.fallback ≡ true)
        × (connects r.actions ≡ 1)
        × All (Uses keys.hashed_signing_key_fallback) r.actions
        × (r.loop.auth.hashed_signing_key ≡ keys.hashed_signing_key_fallback))
      ⊎ ((x : Error) × (l.auth.fallback ≡ true)
          × (r.next ≡ returns (some x))
          × (r.loop.auth ≡ l.auth)
          × (r.actions ≡ signals (some x) l))
unfolding on_error check_auth check_reason retry try_connect connects
on_error-unauthenticated keys e h l u t c f a = elim (Bool-cases l.auth.fallback) [
  | inr b ↦ inl (ground (arith, str_eq_iff keys.hashed_signing_key_fallback ""))
  | inl b ↦ inr (
    text "failed to authenticate with fallback key, exiting",
    b,
    ground arith,
    ground arith,
    ground arith,
  )
]
