-- ===== src/Connect/Buffer/Flush.antt =====
-- What a flush sends and keeps.
use mathlib.Core.List.{Perm, append_assoc}
use mathlib.Core.List.Perm
use inngestgo.Prelude.{
  ℕ, zero, suc, ◌+◌, ◌≤◌, ◌<◌, Bool, false, ◌≡◌, refl, List, [], ◌∷◌, ◌++◌, map, arith, length,
  length-append, is_nil, sym, ◌⊎◌, Map, Bool-cases, inl, inr,
}
use inngestgo.Connect.Buffer.{SdkResponse, MessageBuffer, send_all, attempts, flush}

-- The messages of a map.
abbrev pub messages : Map SdkResponse → List SdkResponse
messages m = map (λ e. e.1) m

module _ (sends : ℕ → SdkResponse → Bool) (order : ℕ → Map SdkResponse → Map SdkResponse)
    (reorders : (k : ℕ) (m : Map SdkResponse) → Perm (order k m) m) where
  send_all-perm :
      (m : Map SdkResponse) (n : ℕ)
      → Perm
          ((send_all sends order m n).sent ++ messages (send_all sends order m n).left)
          (messages m)
  unfolding send_all
  send_all-perm [] n = Perm.refl []
  send_all-perm ((id, msg) ∷ m) n = elim (Bool-cases (sends n msg)) [
    | inl s ↦ rw (s, send_all) (Perm.cons msg (send_all-perm m (n + 1)))
    | inr s ↦ rw (s, send_all) (Perm.refl _)
  ]

  attempts-perm :
      (k : ℕ) (m : Map SdkResponse) (n : ℕ)
      → let r = (attempts sends order k m n).0 in Perm (r.sent ++ messages r.left) (messages m)
  unfolding attempts
  attempts-perm zero m n = Perm.refl _
  attempts-perm (suc k) m n =
      let f = send_all sends order (order k m) n in
      let first = Perm.trans (send_all-perm (order k m) n) (Perm.map _ (reorders k m)) in
      elim (Bool-cases (is_nil f.left)) [
        | inl e ↦ rw e first
        | inr e ↦
            rw (e, append_assoc)
              (Perm.trans (Perm.append_left f.sent (attempts-perm k f.left f.calls)) first)
      ]

module _ (sends : ℕ → SdkResponse → Bool) (order : ℕ → Map SdkResponse → Map SdkResponse) where
  send_all-calls :
      (m : Map SdkResponse) (n : ℕ)
      → let r = send_all sends order m n in
        (length r.sent + n ≤ r.calls) × (r.calls ≤ length r.sent + n + 1)
  unfolding send_all
  send_all-calls [] n = omega arith
  send_all-calls ((id, msg) ∷ m) n = ground (arith, send_all-calls m (n + 1))

  attempts-calls :
      (k : ℕ) (m : Map SdkResponse) (n : ℕ)
      → let r = (attempts sends order k m n).0 in
        (length r.sent + n ≤ r.calls) × (r.calls ≤ length r.sent + n + k)
  unfolding attempts
  attempts-calls zero m n = omega arith
  attempts-calls (suc k) m n =
      let f = send_all sends order (order k m) n in
      let r = (attempts sends order k f.left f.calls).0 in
      ground (
        arith,
        send_all-calls (order k m) n,
        attempts-calls k f.left f.calls,
        length-append f.sent r.sent,
      )

  -- The error says that something is left.
  attempts_done :
      (k : ℕ) (m : Map SdkResponse) (n : ℕ)
      → (is_nil m ≡ false) ⊎ (0 < k)
      → let r = attempts sends order k m n in r.1 ≡ is_nil (r.0).left
  unfolding attempts
  attempts_done zero m n h = ground arith
  attempts_done (suc k) m n h =
      let f = send_all sends order (order k m) n in
      elim (Bool-cases (is_nil f.left)) [
        | inl e ↦ rw e (sym e)
        | inr e ↦ rw e (attempts_done k f.left f.calls (inl e))
      ]

-- A flush, for an API that may fail at any call and any order in which the runtime goes through the
-- map: what it sent and what is left are together the messages that were buffered, each as often;
-- it reports success exactly when nothing is left; it calls the API once for each message sent and
-- at most five times more; responses that wait for an acknowledgement stay as they were.
pub flush_lem :
    (sends : ℕ → SdkResponse → Bool) (order : ℕ → Map SdkResponse → Map SdkResponse)
    (m : MessageBuffer)
    → ((k : ℕ) (s : Map SdkResponse) → Perm (order k s) s)
    → let (m', f, all) = flush sends order m in
      (m'.buffered ≡ f.left)
      × (m'.pending_ack ≡ m.pending_ack)
      × Perm (f.sent ++ messages f.left) (messages m.buffered)
      × (all ≡ is_nil f.left)
      × (length f.sent ≤ f.calls)
      × (f.calls ≤ length f.sent + 5)
unfolding flush
flush_lem sends order m reorders =
    let calls = attempts-calls sends order 5 m.buffered 0 in
    (
      refl,
      refl,
      attempts-perm sends order reorders 5 m.buffered 0,
      attempts_done sends order 5 m.buffered 0 (inr (omega arith)),
      omega arith,
      omega arith,
    )
