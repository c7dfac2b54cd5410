-- ===== src/Connect/Gateways/Single.antt =====
-- That one connection, and not two, is kept up at a time, and that it is replaced without a gap.
use inngestgo.Prelude.{
  Bool, true, false, List, [], ◌∷◌, ◌++◌, ◌≡◌, refl, sym, ◌∙◌, ◌⊎◌, inl, inr, ◌≤◌, arith, All,
  Bool-cases, length,
}
use inngestgo.Connect.RunLoop.Defs.{
  Keys, Loop, Event, ConnectReport, worker_done, connected, connect_done, initiate, Next, continues,
  returns, round, try_connect,
}
use inngestgo.Connect.Gateways.{
  announced, Chain, spawn, Move, Worker, react, without, Step, starts, connects, fails, ends, moves,
  shuts_left, quits, Reach, here, next, new_worker,
}
use inngestgo.Connect.Gateways.Starts.{
  fresh, expected, try_connect-StartsOne, connect_done-StartsOne,
}
use inngestgo.Connect.Gateways.Gapless.{IsGood, Move-IsGood, announced-IsGood}

-- No connection was started, one is kept up with the loop's key, or the loop has ended.
pub data Inv (w : Worker) : Type 0 where
  not_yet : w.initiated ≡ false → w.chains ≡ [] → Inv w
  one :
      w.initiated ≡ true
      → (c : Chain) → w.chains ≡ c ∷ []
      → c.key ≡ w.loop.auth.hashed_signing_key
      → IsGood c
      → Inv w
  last_one : w.running ≡ false → (c : Chain) → w.chains ≡ c ∷ [] → IsGood c → Inv w
  no_more : w.running ≡ false → w.chains ≡ [] → Inv w

not_empty : (before after : List Chain) (c : Chain) {A : Type 0} → [] ≡ before ++ c ∷ after → A
not_empty [] after c e = cc
not_empty (b ∷ before) after c e = cc

-- The only element of a list.
only :
    (before after : List Chain) (c d : Chain)
    → d ∷ [] ≡ before ++ c ∷ after
    → (before ≡ []) × (after ≡ []) × (c ≡ d)
only [] after c d e = (refl, cc, cc)
only (b ∷ before) after c d e = not_empty before after c (cc)

ends-Inv :
    (keys : Keys) (e : Event) (w : Worker) (n : Next)
    → w.initiated ≡ true
    → w.chains ≡ []
    → (round keys w.loop e).next ≡ n
    → spawn (round keys w.loop e).actions ≡ expected n (round keys w.loop e).loop
    → Inv (react keys e w)
unfolding react
ends-Inv keys e w continues i c n h =
    one i (fresh (round keys w.loop e).loop.auth.hashed_signing_key) (ground arith) refl (refl, tt)
ends-Inv keys e w (returns x) i c n h = no_more (ground arith) (ground arith)

connected-Inv :
    (keys : Keys) (w : Worker) (c : Chain)
    → w.initiated ≡ true
    → w.chains ≡ c ∷ []
    → c.key ≡ w.loop.auth.hashed_signing_key
    → IsGood c
    → Inv (react keys connected w)
unfolding react round spawn
connected-Inv keys w c i e k good = elim (Bool-cases w.loop.is_initial_connection) [
  | inl b ↦ one i c (ground arith) k good
  | inr b ↦ one i c (ground arith) k good
]

-- While the loop runs, a connection that is found is the only one.
module _ (w : Worker) (before after : List Chain) (c : Chain)
    (found : w.chains ≡ before ++ c ∷ after) where
  abbrev IsCurrent : Type 0
  IsCurrent =
      (w.initiated ≡ true)
      × (before ≡ [])
      × (after ≡ [])
      × (c.key ≡ w.loop.auth.hashed_signing_key)
      × IsGood c

  current : Inv w → w.running ≡ true → IsCurrent
  current (not_yet n f) r = not_empty before after c (sym f ∙ found)
  current (one i d f k good) r =
      let (b, a, e) = only before after c d (sym f ∙ found) in (i, b, a, rw e k, rw e good)
  current (last_one n d f good) r = cc
  current (no_more n f) r = cc

  gone-Inv :
      (keys : Keys) (r : ConnectReport) (h d : Bool)
      → IsCurrent
      → Inv (react keys (connect_done r h d) (without before c after w))
  unfolding without
  gone-Inv keys r h d (i, b, a, k, good) =
      ends-Inv keys (connect_done r h d) (without before c after w)
        (round keys w.loop (connect_done r h d)).next i (rw (b, a) refl) refl
        (connect_done-StartsOne keys w.loop r h d)

  moves-Inv : (d : Chain) → Move c d → Inv w → Inv (record w { chains = before ++ d ∷ after })
  moves-Inv d m (not_yet n f) = not_empty before after c (sym f ∙ found)
  moves-Inv d m (one i x f k good) =
      let (b, a, e) = only before after c x (sym f ∙ found) in
      let (same, good') = Move-IsGood m (rw e good) in
      one i d (rw (b, a) refl) (same ∙ rw e k) good'
  moves-Inv d m (last_one n x f good) =
      let (b, a, e) = only before after c x (sym f ∙ found) in
      last_one n d (rw (b, a) refl) (Move-IsGood m (rw e good)).1
  moves-Inv d m (no_more n f) = not_empty before after c (sym f ∙ found)

quits-Inv : (keys : Keys) (w : Worker) → Inv w → Inv (react keys worker_done w)
unfolding react round spawn
quits-Inv keys w (not_yet n e) = not_yet n (ground arith)
quits-Inv keys w (one i c e k good) = last_one refl c (ground arith) good
quits-Inv keys w (last_one n c e good) = last_one refl c (ground arith) good
quits-Inv keys w (no_more n e) = no_more refl (ground arith)

starts-Inv :
    (keys : Keys) (w : Worker)
    → w.running ≡ true
    → w.initiated ≡ false
    → Inv w
    → Inv (react keys initiate (record w { initiated = true }))
unfolding round
starts-Inv keys w r i (not_yet n e) =
    ends-Inv keys initiate (record w { initiated = true }) (try_connect w.loop).next refl e refl
      (try_connect-StartsOne w.loop)
starts-Inv keys w r i (one j c e k good) = cc
starts-Inv keys w r i (last_one n c e good) = cc
starts-Inv keys w r i (no_more n e) = cc

-- Every step keeps the invariant.
Step-Inv : {keys : Keys} {w u : Worker} → Step keys w u → Inv w → Inv u
Step-Inv {keys} (starts {w} r i) v = starts-Inv keys w r i v
Step-Inv {keys} (connects {w} before after c p g r e s q) v =
    let (i, b, a, k, good) = current w before after c e v r in
    connected-Inv keys _ (record c { stage = announced g.gateway_group_name }) i (rw (b, a) refl) k
      (announced-IsGood c g.gateway_group_name s good)
Step-Inv {keys} (fails {w} before after c p x r h d n e s q t) v =
    gone-Inv w before after c e keys r h d (current w before after c e v n)
Step-Inv {keys} (ends {w} before after c g flushed read r h d n e s q) v =
    gone-Inv w before after c e keys r h d (current w before after c e v n)
Step-Inv (moves {w} before after c d e m) v = moves-Inv w before after c e d m v
Step-Inv (shuts_left os m) (not_yet n e) = not_yet n e
Step-Inv (shuts_left os m) (one i c e k good) = one i c e k good
Step-Inv (shuts_left os m) (last_one n c e good) = last_one n c e good
Step-Inv (shuts_left os m) (no_more n e) = no_more n e
Step-Inv {keys} (quits {w} r) v = quits-Inv keys w v

Reach-Inv : {keys : Keys} {w u : Worker} → Reach keys w u → Inv w → Inv u
Reach-Inv here v = v
Reach-Inv (next r s) v = Step-Inv s (Reach-Inv r v)

new-Inv : (l : Loop) → Inv (new_worker l)
unfolding new_worker
new-Inv l = not_yet refl refl

-- At most one connection is kept up, and exactly one, with the key of the run loop, from the time
-- when the loop is told to connect until it returns.
abbrev pub IsSingle : Worker → Type 0
IsSingle w =
    ((w.initiated ≡ false) × (w.chains ≡ []))
    ⊎ ((c : Chain) × (w.chains ≡ c ∷ []) × (c.key ≡ w.loop.auth.hashed_signing_key))
    ⊎ ((w.running ≡ false) × (length w.chains ≤ 1))

Inv-IsSingle : (w : Worker) → Inv w → IsSingle w
Inv-IsSingle w (not_yet n e) = inl (n, e)
Inv-IsSingle w (one i c e k good) = inr (inl (c, e, k))
Inv-IsSingle w (last_one n c e good) = inr (inr (n, rw e (omega arith)))
Inv-IsSingle w (no_more n e) = inr (inr (n, rw e (omega arith)))

-- In whatever order connections are set up, fail, end, drain and are replaced, a worker keeps up at
-- most one connection that takes requests or is being set up, besides those whose gateways drain:
-- none before the run loop is told to connect, exactly one from then on until the loop returns,
-- with the key that the loop holds, and at most one afterwards.
pub Reach-IsSingle :
    (keys : Keys) (l : Loop) (w : Worker) → Reach keys (new_worker l) w → IsSingle w
Reach-IsSingle keys l w r = Inv-IsSingle w (Reach-Inv r (new-Inv l))

Inv-gapless : (w : Worker) → Inv w → All IsGood w.chains
Inv-gapless w (not_yet n e) = rw e tt
Inv-gapless w (one i c e k good) = rw e (good, tt)
Inv-gapless w (last_one n c e good) = rw e (good, tt)
Inv-gapless w (no_more n e) = rw e tt

-- While a connection is set up that replaces one whose gateway drains, the API is asked to leave
-- out that gateway's group, and the socket of the replaced connection is open unless its wait of
-- ten seconds has passed; all connections that were replaced before it, and all of them once the
-- new one is set up and handled, have been told that they are.
pub Reach-gapless :
    (keys : Keys) (l : Loop) (w : Worker) → Reach keys (new_worker l) w → All IsGood w.chains
Reach-gapless keys l w r = Inv-gapless w (Reach-Inv r (new-Inv l))
