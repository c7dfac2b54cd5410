-- ===== src/Connect/Gateways.antt =====
-- connect/connection.go and connect/handler.go together: the connections that the run loop starts,
-- each of which starts the next one itself when its gateway drains. The goroutines interleave as
-- steps; a send to the run loop is one step with the round that receives it.
pub mod Starts
pub mod Gapless
pub mod Single
mod Tests
use inngestgo.Prelude.{String, Bool, true, false, Option, none, some, List, [], ◌∷◌, ◌++◌, ◌≡◌}
use inngestgo.Errors.{Error, any_link}
use inngestgo.Results.{Result, ok, err}
use inngestgo.Connect.RunLoop.Defs.{
  Keys, Loop, ConnectReport, Event, worker_done, connected, connect_done, initiate, Action, signal,
  flush, wait, connect, Next, continues, returns, Round, round,
}
use inngestgo.Connect.Handshake
use inngestgo.Connect.Handshake.{
  Connection, PrepareCalls, prepare_connection, handle_connection, after_connection, is_draining,
  done,
}

-- A connection whose gateway drains, in handleConnection: whether the next one has told it that it
-- is established, whether the ten seconds of the wait have passed, and whether its socket is closed.
pub record Draining : Type 0 where
  pub group : String
  pub told : Bool
  pub late : Bool
  pub shut : Bool

-- Where the newest connection is: in prepareConnection, about to notify the one before it, or in
-- handleConnection.
pub data Stage : Type 0 where
  preparing : Stage
  announced : (group : String) → Stage
  handling : (group : String) → Stage

-- A connection with those that it replaced, the last one first: what it was started with, and the
-- gateways that it asks the API to leave out.
pub record Chain : Type 0 where
  pub key : String
  pub excluded : List String
  pub stage : Stage
  pub old : List Draining

-- `go h.connect(ctx, connectionEstablishData{…})` of the run loop.
unfoldable pub spawn : List Action → List Chain
spawn [] = []
spawn (signal e ∷ acts) = spawn acts
spawn (flush k ∷ acts) = spawn acts
spawn (wait n ∷ acts) = spawn acts
spawn (connect k ∷ acts) =
    record { key = k; excluded = []; stage = preparing; old = [] } ∷ spawn acts

-- `<-notifyConnectedChan; doneWaiting()` of the connection before this one.
unfoldable pub tell : List Draining → List Draining
tell [] = []
tell (o ∷ os) = record o { told = true } ∷ os

-- A draining connection returns when it was told or its wait timed out, which closes its socket.
pub data Shut : List Draining → List Draining → Type 0 where
  in_time :
      {o : Draining} {os : List Draining}
      → o.told ≡ true
      → Shut (o ∷ os) (record o { shut = true } ∷ os)
  too_late :
      {o : Draining} {os : List Draining}
      → Shut (o ∷ os) (record o { late = true; shut = true } ∷ os)
  further : {o : Draining} {os ps : List Draining} → Shut os ps → Shut (o ∷ os) (o ∷ ps)

-- The chain that goes on at another gateway.
unfoldable pub move_on : String → Chain → Chain
move_on g c = record {
  key = c.key;
  excluded = g ∷ [];
  stage = preparing;
  old = record { group = g; told = false; late = false; shut = false } ∷ c.old;
}

-- The steps of a connection that the run loop has no part in.
pub data Move : Chain → Chain → Type 0 where
  tells :
      {c : Chain} (g : String)
      → c.stage ≡ announced g
      → Move c (record c { stage = handling g; old = tell c.old })
  drains :
      {c : Chain} (g : String) (e : Error)
      → c.stage ≡ handling g
      → any_link is_draining e ≡ true  -- the error that the read loop ends with
      → Move c (move_on g c)
  shuts : {c : Chain} (os : List Draining) → Shut c.old os → Move c (record c { old = os })

-- `left` are the draining connections whose next one has ended.
pub record Worker : Type 0 where
  pub loop : Loop
  pub running : Bool
  pub initiated : Bool
  pub chains : List Chain
  pub left : List Draining

abbrev goes_on : Next → Bool
goes_on continues = true
goes_on (returns e) = false

-- The run loop's round for an event.
unfoldable pub react : Keys → Event → Worker → Worker
unfolding spawn
react keys e w =
    let r = round keys w.loop e in
    record w { loop = r.loop; running = goes_on r.next; chains = w.chains ++ spawn r.actions }

unfoldable pub without : List Chain → Chain → List Chain → Worker → Worker
without before c after w = record w { chains = before ++ after; left = c.old ++ w.left }

pub data Step (keys : Keys) : Worker → Worker → Type 0 where
  starts :
      {w : Worker}
      → w.running ≡ true
      → w.initiated ≡ false
      → Step keys w (react keys initiate (record w { initiated = true }))
  -- prepareConnection succeeds, and the run loop is notified
  connects :
      {w : Worker} (before after : List Chain) (c : Chain) (p : PrepareCalls) (k : Connection)
      → w.running ≡ true
      → w.chains ≡ before ++ c ∷ after
      → c.stage ≡ preparing
      → prepare_connection p ≡ ok k
      → Step keys w (
          react keys connected (record w {
            chains = before ++ record c { stage = announced k.gateway_group_name } ∷ after;
          }))
  -- prepareConnection fails; what would follow it is not looked at
  fails :
      {w : Worker} (before after : List Chain) (c : Chain) (p : PrepareCalls) (e : Error)
      (r : ConnectReport) (has_messages done_waiting : Bool)
      → w.running ≡ true
      → w.chains ≡ before ++ c ∷ after
      → c.stage ≡ preparing
      → prepare_connection p ≡ err e
      → Handshake.connect (err e) (ok tt) none ≡ done r ∷ []
      → Step keys w
          (react keys (connect_done r has_messages done_waiting) (without before c after w))
  -- handleConnection returns, not because of a draining gateway
  ends :
      {w : Worker} (before after : List Chain) (c : Chain) (g : String)
      (flushed : Result (Unit {0})) (read : Option Error) (r : ConnectReport)
      (has_messages done_waiting : Bool)
      → w.running ≡ true
      → w.chains ≡ before ++ c ∷ after
      → c.stage ≡ handling g
      → after_connection (handle_connection flushed read) ≡ done r ∷ []
      → Step keys w
          (react keys (connect_done r has_messages done_waiting) (without before c after w))
  moves :
      {w : Worker} (before after : List Chain) (c d : Chain)
      → w.chains ≡ before ++ c ∷ after
      → Move c d
      → Step keys w (record w { chains = before ++ d ∷ after })
  shuts_left :
      {w : Worker} (os : List Draining) → Shut w.left os → Step keys w (record w { left = os })
  quits : {w : Worker} → w.running ≡ true → Step keys w (react keys worker_done w)

pub data Reach (keys : Keys) (w : Worker) : Worker → Type 0 where
  here : Reach keys w w
  next : {u v : Worker} → Reach keys w u → Step keys u v → Reach keys w v

-- The worker when its run loop starts.
unfoldable pub new_worker : Loop → Worker
new_worker l = record { loop = l; running = true; initiated = false; chains = []; left = [] }
