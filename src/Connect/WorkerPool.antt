-- ===== src/Connect/WorkerPool.antt =====
-- connect/worker_pool.go, as steps of the goroutines around a pool: callers of Add, the workers,
-- and the context that they were started with. A message is its number.
pub mod Progress
pub mod Draining
mod Tests
use inngestgo.Prelude.{ℕ, suc, ◌+◌, ◌-◌, ◌<◌, ◌≡◌, Bool, true, false, List, [], ◌∷◌, ◌++◌, length}

pub record WorkerPool : Type 0 where
  pub concurrency : ℕ
  pub done : Bool  -- the workers' context
  pub in_progress : ℕ  -- the wait group
  pub adding : List ℕ  -- messages of callers that stand at the send in Add
  pub queue : List ℕ  -- the buffered channel
  pub idle : ℕ  -- workers at their select
  pub running : ℕ  -- workers in the handler

-- NewWorkerPool
unfoldable pub new_worker_pool : ℕ → WorkerPool
new_worker_pool n = record {
  concurrency = n;
  done = false;
  in_progress = 0;
  adding = [];
  queue = [];
  idle = n;
  running = 0;
}

pub data Step (w : WorkerPool) : WorkerPool → Type 0 where
  -- Add, its two statements; the channel takes a message while it has room
  add :
      (msg : ℕ)
      → Step w (record w { in_progress = w.in_progress + 1; adding = w.adding ++ msg ∷ [] })
  send :
      (msg : ℕ) (rest : List ℕ)
      → w.adding ≡ msg ∷ rest
      → length w.queue < w.concurrency
      → Step w (record w { adding = rest; queue = w.queue ++ msg ∷ [] })
  -- a worker's select takes a message, also when the context is done
  take :
      (msg : ℕ) (rest : List ℕ)
      → w.queue ≡ msg ∷ rest
      → 0 < w.idle
      → Step w (record w { queue = rest; idle = w.idle - 1; running = w.running + 1 })
  -- the handler calls Done on its way out
  finish :
      0 < w.running
      → Step w
          (record w { running = w.running - 1; idle = w.idle + 1; in_progress = w.in_progress - 1 })
  cancel : Step w (record w { done = true })
  -- a worker's select sees that the context is done
  stop : w.done ≡ true → 0 < w.idle → Step w (record w { idle = w.idle - 1 })

pub data Reach (w : WorkerPool) : WorkerPool → Type 0 where
  here : Reach w w
  next : {v u : WorkerPool} → Reach w v → Step v u → Reach w u

-- Wait returns in the states where the wait group is at 0.
abbrev pub Returns : WorkerPool → Type 0
Returns w = w.in_progress ≡ 0
