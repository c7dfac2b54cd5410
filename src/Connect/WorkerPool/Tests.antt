-- ===== src/Connect/WorkerPool/Tests.antt =====
-- The theorems about the worker pool, after concrete steps.
use inngestgo.Prelude.{◌≡◌, ◌≤◌, refl, ◌↔◌, ◌⊎◌, false, [], arith}
use inngestgo.Connect.WorkerPool.{
  WorkerPool, new_worker_pool, add, send, take, finish, Reach, here, next, Returns,
}
use inngestgo.Connect.WorkerPool.Draining.{then, none_yet, to_do, CanWork, Works-Returns}
use inngestgo.Connect.WorkerPool.Progress.{Reach-Returns}

-- One of two workers runs the handler.
abbrev busy : WorkerPool
busy = record {
  concurrency = 2;
  done = false;
  in_progress = 1;
  adding = [];
  queue = [];
  idle = 1;
  running = 1;
}

busy-Reach : Reach (new_worker_pool 2) busy
unfolding new_worker_pool
busy-Reach =
    next (next (next here (add 7)) (send 7 [] refl (omega arith))) (take 7 [] refl (omega arith))

Reach-Returns_example :
    (Returns busy ↔ ((busy.adding ≡ []) × (busy.queue ≡ []) × (busy.running ≡ 0)))
    × (busy.running ≤ 2)
Reach-Returns_example = Reach-Returns 2 busy busy-Reach

-- The worker that is busy finishes.
abbrev idle_again : WorkerPool
idle_again = record busy { running = 0; idle = 2; in_progress = 0 }

Works-Returns_example : (1 ≤ to_do busy) × (Returns idle_again ⊎ CanWork idle_again)
Works-Returns_example =
    Works-Returns 2 1 busy idle_again (omega arith) busy-Reach refl
      (then none_yet (finish (omega arith)) tt)
