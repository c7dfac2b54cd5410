-- ===== src/Connect/WorkerPool/Progress.antt =====
-- What Wait waits for.
use inngestgo.Prelude.{
  ℕ, ◌+◌, ◌<◌, ◌≤◌, ◌≡◌, refl, ◌↔◌, List, [], ◌∷◌, length, length-append, arith,
}
use inngestgo.Connect.WorkerPool.{
  WorkerPool, new_worker_pool, Step, add, send, take, finish, cancel, stop, Reach, here, next,
  Returns,
}

pub record Inv (n : ℕ) (w : WorkerPool) : Type 0 where
  pub size : w.concurrency ≡ n
  pub counted : w.in_progress ≡ length w.adding + length w.queue + w.running
  pub workers : w.idle + w.running ≤ w.concurrency
  pub room : length w.queue ≤ w.concurrency

pub Step-Inv : {n : ℕ} {w u : WorkerPool} → Step w u → Inv n w → Inv n u
Step-Inv {w = w} (add msg) v = ground (arith, length-append w.adding (msg ∷ []))
Step-Inv {w = w} (send msg rest e h) v = ground (arith, length-append w.queue (msg ∷ []))
Step-Inv (take msg rest e h) v = ground arith
Step-Inv (finish h) v = ground arith
Step-Inv cancel v = ground arith
Step-Inv (stop e h) v = ground arith

pub Reach-Inv : {n : ℕ} {w u : WorkerPool} → Reach w u → Inv n w → Inv n u
Reach-Inv here v = v
Reach-Inv (next r s) v = Step-Inv s (Reach-Inv r v)

pub new-Inv : (n : ℕ) → Inv n (new_worker_pool n)
unfolding new_worker_pool
new-Inv n = ground arith

length_zero : (l : List ℕ) → length l ≡ 0 → l ≡ []
length_zero [] e = refl
length_zero (x ∷ l) e = absurd (omega arith)

-- After any steps of a new pool, Wait returns exactly when no message is on its way into the
-- channel, in the channel or in the handler. At most as many handlers run at once as the pool has
-- workers.
pub Reach-Returns :
    (n : ℕ) (w : WorkerPool)
    → Reach (new_worker_pool n) w
    → (Returns w ↔ ((w.adding ≡ []) × (w.queue ≡ []) × (w.running ≡ 0))) × (w.running ≤ n)
Reach-Returns n w r =
    let v = Reach-Inv r (new-Inv n) in
    (
      (
        λ e. (
          length_zero w.adding (omega (arith, v.counted)),
          length_zero w.queue (omega (arith, v.counted)),
          omega (arith, v.counted),
        ),
        λ e. ground (arith, v.counted),
      ),
      omega (arith, v.workers, v.size),
    )

-- All workers have left, and a message is still waiting.
pub record IsAbandoned (w : WorkerPool) : Type 0 where
  pub no_idle : w.idle ≡ 0
  pub no_running : w.running ≡ 0
  pub waiting : 0 < w.in_progress

Step-IsAbandoned : {w u : WorkerPool} → Step w u → IsAbandoned w → IsAbandoned u
Step-IsAbandoned (add msg) v = ground arith
Step-IsAbandoned (send msg rest e h) v = ground arith
Step-IsAbandoned (take msg rest e h) v = ground arith
Step-IsAbandoned (finish h) v = ground arith
Step-IsAbandoned cancel v = ground arith
Step-IsAbandoned (stop e h) v = ground arith

Reach-IsAbandoned : {w u : WorkerPool} → Reach w u → IsAbandoned w → IsAbandoned u
Reach-IsAbandoned here v = v
Reach-IsAbandoned (next r s) v = Step-IsAbandoned s (Reach-IsAbandoned r v)

-- Once the workers have left with a message still unhandled, Wait never returns.
IsAbandoned-never : (w u : WorkerPool) → IsAbandoned w → Reach w u → ¬ (Returns u)
IsAbandoned-never w u v r e = absurd (omega (arith, (Reach-IsAbandoned r v).waiting))
