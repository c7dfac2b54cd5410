-- ===== src/Connect/WorkerPool/Draining.antt =====
-- That the pool works off what it was given.
use inngestgo.Prelude.{
  ℕ, zero, suc, ◌+◌, ◌*◌, ◌<◌, ◌≤◌, ◌≡◌, refl, ◌∙◌, ◌⊎◌, inl, inr, true, false, List, [], ◌∷◌,
  length, length-append, arith,
}
use inngestgo.Connect.WorkerPool.{
  WorkerPool, new_worker_pool, Step, add, send, take, finish, cancel, stop, Reach, here, next,
  Returns,
}
use inngestgo.Connect.WorkerPool.Progress.{Inv, Step-Inv, Reach-Inv, new-Inv}

-- Until the context is done no worker leaves.
abbrev IsStaffed : WorkerPool → Type 0
IsStaffed w = (w.done ≡ true) ⊎ (w.idle + w.running ≡ w.concurrency)

Step-IsStaffed : {w u : WorkerPool} → Step w u → IsStaffed w → IsStaffed u
Step-IsStaffed (add msg) s = s
Step-IsStaffed (send msg rest e h) s = s
Step-IsStaffed (take msg rest e h) (inl d) = inl d
Step-IsStaffed (take msg rest e h) (inr s) = inr (omega arith)
Step-IsStaffed (finish h) (inl d) = inl d
Step-IsStaffed (finish h) (inr s) = inr (omega arith)
Step-IsStaffed cancel s = inl refl
Step-IsStaffed (stop e h) s = inl e

Reach-IsStaffed : {w u : WorkerPool} → Reach w u → IsStaffed w → IsStaffed u
Reach-IsStaffed here s = s
Reach-IsStaffed (next r st) s = Step-IsStaffed st (Reach-IsStaffed r s)

new-IsStaffed : (n : ℕ) → IsStaffed (new_worker_pool n)
unfolding new_worker_pool
new-IsStaffed n = inr (omega arith)

-- The steps at messages that were added before.
abbrev pub IsWork : {w u : WorkerPool} → Step w u → Type 0
IsWork (add msg) = ⊥
IsWork (send msg rest e h) = Unit
IsWork (take msg rest e h) = Unit
IsWork (finish h) = Unit
IsWork cancel = ⊥
IsWork (stop e h) = ⊥

-- So many such steps.
pub data Works (w : WorkerPool) : ℕ → WorkerPool → Type 0 where
  none_yet : Works w 0 w
  then : {k : ℕ} {u v : WorkerPool} → Works w k u → (s : Step u v) → IsWork s → Works w (suc k) v

-- What is left to do: three steps for a message that is not sent yet, two in the channel, and one
-- in the handler.
abbrev pub to_do : WorkerPool → ℕ
to_do w = 3 * length w.adding + 2 * length w.queue + w.running

IsWork-to_do : {w u : WorkerPool} (s : Step w u) → IsWork s → to_do u + 1 ≡ to_do w
IsWork-to_do (add msg) i = absurd i
IsWork-to_do {w} (send msg rest e h) i = ground (arith, length-append w.queue (msg ∷ []))
IsWork-to_do (take msg rest e h) i = ground arith
IsWork-to_do (finish h) i = omega arith
IsWork-to_do cancel i = absurd i
IsWork-to_do (stop e h) i = absurd i

IsWork-done : {w u : WorkerPool} (s : Step w u) → IsWork s → u.done ≡ w.done
IsWork-done (add msg) i = absurd i
IsWork-done (send msg rest e h) i = refl
IsWork-done (take msg rest e h) i = refl
IsWork-done (finish h) i = refl
IsWork-done cancel i = absurd i
IsWork-done (stop e h) i = absurd i

record Worked (n k : ℕ) (w u : WorkerPool) : Type 0 where
  inv : Inv n u
  staffed : IsStaffed u
  same_done : u.done ≡ w.done
  spent : to_do u + k ≡ to_do w

Works-Worked :
    {n : ℕ} {w : WorkerPool} {k : ℕ} {u : WorkerPool}
    → Works w k u
    → Inv n w
    → IsStaffed w
    → Worked n k w u
Works-Worked none_yet v s = record { inv = v; staffed = s; same_done = refl; spent = omega arith }
Works-Worked (then r st i) v s =
    let h = Works-Worked r v s in
    record {
      inv = Step-Inv st h.inv;
      staffed = Step-IsStaffed st h.staffed;
      same_done = IsWork-done st i ∙ h.same_done;
      spent = omega (arith, h.spent, IsWork-to_do st i);
    }

abbrev pub CanWork : WorkerPool → Type 0
CanWork w = (u : WorkerPool) × (s : Step w u) × IsWork s

-- By what the pool holds.
progress :
    (n : ℕ) (w : WorkerPool) (adding queue : List ℕ) (running : ℕ)
    → w.adding ≡ adding
    → w.queue ≡ queue
    → w.running ≡ running
    → 0 < n
    → w.done ≡ false
    → Inv n w
    → IsStaffed w
    → Returns w ⊎ CanWork w
progress n w adding queue (suc r) a q e p d v s = inr (_, finish (omega arith), tt)
progress n w adding (msg ∷ rest) zero a q e p d v (inr s) =
    inr (_, take msg rest q (omega (arith, v.size)), tt)
progress n w adding (msg ∷ rest) zero a q e p d v (inl f) = cc
progress n w (msg ∷ rest) [] zero a q e p d v s =
    inr (_, send msg rest a (ground (arith, v.size)), tt)
progress n w [] [] zero a q e p d v s = inl (ground (arith, v.counted))

-- A pool with a worker, whose context is not done, works off what it was given, in whatever order
-- its goroutines go on: from every state that it can reach, at most three steps are left for each
-- message that waits to be sent, two for each in the channel and one for each in the handler, and
-- as long as Wait does not return one of them can be made.
pub Works-Returns :
    (n k : ℕ) (w u : WorkerPool)
    → 0 < n
    → Reach (new_worker_pool n) w
    → w.done ≡ false
    → Works w k u
    → (k ≤ to_do w) × (Returns u ⊎ CanWork u)
Works-Returns n k w u p r d work =
    let h = Works-Worked work (Reach-Inv r (new-Inv n)) (Reach-IsStaffed r (new-IsStaffed n)) in
    (
      omega (arith, h.spent),
      progress n u u.adding u.queue u.running refl refl refl p (h.same_done ∙ d) h.inv h.staffed,
    )
