-- ===== src/ShmServer/Causes.antt =====
-- src/bench/shm-interop-server.c: what the ticks of the server say of the order of the requests.
use wayring.Base.{◌≡◌, refl, true, false, List, ◌∷◌, ◌++◌, arith}
use wayring.Bench.{refused}
use wayring.ShmServer.{ShmServer, is_complete}
use wayring.ShmServer.Run.{Request, buffer_destroyed, commit, step, init, succeeded}
use wayring.Bench.History.{run, run_inv, ticked_by}

-- A commit is ticked only when the surface was complete, and the pool's end only after the buffer's.
pub record IsCaused (s : ShmServer) : Type 0 where
  pub commit_complete : s.committed ≡ true → is_complete s ≡ true
  pub pool_last : s.pool_destroyed ≡ true → s.buffer_destroyed ≡ true

pub step-IsCaused : (r : Request) (s : ShmServer) → IsCaused s → IsCaused (step r s).0
unfolding step
step-IsCaused (buffer_destroyed r) s c = ground arith
step-IsCaused _ s c = ground arith

-- A request that the server refuses leaves its state as it was.
pub refused_unchanged :
    (r : Request) (s : ShmServer) → refused (step r s).1 ≡ true → (step r s).0 ≡ s
unfolding step
refused_unchanged (buffer_destroyed r) s c = ground arith
refused_unchanged _ s c = ground arith

init-IsCaused : IsCaused init
unfolding init
init-IsCaused = record { commit_complete = λ e. cc; pool_last = λ e. cc }

commits_by_commit :
    (r : Request) (s : ShmServer)
    → s.committed ≡ false
    → (step r s).0.committed ≡ true
    → (r ≡ commit) × (is_complete s ≡ true)
unfolding step
commits_by_commit commit s f t = ground arith
commits_by_commit _ s f t = ground arith

-- A client that the server calls successful sent, at some point of its requests, a commit that found
-- the surface attached, damaged twice over, and its viewport set.
pub success_needs_commit :
    (rs : List Request)
    → succeeded (run step init rs) ≡ true
    → (before : List Request) × (after : List Request) × (rs ≡ before ++ (commit ∷ after))
      × (is_complete (run step init before) ≡ true)
unfolding succeeded init
success_needs_commit rs h =
    let (before, r, after, e, f, t) =
      ticked_by step (λ s. s.committed) rs init refl (ground arith) in
    let (c, whole) = commits_by_commit r (run step init before) f t in
    (before, after, rw (← c) e, whole)

-- At the end of any history the pool was ticked only after a buffer, and a commit only on a complete
-- surface.
pub run-init-IsCaused : (rs : List Request) → IsCaused (run step init rs)
run-init-IsCaused rs = run_inv step IsCaused step-IsCaused init rs init-IsCaused
