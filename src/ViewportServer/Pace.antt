-- ===== src/ViewportServer/Pace.antt =====
-- src/bench/viewport-benchmark.c, the server: the phase says how far each count is ahead of the commits.
use wayring.Base.{
  ◌==◌, if◌then◌else◌, ℕ, ◌+◌, ◌%◌, ◌^◌, ◌≤◌, ◌<◌, ◌≡◌, true, ◌&&◌, List, [], ◌∷◌, ◌++◌, arith,
}
use wayring.Bench.History.{run, run_inv, run-append}
use wayring.ViewportServer.{
  ViewportServer, Request, destroys_surface, leaves, step, init, succeeded,
}

-- Whether a source, and whether a destination, was set since the last commit.
abbrev pub started : ℕ → ℕ
started phase = if phase == 0 then 0 else 1

abbrev pub sized : ℕ → ℕ
sized phase = if phase == 2 then 1 else 0

pub record IsPaced (s : ViewportServer) : Type 0 where
  pub phase_small : s.phase ≤ 2
  pub counts_small : s.commits < 2 ^ 64
  pub sources_paced : s.valid ≡ true → s.sources ≡ (s.commits + started s.phase) % 2 ^ 64
  pub destinations_paced : s.valid ≡ true → s.destinations ≡ (s.commits + sized s.phase) % 2 ^ 64

step-IsPaced : (r : Request) (s : ViewportServer) → IsPaced s → IsPaced (step r s).0
unfolding step
step-IsPaced (destroys_surface r) s p = ground arith
step-IsPaced _ s p = ground arith

-- After any history the counts keep pace, as long as the server has seen no misplaced request.
pub run-IsPaced : (rs : List Request) → IsPaced (run step init rs)
run-IsPaced rs = run_inv step IsPaced step-IsPaced init rs (ground arith)

leaves_phase :
    (s : ViewportServer)
    → s.phase ≤ 2
    → (step leaves s).0.valid ≡ true
    → (step leaves s).0.phase ≡ 0
unfolding step
leaves_phase s h v = ground arith

verdict_of_paced :
    (s : ViewportServer)
    → IsPaced s
    → (s.valid ≡ true → s.phase ≡ 0)
    → succeeded s ≡ s.valid && s.viewport_created
unfolding succeeded
verdict_of_paced s p z = ground arith

run-leaves :
    (rs : List Request) → run step init (rs ++ (leaves ∷ [])) ≡ (step leaves (run step init rs)).0
unfolding run
run-leaves rs = run-append step init rs (leaves ∷ [])

-- Once the client has gone, the comparisons of the counts in the verdict cannot fail: it comes down to
-- the two flags.
pub succeeded_iff_flags :
    (rs : List Request)
    → let s = run step init (rs ++ (leaves ∷ [])) in succeeded s ≡ s.valid && s.viewport_created
succeeded_iff_flags rs =
    verdict_of_paced (run step init (rs ++ (leaves ∷ []))) (run-IsPaced (rs ++ (leaves ∷ [])))
      (rw (run-leaves rs) (leaves_phase (run step init rs) (run-IsPaced rs).phase_small))
