-- ===== src/DmabufServer/Verdict.antt =====
-- src/bench/dmabuf-interop-server.c: what the verdict says of the requests.
use wayring.Base.{ltb, if◌then◌else◌, ◌+◌, ◌≡◌, Bool, true, false, not, List, arith}
use wayring.Bench.{is_null}
use wayring.Bench.History.{run, run_inv}
use wayring.Bench.Tallies.{tally, counter-run}
use wayring.DmabufServer.{
  DmabufServer, Request, destroys_buffer, destroys_params, adds, creates_params, is_plane, step,
  init, succeeded,
}

abbrev pub is_buffer_destroy : Request → Bool
is_buffer_destroy (destroys_buffer _) = true
is_buffer_destroy _ = false

abbrev pub is_params_destroy : Request → Bool
is_params_destroy (destroys_params _) = true
is_params_destroy _ = false

abbrev pub is_params : Request → Bool
is_params (creates_params c) = not (is_null c)
is_params _ = false

-- A plane as `params_add` takes it.
abbrev pub is_good_plane : Request → Bool
is_good_plane (adds fd flags p o st hi lo) = is_plane flags p o st hi lo
is_good_plane _ = false

step_counts :
    (r : Request) (s : DmabufServer)
    → ((step r s).0.params_created_count ≡ (if is_params r then 1 else 0) + s.params_created_count)
      × ((step r s).0.plane_added_count ≡ (if is_good_plane r then 1 else 0) + s.plane_added_count)
      × ((step r s).0.buffer_destroyed_count
          ≡ (if is_buffer_destroy r then 1 else 0) + s.buffer_destroyed_count)
      × ((step r s).0.params_destroyed_count
          ≡ (if is_params_destroy r then 1 else 0) + s.params_destroyed_count)
unfolding step
step_counts (destroys_buffer r) s = ground arith
step_counts _ s = ground arith

-- Each flag is set exactly with its counter, a buffer only with a plane, and the destructions in order.
pub record IsTallied (s : DmabufServer) : Type 0 where
  pub params_counted : s.params_created ≡ ltb 0 s.params_created_count
  pub planes_counted : s.plane_added ≡ ltb 0 s.plane_added_count
  pub buffers_counted : s.buffer_created ≡ ltb 0 s.buffer_created_count
  pub destroyed_counted : s.buffer_destroyed ≡ ltb 0 s.buffer_destroyed_count
  pub buffer_on_plane : s.buffer_created ≡ true → s.plane_added ≡ true
  pub failed_on_plane : s.create_failed ≡ true → s.plane_added ≡ true
  pub params_after_buffer : s.params_destroyed ≡ true → s.buffer_destroyed ≡ true
  pub dmabuf_after_params : s.dmabuf_destroyed ≡ true → s.params_destroyed ≡ true

step-IsTallied : (r : Request) (s : DmabufServer) → IsTallied s → IsTallied (step r s).0
unfolding step
step-IsTallied (destroys_buffer r) s c = ground arith
step-IsTallied _ s c = ground arith

-- After any history each flag of the server agrees with its counter, a buffer was made or failed only on
-- a plane, and the ends of the parameters and of the global are ticked only in order.
pub run-IsTallied : (rs : List Request) → IsTallied (run step init rs)
run-IsTallied rs = run_inv step IsTallied step-IsTallied init rs (ground arith)

-- A client that the server calls successful made three parameter objects, added three planes that it
-- could take, and destroyed two buffers and three parameter objects, no more and no less.
pub success_tallies :
    (rs : List Request)
    → succeeded (run step init rs) ≡ true
    → (tally is_params rs ≡ 3)
      × (tally is_good_plane rs ≡ 3)
      × (tally is_buffer_destroy rs ≡ 2)
      × (tally is_params_destroy rs ≡ 3)
unfolding succeeded
success_tallies rs h = ground (
  arith,
  counter-run step (λ s. s.params_created_count) is_params (λ r s. (step_counts r s).0) rs init,
  counter-run step (λ s. s.plane_added_count) is_good_plane (λ r s. (step_counts r s).1) rs init,
  counter-run step (λ s. s.buffer_destroyed_count) is_buffer_destroy (λ r s. (step_counts r s).2) rs
      init,
  counter-run step (λ s. s.params_destroyed_count) is_params_destroy (λ r s. (step_counts r s).3) rs
      init,
)
