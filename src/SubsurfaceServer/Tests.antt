-- ===== src/SubsurfaceServer/Tests.antt =====
-- src/bench/subsurface-interop-server.c: a whole client, and the theorems at it.
use wayring.Base.{◌≡◌, refl, true, some, List, [], ◌∷◌}
use wayring.Bench.{minus}
use wayring.Bench.History.{run}
use wayring.SubsurfaceServer.{
  Request, destroys_subsurface, positions, places_above, places_below, syncs, desyncs,
  destroys_subcompositor, gets_subsurface, destroys_surface, commits, creates_surface, leaves, step,
  init, succeeded,
}

abbrev client : List Request
client =
    creates_surface (some 3)
    ∷ creates_surface (some 4)
    ∷ gets_subsurface 4 3 (some 5)
    ∷ positions (minus 7) 11
    ∷ places_above 3
    ∷ places_below 3
    ∷ syncs
    ∷ commits
    ∷ desyncs
    ∷ commits
    ∷ commits
    ∷ destroys_subsurface 5
    ∷ destroys_surface 4
    ∷ destroys_surface 3
    ∷ destroys_subcompositor 2
    ∷ leaves
    ∷ []

client_succeeds : succeeded (run step init client) ≡ true
unfolding succeeded run step
client_succeeds = refl
