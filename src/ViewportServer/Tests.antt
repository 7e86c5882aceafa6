-- ===== src/ViewportServer/Tests.antt =====
-- src/bench/viewport-benchmark.c, the server: whole clients, and the theorems at them.
use wayring.Base.{◌-◌, ◌^◌, ◌≡◌, refl, true, false, some, List, [], ◌∷◌, ◌++◌}
use wayring.Bench.{fixed}
use wayring.Bench.History.{run}
use wayring.ViewportServer.{
  ViewportServer, Request, creates_surface, gets_viewport, sets_source, leaves, step, init,
  succeeded,
}
use wayring.ViewportServer.Pace.{IsPaced, run-IsPaced}
use wayring.ViewportServer.Operations.{operation}

-- A client that stops in the middle of its second operation.
abbrev client : List Request
client =
    creates_surface (some 3)
    ∷ gets_viewport (some 3) (some 4)
    ∷ (operation ++ (sets_source (fixed 0) (fixed 0) (fixed 1) (fixed 1) ∷ []))

run-IsPaced_example : IsPaced (run step init client)
run-IsPaced_example = run-IsPaced client

-- It is not called successful.
stops_early : succeeded (run step init (client ++ (leaves ∷ []))) ≡ false
unfolding succeeded run step
stops_early = refl

-- A server one operation before its counts wrap around.
abbrev nearly_wrapped : ViewportServer
nearly_wrapped = record {
  surface = some 3;
  phase = 0;
  sources = 2 ^ 64 - 1;
  destinations = 2 ^ 64 - 1;
  commits = 2 ^ 64 - 1;
  valid = true;
  viewport_created = true;
}
