-- ===== src/OutputServer/Tests.antt =====
-- src/bench/output-interop-server.c: clients of two versions, and the theorem at one.
use wayring.Base.{◌≡◌, refl, true, some, List, [], ◌∷◌}
use wayring.Bench.History.{run}
use wayring.OutputServer.{Request, binds, releases, leaves, step, init, succeeded}

abbrev client : List Request
client = binds 2 (some 7) ∷ binds 5 (some 8) ∷ releases 7 ∷ leaves ∷ []

client_succeeds : succeeded (run step init client) ≡ true
unfolding succeeded run step
client_succeeds = refl
