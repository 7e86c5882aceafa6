-- ===== src/BenchServer/Tests.antt =====
-- src/bench/libwayland-server.c: whole benchmarks, and the theorems at them.
use wayring.Base.{◌≡◌, refl, true, false, some, List, [], ◌∷◌, map, arith}
use wayring.Bench.Options.{Options}
use wayring.Bench.History.{run, calls}
use wayring.BenchServer.{
  Request, binds, pings, leaves, step, init, succeeded, find, put, remove, ping_connection,
}
use wayring.BenchServer.Pongs.{answers, calls-client}
use wayring.BenchServer.Totals.{succeeded_iff_valid}

abbrev options : Options
options = record { warmup = 1; messages = 2; batch = 1; objects = 1; latency = false }

calls-client_example :
    calls (step options) (init 1) (binds 5 true (some 7) ∷ map (pings 5 7) (40 ∷ 41 ∷ 42 ∷ []))
    ≡ answers options 5 7 0 (40 ∷ 41 ∷ 42 ∷ [])
calls-client_example =
    calls-client options 5 7 (omega arith) (omega arith) (40 ∷ 41 ∷ 42 ∷ []) (omega arith)

-- Two clients whose pings interleave.
abbrev two_clients : List Request
two_clients =
    binds 5 true (some 7)
    ∷ binds 6 true (some 8)
    ∷ pings 5 7 40
    ∷ pings 6 8 50
    ∷ pings 6 8 51
    ∷ pings 5 7 41
    ∷ pings 6 8 52
    ∷ leaves 6
    ∷ pings 5 7 42
    ∷ leaves 5
    ∷ []

succeeded_iff_valid_example : succeeded options (run (step options) (init 2) two_clients) ≡ true
unfolding run step find put remove ping_connection
succeeded_iff_valid_example = succeeded_iff_valid options 2 two_clients refl refl
