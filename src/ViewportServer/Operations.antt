-- ===== src/ViewportServer/Operations.antt =====
-- src/bench/viewport-benchmark.c, the server: whole operations are counted one by one.
use wayring.Base.{ℕ, zero, suc, ◌+◌, ◌%◌, ◌^◌, ◌<◌, ◌≡◌, ap, ◌∙◌, List, [], ◌∷◌, ◌++◌, arith}
use wayring.Bench.{fixed}
use wayring.Bench.History.{run, run-append}
use wayring.ViewportServer.{ViewportServer, Request, commits, sets_source, sets_destination, step}

-- The requests of one operation, and of `n`.
abbrev pub operation : List Request
operation =
    sets_source (fixed 0) (fixed 0) (fixed 1) (fixed 1) ∷ sets_destination 3 4 ∷ commits ∷ []

unfoldable pub operations : ℕ → List Request
operations zero = []
operations (suc n) = operation ++ operations n

-- What `n` operations do to a state between operations.
abbrev pub after_operations : ℕ → ViewportServer → ViewportServer
after_operations n s = record s {
  sources = (s.sources + n) % 2 ^ 64;
  destinations = (s.destinations + n) % 2 ^ 64;
  commits = (s.commits + n) % 2 ^ 64;
}

pub record AreWords (s : ViewportServer) : Type 0 where
  pub sources_word : s.sources < 2 ^ 64
  pub destinations_word : s.destinations < 2 ^ 64
  pub commits_word : s.commits < 2 ^ 64

run-operation : (s : ViewportServer) → s.phase ≡ 0 → run step s operation ≡ after_operations 1 s
unfolding run step
run-operation s p = ground arith

-- From a state between operations, `n` operations leave the flags and the surface alone and raise each
-- count by `n`, modulo 2 ^ 64.
pub run-operations :
    (n : ℕ) (s : ViewportServer)
    → s.phase ≡ 0
    → AreWords s
    → run step s (operations n) ≡ after_operations n s
unfolding operations run
run-operations zero s p w = ground arith
run-operations (suc n) s p w =
    run-append step s operation (operations n)
    ∙ ap (λ t. run step t (operations n)) (run-operation s p)
    ∙ run-operations n (after_operations 1 s) p (record {
      sources_word = omega arith;
      destinations_word = omega arith;
      commits_word = omega arith;
    })
    ∙ ground arith
