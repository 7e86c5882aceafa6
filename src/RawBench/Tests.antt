-- ===== src/RawBench/Tests.antt =====
-- src/bench/raw.c: a small run, and the theorems at it.
use wayring.Base.{joined, ◌≡◌, false, List, [], ◌∷◌, arith}
use wayring.Bench.Options.{Options}
use wayring.Transfer.{Answer, interrupted, bytes, chunks_loop}
use wayring.Transfer.Reads.{Brings, whole, retry, piece}
use wayring.RawBench.{phase_chunks}
use wayring.RawBench.Phases.{zeros, phase_chunks-joined}

abbrev options : Options
options = record { warmup = 1; messages = 2; batch = 1; objects = 1; latency = false }

phase_chunks-joined_example : joined (phase_chunks 5 2) ≡ zeros 60
phase_chunks-joined_example = phase_chunks-joined 5 2 (omega arith)

-- What the two phases bring: a whole message, then two in pieces of 20 and 4 bytes.
abbrev second : List Answer
second = bytes (zeros 20) ∷ bytes (zeros 4) ∷ []

abbrev first : List Answer
first = interrupted ∷ bytes (zeros 12) ∷ second

first_comes : Brings first 12 (joined (phase_chunks 1 1)) second
unfolding phase_chunks chunks_loop
first_comes =
    retry _ 12 _ _ (omega arith) (piece (zeros 12) second 0 [] second (omega arith) (whole second))

second_comes : Brings second 24 (joined (phase_chunks 2 1)) []
unfolding phase_chunks chunks_loop
second_comes =
    piece (zeros 20) (bytes (zeros 4) ∷ []) 4 (zeros 4) [] (omega arith)
      (piece (zeros 4) [] 0 [] [] (omega arith) (whole []))
