-- ===== src/BenchClient/Arguments/Chosen.antt =====
-- src/bench/libwayland-client.c: what the check of `main` rules out before a program runs.
use wayring.Base.{
  ◌==◌, Bool-cases, ◌≤◌, ◌<◌, ◌≡◌, inl, inr, true, false, ◌||◌, Option, none, some, List, arith,
}
use Prim.Native.String.{String}
use wayring.Bench.Options.{Options}
use wayring.BenchClient.{Mode, has_mode, max_connections}
use wayring.BenchClient.Sending.{HasObjects}
use wayring.BenchClient.Arguments.{
  Program, rejected, transmits, receives, measures, choose, chosen, read_arguments, program_of,
}

-- Counts that a benchmark can be run with.
abbrev pub IsUsable : Options → Type 0
IsUsable o = (0 < o.warmup) × ((0 < o.messages) × ((0 < o.batch) × HasObjects o.objects))

abbrev pub IsLimited : Options → Mode → Type 0
IsLimited o m =
    (0 < m.connections)
    × ((m.connections ≤ max_connections)
        × (1 < o.objects → (m.connections ≡ 1) × ((o.latency ≡ false) × (m.idle ≡ false))))

-- What holds of the options of the program that runs.
unfoldable pub IsSafe : Program → Type 0
IsSafe rejected = Unit
IsSafe (transmits o) = IsUsable o × (o.objects ≡ 1)
IsSafe (receives o) = IsUsable o × (o.objects ≡ 1)
IsSafe (measures o m) = IsUsable o × IsLimited o m

usable : (o : Options) (m : Mode) → has_mode o m ≡ true → IsUsable o
unfolding has_mode
usable o m h = ground arith

limited : (o : Options) (m : Mode) → has_mode o m ≡ true → IsLimited o m
unfolding has_mode
limited o m h = ground arith

single :
    (o : Options) (m : Mode)
    → has_mode o m ≡ true
    → (m.client_tx || m.client_rx) ≡ true
    → o.objects ≡ 1
unfolding has_mode
single o m h e = ground arith

choose-IsSafe : (o : Options) (m : Mode) → IsSafe (choose o m)
unfolding IsSafe choose
choose-IsSafe o m = elim (Bool-cases (has_mode o m)) [
  | inr bad ↦ rw bad tt
  | inl good ↦ elim (Bool-cases m.client_tx) [
    | inl tx ↦ elim (Bool-cases (m.connections == 1)) [
      | inl one ↦ rw (good, tx, one) (usable o m good, single o m good (ground arith))
      | inr many ↦ rw (good, tx, many) tt
    ]
    | inr no_tx ↦ elim (Bool-cases m.client_rx) [
      | inl rx ↦ elim (Bool-cases (m.connections == 1)) [
        | inl one ↦ rw (good, no_tx, rx, one) (usable o m good, single o m good (ground arith))
        | inr many ↦ rw (good, no_tx, rx, many) tt
      ]
      | inr no_rx ↦ rw (good, no_tx, no_rx) (usable o m good, limited o m good)
    ]
  ]
]

chosen-IsSafe : (read : Option (Options × Mode)) → IsSafe (chosen read)
unfolding IsSafe
chosen-IsSafe none = tt
chosen-IsSafe (some (o, m)) = choose-IsSafe o m

-- Whatever its arguments are, main runs a program only with positive counts and between one and 64
-- objects. A program with a raw peer has one object; the benchmark has between one and 64 connections,
-- and more than one object only on one connection, without the modes latency and idle.
pub program_of-IsSafe : (args : List String) → IsSafe (program_of args)
unfolding program_of
program_of-IsSafe args = chosen-IsSafe (read_arguments args)
