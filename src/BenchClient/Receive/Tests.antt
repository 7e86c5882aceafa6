-- ===== src/BenchClient/Receive/Tests.antt =====
-- src/bench/libwayland-client.c: a small run of `client_receive_main`, and the theorems at it.
use wayring.Base.{replicate, full, ℕ, true, false, some, List, [], ◌∷◌}
use wayring.Bench.Options.{Options}
use wayring.Transfer.{interrupted, bytes, again, taken}
use wayring.BenchClient.Programs.{flushed, full, Process}
use wayring.BenchClient.Receive.{Peer, receive_child, Reception}

abbrev options : Options
options = record { warmup = 1; messages = 3; batch = 2; objects = 1; latency = false }

-- Four bytes for each word.
abbrev bytes_of : ℕ → List ℕ
bytes_of word = word ∷ 0 ∷ 0 ∷ 0 ∷ []

-- The second chunk of the messages is taken in two pieces.
abbrev peer : Peer
peer = record {
  set_up = bytes (replicate 60 0) ∷ [];
  set_up_takes = taken 1 ∷ [];
  warmup_allocated = true;
  warmup_takes = taken 12 ∷ [];
  warmup_ack = bytes (1 ∷ []) ∷ [];
  messages_allocated = true;
  messages_takes = taken 24 ∷ again ∷ taken 5 ∷ taken 7 ∷ [];
  messages_ack = interrupted ∷ bytes (2 ∷ []) ∷ [];
}

abbrev process : Process
process = record {
  socketpair = true;
  fork = true;
  display = true;
  registry = true;
  benchmark = true;
  waitpid = true;
  child = (receive_child bytes_of options peer).child;
}

-- The pongs of the messages come in two dispatches.
abbrev reception : Reception
reception = record {
  listener = true;
  flushes = full true ∷ flushed ∷ [];
  set_up_ack = bytes (0 ∷ []) ∷ [];
  warmup_pongs = some (1 ∷ []) ∷ [];
  warmup_takes = taken 1 ∷ [];
  messages_pongs = some (2 ∷ 2 ∷ []) ∷ some (2 ∷ []) ∷ [];
  messages_takes = taken 1 ∷ [];
}
