-- ===== src/BenchClient/Transmit/Tests.antt =====
-- src/bench/libwayland-client.c: a small run of `client_transmit_main`, and the theorems at it.
use wayring.Base.{replicate, ℕ, ◌≡◌, refl, true, false, some, List, [], ◌∷◌, ◌++◌, arith}
use wayring.Bench.Options.{Options}
use wayring.Transfer.{Answer, interrupted, bytes, Taken, taken, read_exact}
use wayring.Transfer.Reads.{Brings, whole, retry, piece}
use wayring.Transfer.Writes.{Takes, all_out}
use wayring.Transfer.Phases.{drained, storage}
use wayring.BenchClient.Programs.{
  Flush, flushed, refused, full, flush_blocking, Process, released_all, is_unable,
  client_transmit_main, flush, transmit_rounds, transmit_phase, transmit_phases, await_ack,
  next_stage, transmit_child,
}
use wayring.BenchClient.Transmit.{Begins, both_phases, client_transmit_main_sends}
use wayring.BenchClient.Transmit.Ready.{IsReady}
use wayring.BenchClient.Transmit.Served.{IsAnswered, IsDrained, wire_of, transmit_both_succeed}

abbrev options : Options
options = record { warmup = 1; messages = 3; batch = 2; objects = 1; latency = false }

-- The socket is full twice before the first flush.
abbrev flushes : List Flush
flushes = full true ∷ full true ∷ replicate 5 flushed

-- One acknowledgement after the other, the second after an interruption.
abbrev acks : List Answer
acks = bytes (0 ∷ []) ∷ interrupted ∷ bytes (1 ∷ []) ∷ bytes (2 ∷ []) ∷ []

abbrev bytes_of : ℕ → List ℕ
bytes_of sequence = 3 ∷ 0 ∷ 0 ∷ 0 ∷ 0 ∷ 0 ∷ 12 ∷ 0 ∷ sequence ∷ 0 ∷ 0 ∷ 0 ∷ []

-- The child is brought each phase in one piece.
abbrev last_piece : List Answer
last_piece = bytes (bytes_of 2 ++ bytes_of 2 ++ bytes_of 2) ∷ []

abbrev two_pieces : List Answer
two_pieces = bytes (bytes_of 1) ∷ last_piece

abbrev pieces : List Answer
pieces = bytes (replicate 60 0) ∷ two_pieces

abbrev takes : List Taken
takes = taken 1 ∷ taken 1 ∷ taken 1 ∷ []

abbrev process : Process
process = record {
  socketpair = true;
  fork = true;
  display = true;
  registry = true;
  benchmark = true;
  waitpid = true;
  child = transmit_child options pieces takes;
}

one_byte : (ack : ℕ) (rest : List Answer) → Brings (bytes (ack ∷ []) ∷ rest) 1 (ack ∷ []) rest
one_byte ack rest = piece (ack ∷ []) rest 0 [] rest (omega arith) (whole rest)

one_taken : (rest : List Taken) → Takes (taken 1 ∷ rest) 1 rest
one_taken rest = Takes.piece 1 rest 0 rest (omega arith) (all_out rest)

answered : IsAnswered options flushes acks
unfolding IsReady
answered = record {
  first = interrupted ∷ bytes (1 ∷ []) ∷ bytes (2 ∷ []) ∷ [];
  second = bytes (2 ∷ []) ∷ [];
  rest = [];
  goes_through = tt;
  set_up_ack = one_byte 0 _;
  warmup_ack = retry _ 1 _ _ (omega arith) (one_byte 1 _);
  messages_ack = one_byte 2 _;
}

child_served : IsDrained options bytes_of pieces takes
unfolding wire_of
child_served = record {
  set_up = replicate 60 0;
  first = two_pieces;
  second = last_piece;
  rest = [];
  first_takes = taken 1 ∷ taken 1 ∷ [];
  second_takes = taken 1 ∷ [];
  rest_takes = [];
  set_up_comes =
      storage pieces 60 (replicate 60 0) two_pieces [] two_pieces (omega arith)
        (piece (replicate 60 0) two_pieces 0 [] two_pieces (omega arith) (whole two_pieces))
        (drained two_pieces);
  warmup_comes =
      storage two_pieces 12 (bytes_of 1) last_piece [] last_piece (omega arith)
        (piece (bytes_of 1) last_piece 0 [] last_piece (omega arith) (whole last_piece))
        (drained last_piece);
  messages_come =
      storage last_piece 36 (bytes_of 2 ++ bytes_of 2 ++ bytes_of 2) [] [] [] (omega arith)
        (piece (bytes_of 2 ++ bytes_of 2 ++ bytes_of 2) [] 0 [] [] (omega arith) (whole []))
        (drained []);
  set_up_taken = one_taken _;
  warmup_taken = one_taken _;
  messages_taken = one_taken _;
}

transmit_both_succeed_example :
    (transmit_child options pieces takes ≡ some true)
    × (client_transmit_main options process flushes acks
        ≡ record { status = some true; pings = 1 ∷ 2 ∷ 2 ∷ 2 ∷ []; released = released_all })
transmit_both_succeed_example =
    transmit_both_succeed options bytes_of process flushes acks pieces takes (omega arith)
      (omega arith) (omega arith) (refl, (refl, (refl, (refl, (refl, (refl, refl)))))) answered
      child_served

-- The flush of the first chunk of messages fails: the run has sent three pings by then.
abbrev broken_flushes : List Flush
broken_flushes = flushed ∷ flushed ∷ refused ∷ []

client_transmit_main_sends_example :
    Begins (client_transmit_main options process broken_flushes acks).pings (1 ∷ 2 ∷ 2 ∷ 2 ∷ [])
    × ((client_transmit_main options process broken_flushes acks).status ≡ some true
        → ((client_transmit_main options process broken_flushes acks).pings ≡ both_phases options)
          × ((client_transmit_main options process broken_flushes acks).released ≡ released_all)
          × (transmit_child options pieces takes ≡ some true))
client_transmit_main_sends_example =
    client_transmit_main_sends options process broken_flushes acks (omega arith)

broken_run :
    client_transmit_main options process broken_flushes acks
    ≡ record { status = some false; pings = 1 ∷ 2 ∷ 2 ∷ []; released = [] }
unfolding client_transmit_main is_unable transmit_phases next_stage flush flush_blocking
    transmit_phase transmit_rounds await_ack read_exact
broken_run = refl
