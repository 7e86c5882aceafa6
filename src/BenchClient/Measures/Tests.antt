-- ===== src/BenchClient/Measures/Tests.antt =====
-- src/bench/libwayland-client.c: a small run of `main`, and the theorems at it.
use wayring.Base.{replicate, ℕ, ◌+◌, ◌-◌, ◌^◌, ◌≡◌, refl, true, false, none, some, List, [], ◌∷◌}
use Prim.Native.String.{String}
use wayring.Bench.Options.{Options}
use wayring.Bench.Texts.{streq}
use wayring.BenchClient.{
  Mode, has_mode, ping, send_chunk, each_connection, send_phase, send_pings, send_rounds, wait_all,
  wait_for_ack, dispatch, handle_pong,
}
use wayring.BenchClient.Run.{Connecting, connect_client, bind_objects, all_bound}
use wayring.BenchClient.Sending.{Waits}
use wayring.BenchClient.Arguments.{
  measures, skip_spaces, digits, strtoull, parse_count, way_of, read_arguments, choose, program_of,
  codes,
}
use wayring.BenchClient.Arguments.Chosen.{IsSafe, program_of-IsSafe}
use wayring.BenchClient.Measures.{Setting, connect_all, measurement, phases, run_measures}
use wayring.BenchClient.Measures.Success.{HasFinished, main_succeeds}

-- Two connections, three messages each in batches of two after a warmup of one.
abbrev arguments : List String
arguments = "3" ∷ "2" ∷ "1" ∷ "2" ∷ []

abbrev options : Options
options = record { warmup = 1; messages = 3; batch = 2; objects = 1; latency = false }

abbrev mode : Mode
mode = record {
  connections = 2;
  client_tx = false;
  client_rx = false;
  idle = false;
  idle_ms = 1000;
}

arguments_measure : program_of arguments ≡ measures options mode
unfolding program_of read_arguments parse_count strtoull skip_spaces digits choose has_mode
arguments_measure = refl

-- Each connection has one object.
abbrev connecting : ℕ → Connecting
connecting object = record {
  display = true;
  roundtrip = true;
  benchmark = some object;
  bound = λ i. none;
  flushed = true;
}

abbrev acknowledged : ℕ → Waits
acknowledged ack =
    replicate 2 (record { ack = ack - 1; received = 0; fd_valid = false }, some (ack ∷ []) ∷ [])

abbrev setting : Setting
setting = record {
  allocated = true;
  sockets = true;
  fork = true;
  connecting = λ i. connecting (7 + i);
  idle_sample = false;
  active_sample = false;
  latency_run = record {
    allocated = false;
    round = λ i sequence. false;
    before = λ i. 0;
    after = λ i. 0;
    sort = λ samples. samples;
  };
  warmup_flushed = λ round. true;
  warmup_waits = acknowledged 1;
  messages_flushed = λ round. true;
  messages_waits = acknowledged 2;
  waitpid = true;
  child = some true;
}

setting_succeeds : (run_measures options mode setting).status ≡ some true
unfolding run_measures connect_all connect_client bind_objects all_bound measurement phases
    send_phase send_pings send_rounds each_connection send_chunk ping wait_all wait_for_ack dispatch
    handle_pong
setting_succeeds = refl

main_succeeds_example : HasFinished options mode setting (run_measures options mode setting)
main_succeeds_example =
    main_succeeds arguments options mode setting arguments_measure setting_succeeds

program_of-IsSafe_example : IsSafe (program_of arguments)
program_of-IsSafe_example = program_of-IsSafe arguments

-- The greatest count.
greatest_count : parse_count (codes "18446744073709551615") ≡ some (2 ^ 64 - 1)
unfolding parse_count strtoull skip_spaces digits
greatest_count = refl

-- Counts that fail, and one that is negative.
no_counts :
    (parse_count (codes "18446744073709551616") ≡ none)
    × ((parse_count (codes "") ≡ none)
        × ((parse_count (codes "12x") ≡ none) × (parse_count (codes " -1") ≡ some (2 ^ 64 - 1))))
unfolding parse_count strtoull skip_spaces digits
no_counts = (refl, (refl, (refl, refl)))

-- In the latency mode the sum of two messages and a warmup of -1 wraps to 1, so that the check which
-- keeps the sequences within 32 bits lets them through.
sum_wraps :
    program_of ("2" ∷ "1" ∷ "-1" ∷ "1" ∷ "latency" ∷ [])
    ≡ measures
        (record { warmup = 2 ^ 64 - 1; messages = 2; batch = 1; objects = 1; latency = true })
        (record {
          connections = 1;
          client_tx = false;
          client_rx = false;
          idle = false;
          idle_ms = 1000;
        })
unfolding program_of read_arguments parse_count strtoull skip_spaces digits way_of streq choose
    has_mode
sum_wraps = refl
