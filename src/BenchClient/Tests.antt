-- ===== src/BenchClient/Tests.antt =====
-- src/bench/libwayland-client.c: small runs, and the theorems at them.
use wayring.Base.{
  ◌==◌, if◌then◌else◌, get_elem?, ℕ, zero, suc, ◌+◌, ◌≤◌, ◌≡◌, refl, Bool, true, none, some, [],
  ◌∷◌, map, arith,
}
use wayring.BenchClient.{
  wait_all, send_phase, Answers, wait_for_ack, dispatch, handle_pong, compare_u64, percentile, rank,
}
use wayring.BenchClient.Sending.{Waits, all_turned, send_phase_robin}
use wayring.Bench.Options.{Options}
use wayring.BenchClient.{has_options}
use wayring.BenchClient.Run.{
  Connecting, World, Latency, connect_client, bind_objects, all_bound, benchmark_client_fd,
  destroy_objects, measure, no_report, run_latency, latency_report, all_rounds, take_samples, total,
}
use wayring.BenchClient.Percentiles.{IsOrdered, percentiles_ordered}

-- The second round cannot be flushed.
abbrev once : ℕ → Bool
once round = round == 0

abbrev fresh : Answers
fresh = record { ack = 0; received = 0; fd_valid = true }

waited : wait_for_ack 2 (map some ((1 ∷ []) ∷ (2 ∷ []) ∷ [])) fresh ≡ some true
unfolding wait_for_ack dispatch handle_pong
waited = refl

abbrev waits : Waits
waits = (fresh, some (1 ∷ []) ∷ []) ∷ (fresh, some (1 ∷ []) ∷ []) ∷ []

send_phase_robin_example :
    ((send_phase 7 2 1 (λ n. true) (all_turned 0 (3 ∷ 1 ∷ [])) waits).0 ≡ all_turned 7 (3 ∷ 1 ∷ []))
    × ((send_phase 7 2 1 (λ n. true) (all_turned 0 (3 ∷ 1 ∷ [])) waits).1 ≡ wait_all 1 2 waits)
send_phase_robin_example =
    send_phase_robin 7 2 1 (λ n. true) (3 ∷ 1 ∷ []) waits (omega arith) (λ n. refl)
      ((omega arith, omega arith), ((omega arith, omega arith), tt))

-- Two sorted samples.
sorted-IsOrdered : IsOrdered (2 ∷ 5 ∷ [])
unfolding compare_u64
sorted-IsOrdered zero zero x y l e f = ground arith
sorted-IsOrdered zero (suc zero) x y l e f = ground arith
sorted-IsOrdered (suc zero) zero x y l e f = absurd (omega (arith, l))
sorted-IsOrdered (suc zero) (suc zero) x y l e f = ground arith
sorted-IsOrdered (suc (suc i)) j x y l e f = absurd (cc)
sorted-IsOrdered zero (suc (suc j)) x y l e f = absurd (cc)
sorted-IsOrdered (suc zero) (suc (suc j)) x y l e f = absurd (cc)

percentiles_ordered_example :
    (x : ℕ) × (y : ℕ) × (m : ℕ) × ((percentile (2 ∷ 5 ∷ []) 2 50 ≡ some x)
      × ((percentile (2 ∷ 5 ∷ []) 2 99 ≡ some y)
          × ((get_elem? (2 ∷ 5 ∷ []) 1 ≡ some m) × ((x ≤ y) × (y ≤ m)))))
percentiles_ordered_example =
    percentiles_ordered (2 ∷ 5 ∷ []) 2 refl (omega arith) (omega arith) sorted-IsOrdered 50 99
      (omega arith) (omega arith)

-- The median is the smaller of the two.
median : percentile (2 ∷ 5 ∷ []) 2 50 ≡ some 2
unfolding percentile rank
median = refl

abbrev three_objects : Options
three_objects = record { warmup = 1; messages = 2; batch = 1; objects = 3; latency = true }

-- Everything succeeds, and the objects are 7, 8 and 9.
abbrev connecting : Connecting
connecting = record {
  display = true;
  roundtrip = true;
  benchmark = some 7;
  bound = λ i. some (7 + i);
  flushed = true;
}

-- The rounds take 5 and 2 nanoseconds.
abbrev latency_run : Latency
latency_run = record {
  allocated = true;
  round = λ i sequence. sequence == i + 1;
  before = λ i. 10;
  after = λ i. if i == 0 then 15 else 12;
  sort = λ samples. 2 ∷ 5 ∷ [];
}

abbrev world : World
world = record {
  connecting = connecting;
  descriptor = some 3;
  flushed = true;
  answered = true;
  latency_run = latency_run;
  warmed = true;
  measured = true;
  start = 0;
  finish = 0;
}

-- The second object is NULL: the call for the third one is made, and the process ends in the next.
given_null :
    benchmark_client_fd (some three_objects) (record world {
      connecting = record connecting { bound = λ i. if i == 1 then none else some 9 };
    })
    ≡ record { status = none; report = no_report; destroyed = some 9 ∷ none ∷ [] }
unfolding benchmark_client_fd destroy_objects connect_client bind_objects has_options all_bound
given_null = refl

given_back_three :
    (benchmark_client_fd (some three_objects) world).destroyed ≡ some 9 ∷ some 8 ∷ some 7 ∷ []
unfolding benchmark_client_fd destroy_objects connect_client bind_objects has_options all_bound
    measure run_latency all_rounds latency_report percentile rank
given_back_three = refl

-- The mean of both rounds is rounded down.
reported : (benchmark_client_fd (some three_objects) world).report.mean_ns ≡ 3
unfolding benchmark_client_fd connect_client bind_objects all_bound has_options measure run_latency
    latency_report all_rounds percentile rank take_samples total
reported = refl

sampled : take_samples latency_run 0 2 ≡ 5 ∷ 2 ∷ []
unfolding take_samples
sampled = refl
