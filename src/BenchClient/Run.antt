-- ===== src/BenchClient/Run.antt =====
-- src/bench/libwayland-client.c: `connect_client`, `run_latency` and `benchmark_client_fd`.
use wayring.Base.{
  if◌then◌else◌, length, get_elem?, ℕ, zero, suc, ◌+◌, ◌-◌, ◌/◌, ◌%◌, ◌^◌, Bool, true, false, not,
  ◌&&◌, ◌||◌, Option, none, some, List, [], ◌∷◌,
}
use wayring.Bench.{is_null}
use wayring.Bench.Options.{Options, Report, u64}
use wayring.BenchClient.{has_options, percentile}

-- What the calls of `connect_client` return. `benchmark` is the object bound in the roundtrip, and
-- `bound i` that of the `i`th call of wl_registry_bind behind it.
pub record Connecting : Type 0 where
  pub display : Bool
  pub roundtrip : Bool
  pub benchmark : Option ℕ
  pub bound : ℕ → Option ℕ
  pub flushed : Bool

-- The objects of a client, `object_count` in number, and the status of `connect_client`. Before that
-- count is set there are none, although the roundtrip may have bound one.
pub record Connected : Type 0 where
  pub objects : List (Option ℕ)
  pub status : Bool

-- `n` objects from the `i`th on.
unfoldable pub bind_objects : (ℕ → Option ℕ) → ℕ → ℕ → List (Option ℕ)
bind_objects bound i zero = []
bind_objects bound i (suc n) = bound i ∷ bind_objects bound (i + 1) n

unfoldable pub all_bound : List (Option ℕ) → Bool
all_bound [] = true
all_bound (b ∷ bs) = if is_null b then false else all_bound bs

unfoldable pub connect_client : Options → Connecting → Connected
connect_client o c =
    let objects = c.benchmark ∷ bind_objects c.bound 1 (o.objects - 1) in
    if not c.display || (not c.roundtrip || is_null c.benchmark)
    then record { objects = []; status = false }
    else record { objects = objects; status = all_bound objects && c.flushed }

unfoldable pub total : List ℕ → ℕ
total [] = 0
total (x ∷ xs) = x + total xs

abbrev pub with_some : {A B : Type 0} → Option A → (A → Option B) → Option B
with_some none next = none
with_some (some a) next = next a

-- The result before `benchmark_client_fd` fills it in.
abbrev pub no_report : Report
no_report = record {
  elapsed_ns = 0;
  report_messages = 0;
  mean_ns = 0;
  p50_ns = 0;
  p95_ns = 0;
  p99_ns = 0;
  max_ns = 0;
}

-- The report of sorted samples and their sum; none for a read behind them. The mean is the quotient of
-- the exact sum, which the code keeps in a long double.
unfoldable pub latency_report : ℕ → ℕ → List ℕ → Option Report
latency_report messages sum samples = with_some (percentile samples messages 50) (λ p50.
    with_some (percentile samples messages 95) (λ p95.
      with_some (percentile samples messages 99) (λ p99.
        with_some (get_elem? samples (messages - 1)) (λ last. some (record no_report {
          mean_ns = u64 (sum / messages);
          p50_ns = p50;
          p95_ns = p95;
          p99_ns = p99;
          max_ns = last;
        })))))

-- What `run_latency` meets: malloc, the status of the `i`th `latency_round` with the sequence that it is
-- given, the clock before and after the `i`th round that is measured, and qsort.
pub record Latency : Type 0 where
  pub allocated : Bool
  pub round : ℕ → ℕ → Bool
  pub before : ℕ → ℕ
  pub after : ℕ → ℕ
  pub sort : List ℕ → List ℕ

-- `n` rounds from the `i`th on, up to the first that fails.
unfoldable pub all_rounds : (ℕ → ℕ → Bool) → ℕ → ℕ → Bool
all_rounds round i zero = true
all_rounds round i (suc n) =
    if round i ((i + 1) % 2 ^ 32) then all_rounds round (i + 1) n else false

-- A difference of two uint64_t.
abbrev pub minus_u64 : ℕ → ℕ → ℕ
minus_u64 a b = u64 (a + (2 ^ 64 - b))

unfoldable pub take_samples : Latency → ℕ → ℕ → List ℕ
take_samples l i zero = []
take_samples l i (suc n) = minus_u64 (l.after i) (l.before i) ∷ take_samples l (i + 1) n

unfoldable pub run_latency : Options → Latency → Option Report
run_latency o l =
    let samples = take_samples l 0 o.messages in
    if not l.allocated
      || (not (all_rounds l.round 0 o.warmup) || not (all_rounds l.round o.warmup o.messages))
    then none
    else latency_report o.messages (total samples) (l.sort samples)

-- What `benchmark_client_fd` meets behind its connection: eventfd, the flush, whether the loop that
-- waits for the answered descriptor ends without an error, the latency run, the two phases and the
-- clock around the second.
pub record World : Type 0 where
  pub connecting : Connecting
  pub descriptor : Option ℕ
  pub flushed : Bool
  pub answered : Bool
  pub latency_run : Latency
  pub warmed : Bool
  pub measured : Bool
  pub start : ℕ
  pub finish : ℕ

-- Its status, EXIT_SUCCESS being true, or `none` if the process ended before it returned; the result, and
-- the arguments of the calls that destroy objects, in order.
pub record Ran : Type 0 where
  pub status : Option Bool
  pub report : Report
  pub destroyed : List (Option ℕ)

-- A call of wp_wayring_benchmark_v1_destroy, which follows its argument: with NULL the process ends.
abbrev pub after_object : Option (Option ℕ) → List (Option ℕ) → List (Option ℕ)
after_object none rest = []
after_object (some none) rest = none ∷ []
after_object (some (some object)) rest = some object ∷ rest

-- `while (state.object_count > 0) destroy(state.benchmarks[--state.object_count])`: the arguments of the
-- calls that are made, NULL at most as the last one.
unfoldable pub destroy_objects : ℕ → List (Option ℕ) → List (Option ℕ)
destroy_objects zero objects = []
destroy_objects (suc n) objects = after_object (get_elem? objects n) (destroy_objects n objects)

-- The part between the connection and the label `cleanup`.
unfoldable pub measure : Options → World → Option Report
measure o w =
    if is_null w.descriptor || (not w.flushed || not w.answered)
    then none
    else if o.latency
    then with_some (run_latency o w.latency_run)
        (λ r. some (record r { report_messages = o.messages }))
    else if not w.warmed || not w.measured
    then none
    else some
        (record no_report { elapsed_ns = minus_u64 w.finish w.start; report_messages = o.messages })

-- The end of `benchmark_client_fd`, with the calls that destroy.
abbrev pub ran : Option Report → List (Option ℕ) → Ran
ran none destroyed = record {
  status = if all_bound destroyed then some false else none;
  report = no_report;
  destroyed = destroyed;
}
ran (some r) destroyed = record {
  status = if all_bound destroyed then some true else none;
  report = r;
  destroyed = destroyed;
}

-- `benchmark_client_fd` with a result to fill in; `none` stands for options that are NULL.
unfoldable pub benchmark_client_fd : Option Options → World → Ran
benchmark_client_fd none w = ran none []
benchmark_client_fd (some o) w =
    let c = connect_client o w.connecting in
    let given_back = destroy_objects (length c.objects) c.objects in
    if not (has_options o)
    then ran none []
    else ran (if c.status then measure o w else none) given_back
