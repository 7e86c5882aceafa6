-- ===== src/Bench/Options.antt =====
-- src/bench/benchmark.h: what the benchmark programs are asked to do, and what they report.
use wayring.Base.{ℕ, ◌%◌, ◌^◌, Bool}

-- `struct benchmark_options`
pub record Options : Type 0 where
  pub warmup : ℕ
  pub messages : ℕ
  pub batch : ℕ
  pub objects : ℕ
  pub latency : Bool

-- `struct benchmark_result`
pub record Report : Type 0 where
  pub elapsed_ns : ℕ
  pub report_messages : ℕ
  pub mean_ns : ℕ
  pub p50_ns : ℕ
  pub p95_ns : ℕ
  pub p99_ns : ℕ
  pub max_ns : ℕ

-- Arithmetic on a uint64_t.
abbrev pub u64 : ℕ → ℕ
u64 n = n % 2 ^ 64
