-- ===== src/BenchClient/Rounds.antt =====
-- src/bench/libwayland-client.c: `latency_round`, a ping on each connection and the wait for its answer.
use wayring.Base.{
  All, length, take, replicate, joined, ℕ, ◌≤◌, ◌≡◌, refl, sym, ap, ◌∙◌, Bool, true, false, Option,
  none, some, List, [], ◌∷◌, map,
}
use wayring.BenchClient.{Answers, and_wait, wait_for_ack, wait_all}
use wayring.BenchClient.Waiting.{last_or, wait_for_ack_only}
use wayring.BenchClient.Programs.{Flush, flush_blocking}
use wayring.BenchClient.Receive.{has_flushed}

-- The flushes of the connections, one after the other.
unfoldable pub flush_all : List (List Flush) → Option Bool
flush_all [] = some true
flush_all (flushes ∷ others) = and_wait (has_flushed (flush_blocking flushes)) (flush_all others)

-- The sequences of the pings, one for each connection, and the status, if it returns.
unfoldable pub latency_round :
    ℕ → List (List Flush) → List (Answers × List (Option (List ℕ))) → List ℕ × Option Bool
latency_round sequence flushes waits = (
  replicate (length flushes) sequence,
  and_wait (flush_all flushes) (wait_all sequence (length flushes) waits),
)

-- A connection whose dispatches bring pongs in batches.
abbrev pub Connection : Type 0
Connection = Answers × List (List ℕ)

abbrev pub waits_of : List Connection → List (Answers × List (Option (List ℕ)))
waits_of connections = map (λ (a, batches). (a, map some batches)) connections

-- After some of its dispatches the last pong of the connection has the sequence.
abbrev pub IsAcked : ℕ → Connection → Type 0
IsAcked sequence (a, batches) =
    (n : ℕ) × (n ≤ length batches) × (last_or a.ack (joined (take n batches)) ≡ sequence)

both_waited :
    (first second : Option Bool)
    → and_wait first second ≡ some true
    → (first ≡ some true) × (second ≡ some true)
both_waited none second e = absurd (cc)
both_waited (some false) second e = absurd (cc)
both_waited (some true) second e = (refl, e)

all-IsAcked :
    (sequence : ℕ) (connections : List Connection)
    → wait_all sequence (length connections) (waits_of connections) ≡ some true
    → All (IsAcked sequence) connections
unfolding wait_all
all-IsAcked sequence [] e = tt
all-IsAcked sequence ((a, batches) ∷ others) e =
    let (now, later) = both_waited (wait_for_ack sequence (map some batches) a) _ e in
    (wait_for_ack_only sequence batches a now, all-IsAcked sequence others later)

-- A latency round that succeeds has flushed all connections, and each of them has had the answer to its
-- ping as the last one after some of its dispatches.
pub latency_round-IsAcked :
    (sequence : ℕ) (flushes : List (List Flush)) (connections : List Connection)
    → length flushes ≡ length connections
    → (latency_round sequence flushes (waits_of connections)).1 ≡ some true
    → (flush_all flushes ≡ some true) × All (IsAcked sequence) connections
unfolding latency_round
latency_round-IsAcked sequence flushes connections same e =
    let (flushed, acked) = both_waited (flush_all flushes) _ e in
    (
      flushed,
      all-IsAcked sequence connections
          (ap (λ n. wait_all sequence n (waits_of connections)) (sym same) ∙ acked),
    )
