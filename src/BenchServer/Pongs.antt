-- ===== src/BenchServer/Pongs.antt =====
-- src/bench/libwayland-server.c: what one client sees, ping by ping.
use wayring.Base.{
  ltb, leb, ◌==◌, if◌then◌else◌, length, ℕ, suc, ◌+◌, ◌^◌, ◌<◌, ◌≡◌, refl, ap, ◌∙◌, true, ◌||◌,
  some, List, [], ◌∷◌, ◌++◌, map, arith,
}
use wayring.Bench.{Effect, send}
use wayring.Bench.Options.{Options}
use wayring.Bench.History.{run, run-append, calls}
use wayring.BenchServer.{
  BenchServer, Event, pong, flush, binds, pings, leaves, find, put, remove, ping_connection,
  final_ack_of, step, init, succeeded,
}

module _ (o : Options) (c resource : ℕ) where
  -- The server after `n` pings of its one client.
  abbrev pub next_ack_at : ℕ → ℕ
  next_ack_at n = if o.latency || ltb n o.warmup then o.warmup else final_ack_of o

  abbrev pub pinged : ℕ → BenchServer
  pinged n = record {
    connections =
        record { client = c; received = n; next_ack = next_ack_at n; final_ack = final_ack_of o }
        ∷ [];
    expected_clients = 1;
    destroyed_clients = 0;
    received = n;
    valid = leb n (final_ack_of o);
  }

  -- The answer to the ping number `n`: in latency mode always, otherwise at the end of each phase.
  abbrev pub answer : ℕ → ℕ → List (Effect Event)
  answer n sequence =
      if o.latency || ((n == o.warmup) || (n == final_ack_of o))
      then send (pong resource sequence) ∷ send flush ∷ []
      else []

  unfoldable pub answers : ℕ → List ℕ → List (Effect Event)
  answers n [] = []
  answers n (q ∷ qs) = answer (n + 1) q ++ answers (n + 1) qs

  module _ (positive : 0 < o.warmup) (small : o.warmup + o.messages < 2 ^ 64) where
    ping-pinged :
        (n q : ℕ)
        → n + 1 < 2 ^ 64
        → step o (pings c resource q) (pinged n) ≡ (pinged (n + 1), answer (n + 1) q)
    unfolding step find put ping_connection
    ping-pinged n q h = ground arith

    run-pinged :
        (n : ℕ) (qs : List ℕ)
        → n + length qs < 2 ^ 64
        → run (step o) (pinged n) (map (pings c resource) qs) ≡ pinged (n + length qs)
    unfolding run
    run-pinged n [] h = ap pinged {x = n} {y = n + 0} (omega arith)
    run-pinged n (q ∷ qs) h =
        ap (λ st. run (step o) st.0 (map (pings c resource) qs)) (ping-pinged n q (omega arith))
        ∙ run-pinged (n + 1) qs (omega arith)
        ∙ ap pinged {x = n + 1 + length qs} {y = n + suc (length qs)} (omega arith)

    -- Whatever the number of pings, the calls made are the answers that the count alone decides.
    calls-pinged :
        (n : ℕ) (qs : List ℕ)
        → n + length qs < 2 ^ 64
        → calls (step o) (pinged n) (map (pings c resource) qs) ≡ answers n qs
    unfolding calls answers
    calls-pinged n [] h = refl
    calls-pinged n (q ∷ qs) h =
        ap (λ st. st.1 ++ calls (step o) st.0 (map (pings c resource) qs))
          (ping-pinged n q (omega arith))
        ∙ ap (◌++◌ (answer (n + 1) q)) (calls-pinged (n + 1) qs (omega arith))

    bound : step o (binds c true (some resource)) (init 1) ≡ (pinged 0, [])
    unfolding step find
    bound = ground arith

    -- From the bind on, the server answers exactly the ping that ends the warmup and the ping that ends
    -- the messages; in latency mode it answers each.
    pub calls-client :
        (qs : List ℕ)
        → length qs < 2 ^ 64
        → calls (step o) (init 1) (binds c true (some resource) ∷ map (pings c resource) qs)
          ≡ answers 0 qs
    unfolding calls
    calls-client qs h =
        ap (λ st. st.1 ++ calls (step o) st.0 (map (pings c resource) qs)) bound
        ∙ calls-pinged 0 qs (omega arith)

    gone :
        (n : ℕ) → n < 2 ^ 64 → succeeded o (step o (leaves c) (pinged n)).0 ≡ (n == final_ack_of o)
    unfolding step find remove succeeded
    gone n h = ground arith

    run-client :
        (qs : List ℕ)
        → length qs < 2 ^ 64
        → run (step o) (init 1) (binds c true (some resource) ∷ map (pings c resource) qs)
          ≡ pinged (length qs)
    unfolding run
    run-client qs h =
        ap (λ st. run (step o) st.0 (map (pings c resource) qs)) bound
        ∙ run-pinged 0 qs (omega arith)
        ∙ ap pinged {x = 0 + length qs} {y = length qs} (omega arith)

    last : (n : ℕ) → run (step o) (pinged n) (leaves c ∷ []) ≡ (step o (leaves c) (pinged n)).0
    unfolding run
    last n = refl

    -- The server of one client succeeds exactly when that client sent the pings of both phases and no
    -- more.
    pub succeeded_iff_count :
        (qs : List ℕ)
        → length qs < 2 ^ 64
        → succeeded o (
            run
              (step o)
              (init 1)
              ((binds c true (some resource) ∷ map (pings c resource) qs) ++ (leaves c ∷ [])))
          ≡ (length qs == o.warmup + o.messages)
    succeeded_iff_count qs h =
        ap (succeeded o) (
          run-append (step o) (init 1) (binds c true (some resource) ∷ map (pings c resource) qs)
            (leaves c ∷ [])
          ∙ ap (λ s. run (step o) s (leaves c ∷ [])) (run-client qs h)
          ∙ last (length qs))
        ∙ gone (length qs) h
        ∙ ap (λ n. length qs == n) {x = final_ack_of o} {y = o.warmup + o.messages} (omega arith)
