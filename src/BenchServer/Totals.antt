-- ===== src/BenchServer/Totals.antt =====
-- src/bench/libwayland-server.c: the counts of the server and of its connections agree, whatever the
-- clients do and in whatever order.
use wayring.Base.{
  Bool-cases, Option-cases, All, ℕ, ◌+◌, ◌*◌, ◌≡◌, refl, ap, ◌∙◌, inl, inr, Bool, true, not, ◌||◌,
  Option, some, List, [], arith,
}
use wayring.Bench.{is_null}
use wayring.Bench.Options.{Options, u64}
use wayring.Bench.History.{run, run_inv}
use wayring.BenchServer.{
  Connection, BenchServer, Request, binds, pings, pings_fd, leaves, find, put, remove,
  ping_connection, final_ack_of, step, init, succeeded, handle_ping, handle_ping_fd, bind_benchmark,
  handle_client_destroy,
}
use wayring.BenchServer.Connections.{
  total, total-put, total-remove, find-client, All-find, All-put, All-remove,
}

module _ (o : Options) where
  abbrev IsDue : Connection → Type 0
  IsDue k = k.final_ack ≡ final_ack_of o

  pub record IsCounted (s : BenchServer) : Type 0 where
    pub due : All IsDue s.connections
    pub sum :
        s.valid ≡ true
        → s.received ≡ u64 (s.destroyed_clients * final_ack_of o + total s.connections)

  -- The sum of one ping, with the connections' old and new totals.
  sum_of_ping :
      (a b t n m : ℕ) → a ≡ u64 (b + t) → n + m ≡ t + u64 (m + 1) → u64 (a + 1) ≡ u64 (b + n)
  sum_of_ping a b t n m h e = omega arith

  ping-IsDue :
      (c : ℕ) (s : BenchServer) (k : Connection)
      → All IsDue s.connections
      → find c s.connections ≡ some k
      → IsDue (ping_connection o k)
  unfolding ping_connection
  ping-IsDue c s k a e = ground (arith, All-find IsDue c s.connections k a e)

  ping-client : (k : Connection) → (ping_connection o k).client ≡ k.client
  unfolding ping_connection
  ping-client k = ground arith

  ping-received : (k : Connection) → (ping_connection o k).received ≡ u64 (k.received + 1)
  unfolding ping_connection
  ping-received k = ground arith

  ping-IsCounted : (c r q : ℕ) (s : BenchServer) → IsCounted s → IsCounted (handle_ping o c r q s).0
  unfolding handle_ping
  ping-IsCounted c r q s i = elim (Option-cases (find c s.connections)) [
    | inl e ↦ rw (e, handle_ping) i
    | inr (k, e) ↦
        rw (e, handle_ping)
          (record {
            due =
                All-put IsDue (ping_connection o k) s.connections (ping-IsDue c s k i.due e) i.due;
            sum = λ v.
                sum_of_ping s.received (s.destroyed_clients * final_ack_of o) (total s.connections)
                  (total (put (ping_connection o k) s.connections)) k.received
                  (i.sum (ground arith))
                  (total-put c s.connections k (ping_connection o k) e
                      (ping-client k ∙ find-client c s.connections k e)
                    ∙ ap (◌+◌ (total s.connections)) (ping-received k));
          })
  ]

  -- The sum when a client that had sent all its pings leaves.
  sum_of_leave :
      (a f d t n m : ℕ) → a ≡ u64 (d * f + t) → n + m ≡ t → m ≡ f → a ≡ u64 ((d + 1) * f + n)
  sum_of_leave a f d t n m h e g = h ∙ ap u64 {x = d * f + t} {y = (d + 1) * f + n} (grind arith)

  leave-IsCounted :
      (c : ℕ) (s : BenchServer) → IsCounted s → IsCounted (handle_client_destroy o c s).0
  unfolding handle_client_destroy
  leave-IsCounted c s i = elim (Option-cases (find c s.connections)) [
    | inl e ↦ rw (e, handle_client_destroy) i
    | inr (k, e) ↦
        rw (e, handle_client_destroy)
          (record {
            due = All-remove IsDue c s.connections i.due;
            sum = λ v.
                sum_of_leave s.received (final_ack_of o) s.destroyed_clients (total s.connections)
                  (total (remove c s.connections)) k.received (i.sum (ground arith))
                  (total-remove c s.connections k e)
                  (ground (arith, All-find IsDue c s.connections k i.due e));
          })
  ]

  bind-IsCounted :
      (c : ℕ) (a : Bool) (r : Option ℕ) (s : BenchServer)
      → IsCounted s
      → IsCounted (bind_benchmark o c a r s).0
  unfolding bind_benchmark total
  bind-IsCounted c a r s i = elim (Option-cases (find c s.connections)) [
    | inr (k, e) ↦ rw (e, bind_benchmark) i
    | inl e ↦
        rw (e, bind_benchmark)
          (elim (Bool-cases (not a || is_null r)) [
            | inl none_made ↦ rw none_made i
            | inr made ↦ rw made (record { due = (refl, i.due); sum = λ v. omega (arith, i.sum v) })
          ])
  ]

  step-IsCounted : (r : Request) (s : BenchServer) → IsCounted s → IsCounted (step o r s).0
  unfolding step handle_ping_fd
  step-IsCounted (binds c a r) s i = bind-IsCounted c a r s i
  step-IsCounted (pings c r q) s i = ping-IsCounted c r q s i
  step-IsCounted (pings_fd r q d) s i = i
  step-IsCounted (leaves c) s i = leave-IsCounted c s i

  init-IsCounted : (n : ℕ) → IsCounted (init n)
  unfolding total
  init-IsCounted n = record { due = tt; sum = λ v. omega arith }

  pub run-IsCounted : (n : ℕ) (rs : List Request) → IsCounted (run (step o) (init n) rs)
  run-IsCounted n rs = run_inv (step o) IsCounted step-IsCounted (init n) rs (init-IsCounted n)

  no_connections : (s : BenchServer) → s.connections ≡ [] → total s.connections ≡ 0
  unfolding total
  no_connections s e = ap total e

  verdict :
      (s : BenchServer)
      → IsCounted s
      → s.connections ≡ []
      → s.destroyed_clients ≡ s.expected_clients
      → succeeded o s ≡ s.valid
  unfolding succeeded
  verdict s i e d = elim (Bool-cases s.valid) [
    | inr no_more ↦ rw no_more refl
    | inl kept ↦ ground (arith, i.sum kept, no_connections s e, d)
  ]

  -- However many clients there are and however their requests interleave, once each expected client has
  -- come and gone the total that `benchmark_server_multi` checks is right whenever `valid` is still set:
  -- only the counts of the single clients decide.
  pub succeeded_iff_valid :
      (n : ℕ) (rs : List Request)
      → (run (step o) (init n) rs).connections ≡ []
      → (run (step o) (init n) rs).destroyed_clients ≡ (run (step o) (init n) rs).expected_clients
      → succeeded o (run (step o) (init n) rs) ≡ (run (step o) (init n) rs).valid
  succeeded_iff_valid n rs = verdict (run (step o) (init n) rs) (run-IsCounted n rs)
