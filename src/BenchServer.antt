-- ===== src/BenchServer.antt =====
-- src/bench/libwayland-server.c: the benchmark's server. It counts the pings of each client, answers
-- the last one of a phase (every one in latency mode), and checks that each client sent what it should.
pub mod Connections
pub mod Pongs
pub mod Totals
mod Tests
use wayring.Base.{
  ltb, ◌==◌, if◌then◌else◌, ℕ, ◌+◌, ◌*◌, Bool, true, false, not, ◌&&◌, ◌||◌, Option, none, some,
  List, [], ◌∷◌,
}
use wayring.Bench.{send, post_no_memory, terminate, close_fd, Step, is_null}
use wayring.Bench.Options.{Options, u64}
use wayring.Bench.History
use wayring.Bench.Launch.{Setup, Outcome, launch}

-- `struct connection_state`, under the client that its destroy listener hangs on.
pub record Connection : Type 0 where
  pub client : ℕ
  pub received : ℕ
  pub next_ack : ℕ
  pub final_ack : ℕ

-- `struct server_state`; the connections are those not freed.
pub record BenchServer : Type 0 where
  pub connections : List Connection
  pub expected_clients : ℕ
  pub destroyed_clients : ℕ
  pub received : ℕ
  pub valid : Bool

pub data Event : Type 0 where
  pong : ℕ → ℕ → Event
  pong_fd : ℕ → ℕ → ℕ → Event
  flush : Event

-- `wl_client_get_destroy_listener` and the list that libwayland keeps behind it.
unfoldable pub find : ℕ → List Connection → Option Connection
find c [] = none
find c (k ∷ ks) = if k.client == c then some k else find c ks

unfoldable pub put : Connection → List Connection → List Connection
put k [] = []
put k (j ∷ js) = if j.client == k.client then k ∷ js else j ∷ put k js

unfoldable pub remove : ℕ → List Connection → List Connection
remove c [] = []
remove c (k ∷ ks) = if k.client == c then ks else k ∷ remove c ks

module _ (options : Options) where
  abbrev pub final_ack_of : ℕ
  final_ack_of = u64 (options.warmup + options.messages)

  -- Whether a ping that brings a connection to this count is answered.
  abbrev pub is_answered : Connection → Bool
  is_answered k = options.latency || (k.received == k.next_ack)

  -- What `handle_ping` does to the connection.
  unfoldable pub ping_connection : Connection → Connection
  ping_connection k =
      let k' = record k { received = u64 (k.received + 1) } in
      if is_answered k' && (not options.latency && not (k'.next_ack == k'.final_ack))
      then record k' { next_ack = k'.final_ack }
      else k'

  -- `handle_ping` on a resource of the client `c`.
  unfoldable pub handle_ping : ℕ → ℕ → ℕ → BenchServer → Step BenchServer Event
  handle_ping c resource sequence s = elim (find c s.connections) [
    | none ↦ (s, [])
    | some k ↦
        let k' = record k { received = u64 (k.received + 1) } in
        (
          record s {
            connections = put (ping_connection k) s.connections;
            received = u64 (s.received + 1);
            valid = if ltb k'.final_ack k'.received then false else s.valid;
          },
          if is_answered k' then send (pong resource sequence) ∷ send flush ∷ [] else [],
        )
  ]

  unfoldable pub handle_ping_fd : ℕ → ℕ → ℕ → BenchServer → Step BenchServer Event
  handle_ping_fd resource sequence descriptor s =
      (s, send (pong_fd resource sequence descriptor) ∷ close_fd descriptor ∷ send flush ∷ [])

  unfoldable pub handle_client_destroy : ℕ → BenchServer → Step BenchServer Event
  handle_client_destroy c s = elim (find c s.connections) [
    | none ↦ (s, [])
    | some k ↦ (
      record s {
        connections = remove c s.connections;
        destroyed_clients = s.destroyed_clients + 1;
        valid = if k.received == k.final_ack then s.valid else false;
      },
      if s.destroyed_clients + 1 == s.expected_clients then terminate ∷ [] else [],
    )
  ]

  abbrev fresh : ℕ → Connection
  fresh c = record { client = c; received = 0; next_ack = options.warmup; final_ack = final_ack_of }

  -- `bind_benchmark`; `allocated` tells whether calloc succeeded, where it is called.
  unfoldable pub bind_benchmark : ℕ → Bool → Option ℕ → BenchServer → Step BenchServer Event
  bind_benchmark c allocated created s = elim (find c s.connections) [
    | some k ↦ (s, if is_null created then post_no_memory ∷ [] else [])
    | none ↦
        if not allocated || is_null created
        then (s, post_no_memory ∷ [])
        else (record s { connections = fresh c ∷ s.connections }, [])
  ]

-- What reaches the server of its clients.
pub data Request : Type 0 where
  binds : ℕ → Bool → Option ℕ → Request
  pings : ℕ → ℕ → ℕ → Request
  pings_fd : ℕ → ℕ → ℕ → Request
  leaves : ℕ → Request

unfoldable pub step : Options → Request → BenchServer → Step BenchServer Event
unfolding bind_benchmark handle_ping handle_ping_fd handle_client_destroy
step o (binds c a r) = bind_benchmark o c a r
step o (pings c r q) = handle_ping o c r q
step o (pings_fd r q d) = handle_ping_fd o r q d
step o (leaves c) = handle_client_destroy o c

abbrev pub init : ℕ → BenchServer
init count = record {
  connections = [];
  expected_clients = count;
  destroyed_clients = 0;
  received = 0;
  valid = true;
}

unfoldable pub succeeded : Options → BenchServer → Bool
succeeded o s = s.valid && (s.received == u64 (u64 (o.warmup + o.messages) * s.expected_clients))

-- `benchmark_server_multi` with `count` sockets, of which libwayland makes clients.
unfoldable pub benchmark_server_multi : Options → ℕ → Setup → List Request → Outcome
benchmark_server_multi o count env rs =
    launch env (succeeded o (History.run (step o) (init count) rs))

unfoldable pub benchmark_server : Options → Setup → List Request → Outcome
benchmark_server o = benchmark_server_multi o 1
