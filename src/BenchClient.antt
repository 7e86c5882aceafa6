-- ===== src/BenchClient.antt =====
-- src/bench/libwayland-client.c: the benchmark's client. It sends its pings in batches over the objects
-- of each connection, waits for the answers that end a phase, and sums up what it measured.
pub mod Run
pub mod Cleanup
pub mod Sending
pub mod Waiting
pub mod Percentiles
pub mod Programs
pub mod Transmit
pub mod Receive
pub mod Rounds
pub mod Arguments
pub mod Measures
mod Tests
use wayring.Base.{
  ltb, leb, ◌==◌, if◌then◌else◌, length, get_elem?, ℕ, zero, suc, ◌+◌, ◌-◌, ◌*◌, ◌/◌, ◌%◌, ◌^◌, min,
  Bool, true, false, not, ◌&&◌, ◌||◌, Option, none, some, List, [], ◌∷◌, ◌++◌,
}
use wayring.Bench.Options.{Options, u64}

abbrev pub max_connections : ℕ
max_connections = 64

abbrev pub max_objects : ℕ
max_objects = 64

-- `struct client_state`: what sending reads and writes of it, and the objects that were pinged.
pub record Sender : Type 0 where
  pub object_count : ℕ
  pub object_cursor : ℕ
  pub pinged : List ℕ

-- One ping of `send_phase`, and a chunk of them.
unfoldable pub ping : Sender → Sender
ping s =
    let cursor = (s.object_cursor + 1) % 2 ^ 32 in
    record s {
      object_cursor = if cursor == s.object_count then 0 else cursor;
      pinged = s.pinged ++ (s.object_cursor ∷ []);
    }

unfoldable pub send_chunk : ℕ → Sender → Sender
send_chunk zero s = s
send_chunk (suc n) s = send_chunk n (ping s)

unfoldable pub each_connection : (Sender → Sender) → List Sender → List Sender
each_connection f [] = []
each_connection f (s ∷ ss) = f s ∷ each_connection f ss

-- The loop of `send_phase`, on fuel. `flushed n` tells whether all connections could be flushed in the
-- round `n`; the answer is the connections and whether no round failed.
unfoldable pub send_rounds : ℕ → ℕ → ℕ → (ℕ → Bool) → ℕ → List Sender → List Sender × Bool
send_rounds zero remaining batch flushed round ss = (ss, true)
send_rounds (suc fuel) remaining batch flushed round ss =
    let chunk = min remaining batch in
    let sent = each_connection (send_chunk chunk) ss in
    let rest = send_rounds fuel (remaining - chunk) batch flushed (round + 1) sent in
    if remaining == 0 then (ss, true) else if flushed round then rest else (sent, false)

-- The connections after that loop. Each round sends a ping at least.
unfoldable pub send_pings : ℕ → ℕ → (ℕ → Bool) → List Sender → List Sender × Bool
send_pings count batch flushed ss = send_rounds count count batch flushed 0 ss

-- What a client notes of the answers.
pub record Answers : Type 0 where
  pub ack : ℕ
  pub received : ℕ
  pub fd_valid : Bool

unfoldable pub handle_pong : ℕ → Answers → Answers
handle_pong sequence a = record a { ack = sequence; received = u64 (a.received + 1) }

-- `flags` is what fcntl returned for the descriptor.
unfoldable pub handle_pong_fd : ℕ → Option ℕ → Answers → Answers
handle_pong_fd sequence none a = record a { fd_valid = false }
handle_pong_fd sequence (some flags) a = record a { fd_valid = (sequence == 0) && (flags % 2 == 1) }

-- The pongs that one wl_display_dispatch hands on.
unfoldable pub dispatch : List ℕ → Answers → Answers
dispatch [] a = a
dispatch (sequence ∷ pongs) a = dispatch pongs (handle_pong sequence a)

-- The loop of `wait_for_ack`, over what the dispatches bring (`none` where one fails). Its status, if
-- it returns.
unfoldable pub wait_for_ack : ℕ → List (Option (List ℕ)) → Answers → Option Bool
wait_for_ack ack [] a = if a.ack == ack then some true else none
wait_for_ack ack (none ∷ ds) a = if a.ack == ack then some true else some false
wait_for_ack ack (some pongs ∷ ds) a =
    let rest = wait_for_ack ack ds (dispatch pongs a) in if a.ack == ack then some true else rest

-- A second wait, only after success of the first.
abbrev pub and_wait : Option Bool → Option Bool → Option Bool
and_wait none next = none
and_wait (some false) next = some false
and_wait (some true) next = next

-- The waits of `n` connections at the end of a phase, with what each dispatches; one that is not in the
-- list goes on waiting.
unfoldable pub wait_all : ℕ → ℕ → List (Answers × List (Option (List ℕ))) → Option Bool
wait_all ack zero waits = some true
wait_all ack (suc n) [] = none
wait_all ack (suc n) ((a, ds) ∷ waits) = and_wait (wait_for_ack ack ds a) (wait_all ack n waits)

-- `send_phase`: the connections, and the status if it returns.
unfoldable pub send_phase :
    ℕ
    → ℕ
    → ℕ
    → (ℕ → Bool)
    → List Sender
    → List (Answers × List (Option (List ℕ)))
    → List Sender × Option Bool
send_phase count batch ack flushed ss waits =
    let (after, good) = send_pings count batch flushed ss in
    (after, if good then wait_all ack (length ss) waits else some false)

-- The loop of `receive_phase` up to its target.
unfoldable pub receive_loop : ℕ → ℕ → List (Option (List ℕ)) → Answers → Option Bool
receive_loop target sequence [] a =
    if ltb a.received target then none else some ((a.received == target) && (a.ack == sequence))
receive_loop target sequence (none ∷ ds) a =
    if ltb a.received target
    then some false
    else some ((a.received == target) && (a.ack == sequence))
receive_loop target sequence (some pongs ∷ ds) a =
    let rest = receive_loop target sequence ds (dispatch pongs a) in
    if ltb a.received target then rest else some ((a.received == target) && (a.ack == sequence))

unfoldable pub receive_phase : ℕ → ℕ → List (Option (List ℕ)) → Answers → Option Bool
receive_phase count sequence ds a = receive_loop (u64 (a.received + count)) sequence ds a

-- `compare_u64`, as whether the left is less, equal or greater: the sign of its answer.
pub data Sign : Type 0 where
  negative neutral positive : Sign

unfoldable pub compare_u64 : ℕ → ℕ → Sign
compare_u64 a b = if ltb b a then positive else if ltb a b then negative else neutral

unfoldable pub rank : ℕ → ℕ → ℕ
rank count percent = u64 (u64 (count * percent) + 99) / 100

abbrev pub rank_index : ℕ → ℕ → ℕ
rank_index count percent = if rank count percent == 0 then 0 else rank count percent - 1

-- `percentile`; none for a read behind the samples.
unfoldable pub percentile : List ℕ → ℕ → ℕ → Option ℕ
percentile samples count percent = get_elem? samples (rank_index count percent)

-- What `benchmark_client_fd` requires of its options.
unfoldable pub has_options : Options → Bool
has_options o =
    not (o.warmup == 0)
    && (not (o.messages == 0)
        && (not (o.batch == 0) && (not (o.objects == 0) && leb o.objects max_objects)))

-- How `main` is asked to run.
pub record Mode : Type 0 where
  pub connections : ℕ
  pub client_tx : Bool
  pub client_rx : Bool
  pub idle : Bool
  pub idle_ms : ℕ

-- The negation of the check at which `main` stops.
unfoldable pub has_mode : Options → Mode → Bool
has_mode o m = not (
    (o.messages == 0)
    || ((o.batch == 0)
        || ((o.warmup == 0)
            || ((o.objects == 0)
                || (ltb max_objects o.objects
                    || ((m.connections == 0)
                        || (ltb max_connections m.connections
                            || ((ltb 1 o.objects
                                  && (not (m.connections == 1)
                                      || (o.latency || (m.client_tx || (m.client_rx || m.idle)))))
                                || ((m.idle && (m.idle_ms == 0))
                                    || (o.latency
                                        && ltb (2 ^ 32 - 1) (u64 (o.messages + o.warmup))))))))))))
