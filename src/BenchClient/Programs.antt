-- ===== src/BenchClient/Programs.antt =====
-- src/bench/libwayland-client.c: `flush_blocking`, `transmit_phase`, and `client_transmit_main` with the
-- process that it forks. What the kernel answers to one flush or read after the other is a list.
use wayring.Base.{
  ◌==◌, if◌then◌else◌, replicate, ℕ, zero, suc, ◌+◌, ◌-◌, ◌*◌, min, Bool, true, false, not, ◌||◌,
  Option, none, some, List, [], ◌∷◌, ◌++◌,
}
use wayring.Bench.Options.{Options, u64}
use wayring.Transfer.{
  Answer, Read, pending, broken, finished, read_exact, Taken, Written, blocked, gave_up, sent,
  write_exact, raw_drain,
}

-- What a flush meets: success, an error, or EAGAIN and then a poll, which returns or is interrupted if
-- the flag is set and fails otherwise.
pub data Flush : Type 0 where
  flushed refused : Flush
  full : Bool → Flush

-- Where `flush_blocking` stands once the answers are used up or it returns, with the answers to come.
pub data Flushing : Type 0 where
  polling unflushed : Flushing
  through : List Flush → Flushing

unfoldable pub flush_blocking : List Flush → Flushing
flush_blocking [] = polling
flush_blocking (flushed ∷ flushes) = through flushes
flush_blocking (refused ∷ flushes) = unflushed
flush_blocking (full true ∷ flushes) = flush_blocking flushes
flush_blocking (full false ∷ flushes) = unflushed

-- The connection of the parent: the sequences of the pings that it sent, and what is still to come.
pub record Link : Type 0 where
  pub pings : List ℕ
  pub flushes : List Flush
  pub answers : List Answer

-- The parent waits for the kernel, returns a failure, or goes on.
pub data Stage : Type 0 where
  waiting stopped going : Link → Stage

unfoldable pub next_stage : Stage → (Link → Stage) → Stage
next_stage (waiting l) next = waiting l
next_stage (stopped l) next = stopped l
next_stage (going l) next = next l

abbrev pub after_flush : Link → Flushing → Stage
after_flush l polling = waiting l
after_flush l unflushed = stopped l
after_flush l (through flushes) = going (record l { flushes = flushes })

unfoldable pub flush : Link → Stage
flush l = after_flush l (flush_blocking l.flushes)

-- The loop of `transmit_phase`, on fuel.
unfoldable pub transmit_rounds : ℕ → ℕ → ℕ → ℕ → Link → Stage
transmit_rounds zero remaining batch sequence l = going l
transmit_rounds (suc fuel) remaining batch sequence l =
    let chunk = min remaining batch in
    let rest =
      next_stage (flush (record l { pings = l.pings ++ replicate chunk sequence }))
        (transmit_rounds fuel (remaining - chunk) batch sequence) in
    if remaining == 0 then going l else rest

-- Each round sends a ping at least.
unfoldable pub transmit_phase : ℕ → ℕ → ℕ → Link → Stage
transmit_phase count batch sequence l = transmit_rounds count count batch sequence l

abbrev pub after_ack : ℕ → Link → Read → Stage
after_ack ack l pending = waiting l
after_ack ack l broken = stopped l
after_ack ack l (finished [] answers) = stopped (record l { answers = answers })
after_ack ack l (finished (x ∷ xs) answers) =
    if x == ack
    then going (record l { answers = answers })
    else stopped (record l { answers = answers })

-- `wait_for_raw_drain` on the connection.
unfoldable pub await_ack : ℕ → Link → Stage
await_ack ack l = after_ack ack l (read_exact l.answers 1 [])

-- The phases of `client_transmit_main` behind its set-up.
unfoldable pub transmit_phases : Options → Link → Stage
transmit_phases o l = next_stage (next_stage (flush l) (await_ack 0)) (λ set_up.
    next_stage (next_stage (transmit_phase o.warmup o.batch 1 set_up) (await_ack 1))
      (λ warm. next_stage (transmit_phase o.messages o.batch 2 warm) (await_ack 2)))

-- What the calls of the set-up return, whether waitpid succeeds, and how the child ends, if it does.
pub record Process : Type 0 where
  pub socketpair : Bool
  pub fork : Bool
  pub display : Bool
  pub registry : Bool
  pub benchmark : Bool
  pub waitpid : Bool
  pub child : Option Bool

pub data Release : Type 0 where
  benchmark_destroy registry_destroy display_disconnect : Release

-- The status, if it returns, the pings it sent and what it released.
pub record Outcome : Type 0 where
  pub status : Option Bool
  pub pings : List ℕ
  pub released : List Release

abbrev pub released_all : List Release
released_all = benchmark_destroy ∷ registry_destroy ∷ display_disconnect ∷ []

-- The end of the program: waitpid, and the status of the child.
unfoldable pub wait_child : Process → Option Bool
wait_child p = if p.waitpid then p.child else some false

abbrev pub outcome : Process → Stage → Outcome
outcome p (waiting l) = record { status = none; pings = l.pings; released = [] }
outcome p (stopped l) = record { status = some false; pings = l.pings; released = [] }
outcome p (going l) = record { status = wait_child p; pings = l.pings; released = released_all }

-- Whether the set-up fails before its first flush.
unfoldable pub is_unable : Process → Bool
is_unable p =
    not p.socketpair || (not p.fork || (not p.display || (not p.registry || not p.benchmark)))

-- `client_transmit_main`, on a new connection.
unfoldable pub client_transmit_main : Options → Process → List Flush → List Answer → Outcome
client_transmit_main o p flushes answers =
    let l : Link = record { pings = []; flushes = flushes; answers = answers } in
    if is_unable p then outcome p (stopped l) else outcome p (transmit_phases o l)

abbrev pub after_drain : Read → (List Answer → Option Bool) → Option Bool
after_drain pending next = none
after_drain broken next = some false
after_drain (finished got answers) next = next answers

abbrev pub after_byte : Written → (List Taken → Option Bool) → Option Bool
after_byte blocked next = none
after_byte gave_up next = some false
after_byte (sent out takes) next = next takes

-- One `raw_drain_phase` after the other, of the sizes given, acknowledged with `ack` and on.
unfoldable pub drain_phases : List ℕ → ℕ → List Answer → List Taken → Option Bool
drain_phases [] ack answers takes = some true
drain_phases (size ∷ sizes) ack answers takes =
    after_drain (raw_drain answers size) (λ answers_left.
      after_byte (write_exact takes (ack ∷ []) [])
        (λ takes_left. drain_phases sizes (ack + 1) answers_left takes_left))

abbrev pub setup_bytes : ℕ
setup_bytes = 60

-- The child of `client_transmit_main`.
unfoldable pub transmit_child : Options → List Answer → List Taken → Option Bool
transmit_child o answers takes =
    drain_phases (setup_bytes ∷ u64 (o.warmup * 12) ∷ u64 (o.messages * 12) ∷ []) 0 answers takes
