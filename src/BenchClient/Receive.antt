-- ===== src/BenchClient/Receive.antt =====
-- src/bench/libwayland-client.c: `client_receive_main` and the process that it forks, which writes the
-- pongs of both phases on the bare socket.
pub mod ChildWrites
pub mod ChildServed
pub mod Served
mod Tests
use wayring.Base.{
  ◌==◌, if◌then◌else◌, ℕ, zero, suc, ◌+◌, ◌-◌, min, Bool, true, false, not, ◌||◌, Option, none,
  some, List, [], ◌∷◌, ◌++◌,
}
use wayring.Bench.Options.{Options, u64}
use wayring.Transfer.{
  Answer, Taken, Written, blocked, gave_up, sent, write_exact, raw_drain_phase, storage_words,
  wait_for_raw_drain,
}
use wayring.BenchClient.{Answers, and_wait, receive_phase}
use wayring.BenchClient.Programs.{
  Flush, Flushing, polling, unflushed, through, flush_blocking, Process, Release, is_unable,
  wait_child, released_all, setup_bytes,
}

-- `bytes_of` gives the four bytes of a word in the order of the machine.
module _ (bytes_of : ℕ → List ℕ) where
  unfoldable pub word_bytes : List ℕ → List ℕ
  word_bytes [] = []
  word_bytes (w ∷ ws) = bytes_of w ++ word_bytes ws

  abbrev pub and_write : Written → (List Taken → List ℕ → Written) → Written
  and_write blocked next = blocked
  and_write gave_up next = gave_up
  and_write (sent out takes) next = next takes out

  -- The loop of `raw_write_phase`, on fuel, after the bytes `out`.
  unfoldable pub write_rounds : ℕ → ℕ → ℕ → ℕ → List Taken → List ℕ → Written
  write_rounds zero remaining batch sequence takes out = sent out takes
  write_rounds (suc fuel) remaining batch sequence takes out =
      let chunk = min remaining batch in
      let rest =
        and_write (write_exact takes (word_bytes (storage_words chunk sequence)) out)
          (write_rounds fuel (remaining - chunk) batch sequence) in
      if remaining == 0 then sent out takes else rest

  -- `raw_write_phase`; the flag is the answer of malloc. Each round writes a message at least.
  unfoldable pub raw_write_phase : Bool → ℕ → ℕ → ℕ → List Taken → List ℕ → Written
  raw_write_phase allocated count batch sequence takes out =
      let written = write_rounds count count batch sequence takes out in
      if allocated then written else gave_up

-- What the child meets: the bytes of the set-up and how its acknowledgement is taken, and for each phase
-- malloc, how its writes are taken, and the acknowledgement.
pub record Peer : Type 0 where
  pub set_up : List Answer
  pub set_up_takes : List Taken
  pub warmup_allocated : Bool
  pub warmup_takes : List Taken
  pub warmup_ack : List Answer
  pub messages_allocated : Bool
  pub messages_takes : List Taken
  pub messages_ack : List Answer

-- How the child ends, if it does, and what it wrote in its phases.
pub record Wrote : Type 0 where
  pub child : Option Bool
  pub written : List ℕ

-- Going on where a step succeeds; what was written so far is kept.
abbrev pub and_wrote : Option Bool → List ℕ → Wrote → Wrote
and_wrote none out next = record { child = none; written = out }
and_wrote (some false) out next = record { child = some false; written = out }
and_wrote (some true) out next = next

abbrev pub after_phase : Written → (List ℕ → Wrote) → Wrote
after_phase blocked next = record { child = none; written = [] }
after_phase gave_up next = record { child = some false; written = [] }
after_phase (sent out takes) next = next out

-- The child of `client_receive_main`; of a phase that is not done it does not tell what it wrote.
unfoldable pub receive_child : (ℕ → List ℕ) → Options → Peer → Wrote
receive_child bytes_of o p = and_wrote (raw_drain_phase p.set_up setup_bytes 0 p.set_up_takes) [] (
    after_phase (raw_write_phase bytes_of p.warmup_allocated o.warmup o.batch 1 p.warmup_takes [])
      (λ first. and_wrote (wait_for_raw_drain p.warmup_ack 1) first (
        after_phase
          (raw_write_phase bytes_of p.messages_allocated o.messages o.batch 2 p.messages_takes
            first)
          (λ all.
            and_wrote (wait_for_raw_drain p.messages_ack 2) all
              (record { child = some true; written = all })))))

-- What the parent meets behind its set-up: whether the listener is added, its flush, the acknowledgement
-- of the set-up, and for each phase what its dispatches bring and how its acknowledgement is taken.
pub record Reception : Type 0 where
  pub listener : Bool
  pub flushes : List Flush
  pub set_up_ack : List Answer
  pub warmup_pongs : List (Option (List ℕ))
  pub warmup_takes : List Taken
  pub messages_pongs : List (Option (List ℕ))
  pub messages_takes : List Taken

abbrev pub has_flushed : Flushing → Option Bool
has_flushed polling = none
has_flushed unflushed = some false
has_flushed (through flushes) = some true

abbrev pub has_written : Written → Option Bool
has_written blocked = none
has_written gave_up = some false
has_written (sent out takes) = some true

abbrev pub no_answers : Answers
no_answers = record { ack = 0; received = 0; fd_valid = false }

-- The state after a phase that succeeded, whose last test fixes both fields.
abbrev pub after_pongs : ℕ → ℕ → Answers → Answers
after_pongs count sequence a = record a { ack = sequence; received = u64 (a.received + count) }

-- The status of the part behind the set-up.
unfoldable pub receive_phases : Options → Reception → Option Bool
receive_phases o r = and_wait (has_flushed (flush_blocking r.flushes)) (
    and_wait (wait_for_raw_drain r.set_up_ack 0) (
      and_wait (receive_phase o.warmup 1 r.warmup_pongs no_answers) (
        and_wait (has_written (write_exact r.warmup_takes (1 ∷ []) [])) (
          and_wait (receive_phase o.messages 2 r.messages_pongs (after_pongs o.warmup 1 no_answers))
            (has_written (write_exact r.messages_takes (2 ∷ []) []))))))

-- The status, if it returns, and what was released.
pub record Received : Type 0 where
  pub status : Option Bool
  pub released : List Release

abbrev pub received_end : Process → Option Bool → Received
received_end p none = record { status = none; released = [] }
received_end p (some false) = record { status = some false; released = [] }
received_end p (some true) = record { status = wait_child p; released = released_all }

-- `client_receive_main`
unfoldable pub client_receive_main : Options → Process → Reception → Received
client_receive_main o p r =
    if is_unable p || not r.listener
    then received_end p (some false)
    else received_end p (receive_phases o r)
