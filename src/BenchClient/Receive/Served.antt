-- ===== src/BenchClient/Receive/Served.antt =====
-- src/bench/libwayland-client.c: what both sides of `client_receive_main` do.
use wayring.Base.{replicate, joined, ℕ, ◌≡◌, true, some, List, [], ◌∷◌, map}
use wayring.Bench.Options.{Options}
use wayring.Transfer.{Answer, Taken}
use wayring.Transfer.Reads.{Brings}
use wayring.Transfer.Writes.{Takes}
use wayring.BenchClient.Transmit.Ready.{IsReady}
use wayring.BenchClient.Receive.{Reception}

-- What the parent meets where all goes well: its dispatches bring the pongs of the phases in batches.
pub record IsReceived (o : Options) (r : Reception) : Type 0 where
  pub ack_rest : List Answer
  pub warmup_rest : List Taken
  pub messages_rest : List Taken
  pub warmup_batches : List (List ℕ)
  pub messages_batches : List (List ℕ)
  pub is_listening : r.listener ≡ true
  pub is_flushed : IsReady 1 r.flushes
  pub is_acknowledged : Brings r.set_up_ack 1 (0 ∷ []) ack_rest
  pub warmup_dispatched : r.warmup_pongs ≡ map some warmup_batches
  pub warmup_comes : joined warmup_batches ≡ replicate o.warmup 1
  pub warmup_taken : Takes r.warmup_takes 1 warmup_rest
  pub messages_dispatched : r.messages_pongs ≡ map some messages_batches
  pub messages_come : joined messages_batches ≡ replicate o.messages 2
  pub messages_taken : Takes r.messages_takes 1 messages_rest
