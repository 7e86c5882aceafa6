-- ===== src/BenchClient/Receive/ChildServed.antt =====
-- src/bench/libwayland-client.c: the child of `client_receive_main` where the kernel serves it.
use wayring.Base.{
  length, ℕ, zero, suc, ◌-◌, ◌≤◌, ◌<◌, min, ◌≡◌, refl, ap, ◌∙◌, Bool, true, false, Option, some,
  List, [], ◌∷◌, ◌++◌, arith,
}
use wayring.Bench.Options.{Options}
use wayring.Transfer.{Answer, Taken, sent, wait_for_raw_drain}
use wayring.Transfer.Reads.{Brings}
use wayring.Transfer.Writes.{Takes, write_exact-Takes}
use wayring.Transfer.Phases.{BringsStorages, raw_drain_phase-Brings, wait-Brings}
use wayring.BenchClient.Programs.{setup_bytes}
use wayring.BenchClient.Receive.{
  and_write, write_rounds, raw_write_phase, Peer, Wrote, and_wrote, after_phase, receive_child,
}
use wayring.BenchClient.Receive.ChildWrites.{messages_bytes}

-- The kernel takes the chunks of a phase one after the other, each in pieces of any length.
pub data TakesChunks (bytes_of : ℕ → List ℕ) (batch sequence : ℕ)
    : ℕ → List Taken → List Taken → Type 0 where
  all_taken : (rest : List Taken) → TakesChunks bytes_of batch sequence 0 rest rest
  chunk :
      (remaining : ℕ) (takes between rest : List Taken)
      → 0 < remaining
      → Takes takes (length (messages_bytes bytes_of (min remaining batch) sequence)) between
      → TakesChunks bytes_of batch sequence (remaining - min remaining batch) between rest
      → TakesChunks bytes_of batch sequence remaining takes rest

module _ (bytes_of : ℕ → List ℕ) (batch sequence : ℕ) (some_batch : 0 < batch) where
  write_rounds-TakesChunks :
      (fuel : ℕ) (out : List ℕ) {remaining : ℕ} {takes rest : List Taken}
      → remaining ≤ fuel
      → TakesChunks bytes_of batch sequence remaining takes rest
      → (o : List ℕ) × (write_rounds bytes_of fuel remaining batch sequence takes out ≡ sent o rest)
  unfolding write_rounds
  write_rounds-TakesChunks zero out f (all_taken rest) = (out, refl)
  write_rounds-TakesChunks (suc fuel) out f (all_taken rest) = (out, refl)
  write_rounds-TakesChunks zero out f (chunk remaining takes between rest h t more) =
      absurd (omega arith)
  write_rounds-TakesChunks (suc fuel) out f (chunk remaining takes between rest h t more) =
      let bytes = messages_bytes bytes_of (min remaining batch) sequence in
      let (o, e) = write_rounds-TakesChunks fuel (out ++ bytes) (omega arith) more in
      (
        o,
        ground (
          arith,
          ap
              (λ w.
                and_write bytes_of w
                  (write_rounds bytes_of fuel (remaining - min remaining batch) batch sequence))
              (write_exact-Takes bytes out t refl),
          e,
        ),
      )

  raw_write_phase-TakesChunks :
      (count : ℕ) (out : List ℕ) (allocated : Bool) {takes rest : List Taken}
      → allocated ≡ true
      → TakesChunks bytes_of batch sequence count takes rest
      → (o : List ℕ) × (raw_write_phase bytes_of allocated count batch sequence takes out
          ≡ sent o rest)
  unfolding raw_write_phase
  raw_write_phase-TakesChunks count out true a t =
      write_rounds-TakesChunks count out {remaining = count} (omega arith) t
  raw_write_phase-TakesChunks count out false a t = absurd (cc)

-- What the kernel answers to the child: the bytes of the set-up come and each acknowledgement, malloc
-- succeeds, and all bytes are taken.
pub record IsServed (bytes_of : ℕ → List ℕ) (o : Options) (p : Peer) : Type 0 where
  pub set_up : List ℕ
  pub set_up_rest : List Answer
  pub set_up_takes_rest : List Taken
  pub warmup_takes_rest : List Taken
  pub messages_takes_rest : List Taken
  pub warmup_ack_rest : List Answer
  pub messages_ack_rest : List Answer
  pub set_up_comes : BringsStorages p.set_up setup_bytes set_up set_up_rest
  pub set_up_taken : Takes p.set_up_takes 1 set_up_takes_rest
  pub warmup_has_storage : p.warmup_allocated ≡ true
  pub warmup_taken : TakesChunks bytes_of o.batch 1 o.warmup p.warmup_takes warmup_takes_rest
  pub warmup_acknowledged : Brings p.warmup_ack 1 (1 ∷ []) warmup_ack_rest
  pub messages_has_storage : p.messages_allocated ≡ true
  pub messages_taken :
      TakesChunks bytes_of o.batch 2 o.messages p.messages_takes messages_takes_rest
  pub messages_acknowledged : Brings p.messages_ack 1 (2 ∷ []) messages_ack_rest

going :
    (s : Option Bool) (out : List ℕ) (next : Wrote) → s ≡ some true → and_wrote s out next ≡ next
going s out next e = ap (λ t. and_wrote t out next) e

pub receive_child-IsServed :
    (bytes_of : ℕ → List ℕ) (o : Options) (p : Peer)
    → 0 < o.batch
    → IsServed bytes_of o p
    → (receive_child bytes_of o p).child ≡ some true
unfolding receive_child
receive_child-IsServed bytes_of o p b s =
    let (first, wrote) =
      raw_write_phase-TakesChunks bytes_of o.batch 1 b o.warmup [] p.warmup_allocated
        s.warmup_has_storage s.warmup_taken in
    let (all, wrote_all) =
      raw_write_phase-TakesChunks bytes_of o.batch 2 b o.messages first p.messages_allocated
        s.messages_has_storage s.messages_taken in
    ap (λ (w : Wrote). w.child)
      (going _ [] _ (raw_drain_phase-Brings 0 s.set_up_comes s.set_up_taken)
        ∙ ap
            (λ w. after_phase w (λ out. and_wrote (wait_for_raw_drain p.warmup_ack 1) out (
              after_phase
                (raw_write_phase bytes_of p.messages_allocated o.messages o.batch 2 p.messages_takes
                  out)
                (λ every.
                  and_wrote (wait_for_raw_drain p.messages_ack 2) every
                    (record { child = some true; written = every })))))
            wrote
        ∙ going _ first _ (wait-Brings 1 1 s.warmup_acknowledged)
        ∙ ap
            (λ w. after_phase w (λ every.
              and_wrote (wait_for_raw_drain p.messages_ack 2) every
                (record { child = some true; written = every })))
            wrote_all
        ∙ going _ all _ (wait-Brings 2 2 s.messages_acknowledged))
