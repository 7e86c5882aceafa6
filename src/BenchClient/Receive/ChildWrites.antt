-- ===== src/BenchClient/Receive/ChildWrites.antt =====
-- src/bench/libwayland-client.c: what the child of `client_receive_main` writes.
use wayring.Base.{
  ◌==◌, if◌then◌else◌, Bool-cases, ℕ, zero, suc, ◌+◌, ◌-◌, ◌≤◌, ◌<◌, min, ◌≡◌, refl, sym, ap, subst,
  ◌∙◌, inl, inr, Bool, true, false, Option, none, some, List, [], ◌∷◌, ◌++◌, append_assoc,
  append-nil, arith,
}
use wayring.Bench.Options.{Options}
use wayring.Transfer.{
  Taken, Written, blocked, gave_up, sent, write_exact, storage_words, raw_drain_phase,
  wait_for_raw_drain,
}
use wayring.Transfer.Writes.{write_exact_only, storage_words-add, storage_words_none}
use wayring.BenchClient.Programs.{setup_bytes}
use wayring.BenchClient.Receive.{
  word_bytes, and_write, write_rounds, raw_write_phase, Peer, Wrote, and_wrote, after_phase,
  receive_child,
}

abbrev sent_bytes : Written → List ℕ
sent_bytes blocked = []
sent_bytes gave_up = []
sent_bytes (sent out takes) = out

past_if :
    {A : Type 0} {b : Bool} (c : Bool) (x y : A) {z : A}
    → b ≡ c
    → (if b then x else y) ≡ z
    → (if c then x else y) ≡ z
past_if {b} c x y {z} e f = subst (λ d. (if d then x else y) ≡ z) e f

module _ (bytes_of : ℕ → List ℕ) where
  word_bytes-append :
      (xs ys : List ℕ)
      → word_bytes bytes_of (xs ++ ys) ≡ word_bytes bytes_of xs ++ word_bytes bytes_of ys
  unfolding word_bytes
  word_bytes-append [] ys = refl
  word_bytes-append (x ∷ xs) ys =
      ap (◌++◌ (bytes_of x)) (word_bytes-append xs ys)
      ∙ sym (append_assoc (bytes_of x) (word_bytes bytes_of xs) (word_bytes bytes_of ys))

  -- The bytes of `count` messages.
  abbrev pub messages_bytes : ℕ → ℕ → List ℕ
  messages_bytes count sequence = word_bytes bytes_of (storage_words count sequence)

  messages_bytes-add :
      (a b sequence : ℕ)
      → messages_bytes (a + b) sequence ≡ messages_bytes a sequence ++ messages_bytes b sequence
  messages_bytes-add a b sequence =
      ap (word_bytes bytes_of) (storage_words-add a b sequence)
      ∙ word_bytes-append (storage_words a sequence) (storage_words b sequence)

  after_chunk :
      (w : Written) (next : List Taken → List ℕ → Written) (o : List ℕ) (rest : List Taken)
      → and_write bytes_of w next ≡ sent o rest
      → (takes : List Taken) × (out : List ℕ) × (w ≡ sent out takes)
        × (next takes out ≡ sent o rest)
  after_chunk blocked next o rest e = absurd (cc)
  after_chunk gave_up next o rest e = absurd (cc)
  after_chunk (sent out takes) next o rest e = (takes, out, refl, e)

  ended :
      (remaining sequence : ℕ) (takes : List Taken) (out o : List ℕ) (rest : List Taken)
      → remaining ≡ 0
      → sent out takes ≡ sent o rest
      → o ≡ out ++ messages_bytes remaining sequence
  unfolding word_bytes
  ended remaining sequence takes out o rest z e =
      ap sent_bytes (sym e)
      ∙ sym (append-nil out)
      ∙ ap (◌++◌ out) (
          ap (word_bytes bytes_of) (sym (storage_words_none sequence))
          ∙ ap (λ n. messages_bytes n sequence) (sym z))

  write_rounds_only :
      (fuel remaining batch sequence : ℕ) (takes : List Taken) (out o : List ℕ) (rest : List Taken)
      → remaining ≤ fuel
      → 0 < batch
      → write_rounds bytes_of fuel remaining batch sequence takes out ≡ sent o rest
      → o ≡ out ++ messages_bytes remaining sequence
  unfolding write_rounds
  write_rounds_only zero remaining batch sequence takes out o rest h b e =
      ended remaining sequence takes out o rest (omega arith) e
  write_rounds_only (suc fuel) remaining batch sequence takes out o rest h b e =
      elim (Bool-cases (remaining == 0)) [
        | inl done ↦
            ended remaining sequence takes out o rest (ground arith) (past_if true _ _ done e)
        | inr more ↦
            let chunk = min remaining batch in
            let (later, so_far, now, others) =
              after_chunk (write_exact takes (messages_bytes chunk sequence) out)
                (write_rounds bytes_of fuel (remaining - chunk) batch sequence) o rest
                (past_if false _ _ more e) in
            write_rounds_only fuel (remaining - chunk) batch sequence later so_far o rest
              (ground arith) b others
            ∙ ap (λ p. p ++ messages_bytes (remaining - chunk) sequence)
                (write_exact_only takes (messages_bytes chunk sequence) out so_far later now)
            ∙ append_assoc out (messages_bytes chunk sequence) _
            ∙ ap (◌++◌ out) (sym (messages_bytes-add chunk (remaining - chunk) sequence))
            ∙ ap (λ k. out ++ messages_bytes k sequence) {x = chunk + (remaining - chunk)}
                {y = remaining} (omega arith)
      ]

  raw_write_phase_only :
      (allocated : Bool) (count batch sequence : ℕ) (takes : List Taken) (out o : List ℕ)
      (rest : List Taken)
      → 0 < batch
      → raw_write_phase bytes_of allocated count batch sequence takes out ≡ sent o rest
      → o ≡ out ++ messages_bytes count sequence
  unfolding raw_write_phase
  raw_write_phase_only true count batch sequence takes out o rest b e =
      write_rounds_only count count batch sequence takes out o rest (omega arith) b e
  raw_write_phase_only false count batch sequence takes out o rest b e = absurd (cc)

-- The bytes of both phases of pongs.
abbrev pub both_written : (ℕ → List ℕ) → Options → List ℕ
both_written bytes_of o = messages_bytes bytes_of o.warmup 1 ++ messages_bytes bytes_of o.messages 2

past_step :
    (s : Option Bool) (out : List ℕ) (next : Wrote)
    → (and_wrote s out next).child ≡ some true
    → and_wrote s out next ≡ next
past_step none out next e = absurd (cc)
past_step (some false) out next e = absurd (cc)
past_step (some true) out next e = refl

past_phase :
    (w : Written) (next : List ℕ → Wrote)
    → (after_phase w next).child ≡ some true
    → (takes : List Taken) × (out : List ℕ) × (w ≡ sent out takes) × (after_phase w next ≡ next out)
past_phase blocked next e = absurd (cc)
past_phase gave_up next e = absurd (cc)
past_phase (sent out takes) next e = (takes, out, refl, refl)

still : {x y : Wrote} → x ≡ y → x.child ≡ some true → y.child ≡ some true
still e f = sym (ap (λ (w : Wrote). w.child) e) ∙ f

-- Whatever the kernel answers, if the child of client_receive_main ends with success, it has written
-- exactly `warmup` messages with the sequence 1 and then `messages` with the sequence 2. The batch is
-- positive.
pub receive_child_writes :
    (bytes_of : ℕ → List ℕ) (o : Options) (p : Peer)
    → 0 < o.batch
    → (receive_child bytes_of o p).child ≡ some true
    → (receive_child bytes_of o p).written ≡ both_written bytes_of o
unfolding receive_child
receive_child_writes bytes_of o p b e =
    let drained = past_step (raw_drain_phase p.set_up setup_bytes 0 p.set_up_takes) [] _ e in
    let (takes, first, wrote, on) = past_phase _ _ (still drained e) in
    let e₁ = still on (still drained e) in
    let acked = past_step (wait_for_raw_drain p.warmup_ack 1) first _ e₁ in
    let (later, all, wrote_all, end) = past_phase _ _ (still acked e₁) in
    let e₂ = still end (still acked e₁) in
    let last = past_step (wait_for_raw_drain p.messages_ack 2) all _ e₂ in
    ap (λ (w : Wrote). w.written) (drained ∙ on ∙ acked ∙ end ∙ last)
    ∙ raw_write_phase_only bytes_of p.messages_allocated o.messages o.batch 2 p.messages_takes first
        all later b wrote_all
    ∙ ap (λ f. f ++ messages_bytes bytes_of o.messages 2)
        (raw_write_phase_only bytes_of p.warmup_allocated o.warmup o.batch 1 p.warmup_takes [] first
          takes b wrote)
