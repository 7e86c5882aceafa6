-- ===== src/BenchClient/Transmit/Ready.antt =====
-- src/bench/libwayland-client.c: the parent of `client_transmit_main` where its flushes go through.
use wayring.Base.{
  ◌==◌, Bool-cases, replicate, replicate-add, ℕ, zero, suc, ◌+◌, ◌-◌, ◌≤◌, ◌<◌, min, ◌≡◌, refl, sym,
  ap, subst, ◌∙◌, inl, inr, true, false, List, [], ◌∷◌, ◌++◌, append_assoc, append-nil, arith,
}
use wayring.Bench.Options.{Options}
use wayring.Transfer.{Answer}
use wayring.Transfer.Reads.{Brings, read_exact-Brings}
use wayring.BenchClient.Transmit.{both_phases}
use wayring.BenchClient.Programs.{
  Flush, flushed, refused, full, through, flush_blocking, Link, Stage, going, next_stage,
  after_flush, flush, transmit_rounds, transmit_phase, after_ack, await_ack, transmit_phases,
}

-- The kernel lets `n` flushes through, each after any number of times that the socket is full.
unfoldable pub IsReady : ℕ → List Flush → Type 0
IsReady zero flushes = Unit
IsReady (suc n) [] = ⊥
IsReady (suc n) (flushed ∷ flushes) = IsReady n flushes
IsReady (suc n) (refused ∷ flushes) = ⊥
IsReady (suc n) (full true ∷ flushes) = IsReady (suc n) flushes
IsReady (suc n) (full false ∷ flushes) = ⊥

fewer_flushes : (m n : ℕ) (flushes : List Flush) → m ≤ n → IsReady n flushes → IsReady m flushes
unfolding IsReady
fewer_flushes zero n flushes h r = tt
fewer_flushes (suc m) zero flushes h r = absurd (omega arith)
fewer_flushes (suc m) (suc n) [] h r = absurd r
fewer_flushes (suc m) (suc n) (flushed ∷ flushes) h r = fewer_flushes m n flushes (omega arith) r
fewer_flushes (suc m) (suc n) (refused ∷ flushes) h r = absurd r
fewer_flushes (suc m) (suc n) (full true ∷ flushes) h r = fewer_flushes (suc m) (suc n) flushes h r
fewer_flushes (suc m) (suc n) (full false ∷ flushes) h r = absurd r

pub flush_blocking-IsReady :
    (n : ℕ) (flushes : List Flush)
    → IsReady (suc n) flushes
    → (rest : List Flush) × (flush_blocking flushes ≡ through rest) × IsReady n rest
unfolding IsReady flush_blocking
flush_blocking-IsReady n [] r = absurd r
flush_blocking-IsReady n (flushed ∷ flushes) r = (flushes, refl, r)
flush_blocking-IsReady n (refused ∷ flushes) r = absurd r
flush_blocking-IsReady n (full true ∷ flushes) r = flush_blocking-IsReady n flushes r
flush_blocking-IsReady n (full false ∷ flushes) r = absurd r

abbrev pub link : List ℕ → List Flush → List Answer → Link
link pings flushes answers = record { pings = pings; flushes = flushes; answers = answers }

flush-IsReady :
    (n : ℕ) (pings : List ℕ) (flushes : List Flush) (answers : List Answer)
    → IsReady (suc n) flushes
    → (rest : List Flush) × (flush (link pings flushes answers) ≡ going (link pings rest answers))
      × IsReady n rest
unfolding flush
flush-IsReady n pings flushes answers r =
    let (rest, e, ready) = flush_blocking-IsReady n flushes r in
    (rest, ap (after_flush (link pings flushes answers)) e, ready)

-- A stage goes on with `pings` sent, `answers` to come and `n` flushes ready.
abbrev pub GoesOn : ℕ → List ℕ → List Answer → Stage → Type 0
GoesOn n pings answers s =
    (rest : List Flush) × (s ≡ going (link pings rest answers)) × IsReady n rest

goes_on :
    (n m : ℕ) {pings later_pings : List ℕ} {answers later : List Answer} {s : Stage}
    (next : Link → Stage)
    → GoesOn n pings answers s
    → ((rest : List Flush)
        → IsReady n rest
        → GoesOn m later_pings later (next (link pings rest answers)))
    → GoesOn m later_pings later (next_stage s next)
unfolding next_stage
goes_on n m {later_pings} {later} next (rest, e, r) f =
    subst (λ t. GoesOn m later_pings later (next_stage t next)) (sym e) (f rest r)

rounds-GoesOn :
    (n fuel remaining batch sequence : ℕ) (pings : List ℕ) (flushes : List Flush)
    (answers : List Answer)
    → remaining ≤ fuel
    → 0 < batch
    → IsReady (remaining + n) flushes
    → GoesOn n
        (pings ++ replicate remaining sequence)
        answers
        (transmit_rounds fuel remaining batch sequence (link pings flushes answers))
unfolding transmit_rounds
rounds-GoesOn n zero remaining batch sequence pings flushes answers h b r =
    nothing_sent remaining (omega arith) r
  where
    nothing_sent :
        (k : ℕ)
        → k ≡ 0
        → IsReady (k + n) flushes
        → GoesOn n (pings ++ replicate k sequence) answers (going (link pings flushes answers))
    nothing_sent k e r = (
      flushes,
      ap (λ p. going (link p flushes answers))
          (sym (append-nil pings) ∙ ap (λ j. pings ++ replicate j sequence) (sym e)),
      fewer_flushes n (k + n) flushes (omega arith) r,
    )
rounds-GoesOn n (suc fuel) remaining batch sequence pings flushes answers h b r =
    elim (Bool-cases (remaining == 0)) [
      | inl done ↦ rw done (
        flushes,
        ap (λ p. going (link p flushes answers))
            (sym (append-nil pings)
              ∙ ap (λ j. pings ++ replicate j sequence) {x = 0} {y = remaining} (ground arith)),
        fewer_flushes n (remaining + n) flushes (omega arith) r,
      )
      | inr more ↦
          let chunk = min remaining batch in
          rw more (
            subst
              (λ p. GoesOn n p answers (
                next_stage (flush (link (pings ++ replicate chunk sequence) flushes answers))
                  (transmit_rounds fuel (remaining - chunk) batch sequence)))
              (append_assoc pings (replicate chunk sequence) _
                ∙ ap (◌++◌ pings) (sym (replicate-add chunk (remaining - chunk) sequence))
                ∙ ap (λ j. pings ++ replicate j sequence) {x = chunk + (remaining - chunk)}
                    {y = remaining} (omega arith))
              (goes_on (remaining - 1 + n) n _
                (flush-IsReady (remaining - 1 + n) (pings ++ replicate chunk sequence) flushes
                  answers
                  (fewer_flushes (suc (remaining - 1 + n)) (remaining + n) flushes (ground arith)
                    r))
                (λ rest ready.
                  rounds-GoesOn n fuel (remaining - chunk) batch sequence
                    (pings ++ replicate chunk sequence) rest answers (ground arith) b
                    (fewer_flushes (remaining - chunk + n) (remaining - 1 + n) rest (ground arith)
                      ready))))
    ]

await-GoesOn :
    (n ack : ℕ) (pings : List ℕ) (flushes : List Flush) {answers rest : List Answer}
    → IsReady n flushes
    → Brings answers 1 (ack ∷ []) rest
    → GoesOn n pings rest (await_ack ack (link pings flushes answers))
unfolding await_ack
await-GoesOn n ack pings flushes {answers} {rest} r b = (
  flushes,
  ap (after_ack ack (link pings flushes answers)) (read_exact-Brings [] b) ∙ ground arith,
  r,
)

module _ (o : Options) (some_batch : 0 < o.batch) where
  phase-GoesOn :
      (n count sequence : ℕ) (pings : List ℕ) (flushes : List Flush) {answers rest : List Answer}
      → IsReady (count + n) flushes
      → Brings answers 1 (sequence ∷ []) rest
      → GoesOn n (pings ++ replicate count sequence) rest (
          next_stage
            (transmit_phase count o.batch sequence (link pings flushes answers))
            (await_ack sequence))
  unfolding transmit_phase
  phase-GoesOn n count sequence pings flushes {answers} r b =
      goes_on n n _
        (rounds-GoesOn n count count o.batch sequence pings flushes answers (omega arith) some_batch
          r)
        (λ rest ready. await-GoesOn n sequence (pings ++ replicate count sequence) rest ready b)

  pub phases-GoesOn :
      (flushes : List Flush) {answers first second rest : List Answer}
      → IsReady (1 + (o.warmup + o.messages)) flushes
      → Brings answers 1 (0 ∷ []) first
      → Brings first 1 (1 ∷ []) second
      → Brings second 1 (2 ∷ []) rest
      → GoesOn 0 (both_phases o) rest (transmit_phases o (link [] flushes answers))
  unfolding transmit_phases
  phases-GoesOn flushes {answers} r b c d =
      let total = o.warmup + o.messages in
      goes_on total 0 _
        (goes_on total total _
          (flush-IsReady total [] flushes answers
            (fewer_flushes (suc total) (1 + total) flushes (omega arith) r))
          (λ rest ready. await-GoesOn total 0 [] rest ready b))
        (λ rest ready.
          goes_on o.messages 0 _ (phase-GoesOn o.messages o.warmup 1 [] rest ready c) (λ later more.
            phase-GoesOn 0 o.messages 2 (replicate o.warmup 1) later
              (fewer_flushes (o.messages + 0) o.messages later (omega arith) more) d))
