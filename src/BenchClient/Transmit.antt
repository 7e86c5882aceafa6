-- ===== src/BenchClient/Transmit.antt =====
-- src/bench/libwayland-client.c: what `client_transmit_main` sends, whatever the kernel answers.
pub mod Ready
pub mod Served
mod Tests
use wayring.Base.{
  ◌==◌, if◌then◌else◌, Bool-cases, replicate, replicate-add, ℕ, zero, suc, ◌+◌, ◌-◌, ◌≤◌, ◌<◌, min,
  ◌≡◌, refl, sym, ap, subst, ◌∙◌, inl, inr, true, some, List, [], ◌∷◌, ◌++◌, append_assoc,
  append-nil, arith,
}
use wayring.Bench.Options.{Options}
use wayring.Transfer.{Answer, Read, pending, broken, finished, read_exact}
use wayring.BenchClient.Programs.{
  Flush, Flushing, polling, unflushed, through, flush_blocking, Link, Stage, waiting, stopped,
  going, next_stage, after_flush, flush, transmit_rounds, transmit_phase, after_ack, await_ack,
  transmit_phases, Process, Outcome, outcome, is_unable, released_all, wait_child,
  client_transmit_main,
}

abbrev pub Begins : List ℕ → List ℕ → Type 0
Begins xs ys = (rest : List ℕ) × (xs ++ rest ≡ ys)

-- After the pings `before`, a stage has sent a beginning of `wanted`, all of it if it goes on.
unfoldable pub HasSent : List ℕ → List ℕ → Stage → Type 0
HasSent before wanted (waiting l) =
    (some_of : List ℕ) × (l.pings ≡ before ++ some_of) × Begins some_of wanted
HasSent before wanted (stopped l) =
    (some_of : List ℕ) × (l.pings ≡ before ++ some_of) × Begins some_of wanted
HasSent before wanted (going l) = l.pings ≡ before ++ wanted

Begins-append : (xs ys zs : List ℕ) → Begins xs ys → Begins xs (ys ++ zs)
Begins-append xs ys zs (rest, e) = (rest ++ zs, sym (append_assoc xs rest zs) ∙ ap (λ l. l ++ zs) e)

later_sent :
    (before first second : List ℕ) (s : Stage)
    → HasSent (before ++ first) second s
    → HasSent before (first ++ second) s
unfolding HasSent
later_sent before first second (waiting l) (xs, e, (rest, b)) = (
  first ++ xs,
  e ∙ append_assoc before first xs,
  (rest, append_assoc first xs rest ∙ ap (◌++◌ first) b),
)
later_sent before first second (stopped l) (xs, e, (rest, b)) = (
  first ++ xs,
  e ∙ append_assoc before first xs,
  (rest, append_assoc first xs rest ∙ ap (◌++◌ first) b),
)
later_sent before first second (going l) e = e ∙ append_assoc before first second

HasSent-next_stage :
    (before first second : List ℕ) (s : Stage) (next : Link → Stage)
    → HasSent before first s
    → ((l : Link) → l.pings ≡ before ++ first → HasSent (before ++ first) second (next l))
    → HasSent before (first ++ second) (next_stage s next)
unfolding HasSent next_stage
HasSent-next_stage before first second (waiting l) next (xs, e, b) f =
    (xs, e, Begins-append xs first second b)
HasSent-next_stage before first second (stopped l) next (xs, e, b) f =
    (xs, e, Begins-append xs first second b)
HasSent-next_stage before first second (going l) next e f =
    later_sent before first second (next l) (f l e)

module _ (before : List ℕ) (l : Link) (sent_before : l.pings ≡ before) where
  nothing_more : l.pings ≡ before ++ []
  nothing_more = sent_before ∙ sym (append-nil before)

  HasSent-flush : HasSent before [] (flush l)
  unfolding HasSent flush
  HasSent-flush = at_flush (flush_blocking l.flushes)
    where
      at_flush : (f : Flushing) → HasSent before [] (after_flush l f)
      at_flush polling = ([], nothing_more, ([], refl))
      at_flush unflushed = ([], nothing_more, ([], refl))
      at_flush (through flushes) = nothing_more

  HasSent-await_ack : (ack : ℕ) → HasSent before [] (await_ack ack l)
  unfolding HasSent await_ack
  HasSent-await_ack ack = at_read (read_exact l.answers 1 [])
    where
      at_read : (r : Read) → HasSent before [] (after_ack ack l r)
      at_read pending = ([], nothing_more, ([], refl))
      at_read broken = ([], nothing_more, ([], refl))
      at_read (finished [] answers) = ([], nothing_more, ([], refl))
      at_read (finished (x ∷ xs) answers) = elim (Bool-cases (x == ack)) [
        | inl same ↦ rw same nothing_more
        | inr other ↦ rw other ([], nothing_more, ([], refl))
      ]

transmit_rounds-HasSent :
    (fuel remaining batch sequence : ℕ) (before : List ℕ) (l : Link)
    → remaining ≤ fuel
    → 0 < batch
    → l.pings ≡ before
    → HasSent before
        (replicate remaining sequence)
        (transmit_rounds fuel remaining batch sequence l)
unfolding HasSent transmit_rounds
transmit_rounds-HasSent zero remaining batch sequence before l h b e =
    e
    ∙ sym (append-nil before)
    ∙ ap (λ n. before ++ replicate n sequence) {x = 0} {y = remaining} (omega arith)
transmit_rounds-HasSent (suc fuel) remaining batch sequence before l h b e =
    elim (Bool-cases (remaining == 0)) [
      | inl done ↦ rw done (
          e
          ∙ sym (append-nil before)
          ∙ ap (λ n. before ++ replicate n sequence) {x = 0} {y = remaining} (ground arith))
      | inr more ↦
          let chunk = min remaining batch in
          let sent : Link = record l { pings = l.pings ++ replicate chunk sequence } in
          let now = before ++ replicate chunk sequence in
          rw more (
            subst
              (λ w.
                HasSent before w (
                  next_stage (flush sent)
                    (transmit_rounds fuel (remaining - chunk) batch sequence)))
              (sym (replicate-add chunk (remaining - chunk) sequence)
                ∙ ap (λ n. replicate n sequence) {x = chunk + (remaining - chunk)} {y = remaining}
                    (omega arith))
              (HasSent-next_stage before (replicate chunk sequence)
                (replicate (remaining - chunk) sequence) (flush sent)
                (transmit_rounds fuel (remaining - chunk) batch sequence)
                (subst (λ w. HasSent before w (flush sent)) (append-nil (replicate chunk sequence))
                  (later_sent before (replicate chunk sequence) [] (flush sent)
                    (HasSent-flush now sent (ap (λ p. p ++ replicate chunk sequence) e))))
                (λ next f.
                  transmit_rounds-HasSent fuel (remaining - chunk) batch sequence now next
                    (ground arith) b f)))
    ]

-- The pings of both phases.
abbrev pub both_phases : Options → List ℕ
both_phases o = replicate o.warmup 1 ++ replicate o.messages 2

module _ (o : Options) (some_batch : 0 < o.batch) where
  sent_in_phase :
      (count sequence : ℕ) (before : List ℕ) (l : Link)
      → l.pings ≡ before
      → HasSent before
          (replicate count sequence)
          (next_stage (transmit_phase count o.batch sequence l) (await_ack sequence))
  unfolding transmit_phase
  sent_in_phase count sequence before l e =
      subst
        (λ w.
          HasSent before w
            (next_stage (transmit_phase count o.batch sequence l) (await_ack sequence)))
        (append-nil (replicate count sequence))
        (HasSent-next_stage before (replicate count sequence) []
          (transmit_phase count o.batch sequence l) (await_ack sequence)
          (transmit_rounds-HasSent count count o.batch sequence before l (omega arith) some_batch e)
          (λ next f. HasSent-await_ack (before ++ replicate count sequence) next f sequence))

  transmit_phases-HasSent :
      (l : Link) → l.pings ≡ [] → HasSent [] (both_phases o) (transmit_phases o l)
  unfolding transmit_phases
  transmit_phases-HasSent l e =
      HasSent-next_stage [] [] (both_phases o) (next_stage (flush l) (await_ack 0)) _
        (HasSent-next_stage [] [] [] (flush l) (await_ack 0) (HasSent-flush [] l e)
          (λ m f. HasSent-await_ack [] m f 0))
        (λ m f.
          HasSent-next_stage [] (replicate o.warmup 1) (replicate o.messages 2) _ _
            (sent_in_phase o.warmup 1 [] m f)
            (λ n g. sent_in_phase o.messages 2 (replicate o.warmup 1) n g))

abbrev HasOutcome : Options → Process → Outcome → Type 0
HasOutcome o p r =
    Begins r.pings (both_phases o)
    × (r.status ≡ some true
        → (r.pings ≡ both_phases o) × (r.released ≡ released_all) × (p.child ≡ some true))

waited_for : (p : Process) → wait_child p ≡ some true → p.child ≡ some true
unfolding wait_child
waited_for p e = ground arith

HasSent-outcome :
    (o : Options) (p : Process) (s : Stage)
    → HasSent [] (both_phases o) s
    → HasOutcome o p (outcome p s)
unfolding HasSent
HasSent-outcome o p (waiting l) (xs, e, (rest, b)) =
    ((rest, ap (λ w. w ++ rest) e ∙ b), λ f. absurd (cc))
HasSent-outcome o p (stopped l) (xs, e, (rest, b)) =
    ((rest, ap (λ w. w ++ rest) e ∙ b), λ f. absurd (cc))
HasSent-outcome o p (going l) e = (([], append-nil l.pings ∙ e), λ f. (e, refl, waited_for p f))

-- Whatever the kernel answers, the pings that client_transmit_main has sent, also while it waits or when
-- it has failed, are the first ones of `warmup` pings with the sequence 1 and `messages` pings with the
-- sequence 2. If it returns success, it sent all of them, released its three objects and its child ended
-- with success. The batch is positive.
pub client_transmit_main_sends :
    (o : Options) (p : Process) (flushes : List Flush) (answers : List Answer)
    → 0 < o.batch
    → HasOutcome o p (client_transmit_main o p flushes answers)
unfolding client_transmit_main
client_transmit_main_sends o p flushes answers b =
    let l : Link = record { pings = []; flushes = flushes; answers = answers } in
    elim (Bool-cases (is_unable p)) [
      | inl failed ↦ rw failed ((both_phases o, refl), λ f. absurd (cc))
      | inr started ↦
          rw started
            (HasSent-outcome o p (transmit_phases o l) (transmit_phases-HasSent o b l refl))
    ]
