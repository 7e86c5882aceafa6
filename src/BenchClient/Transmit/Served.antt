-- ===== src/BenchClient/Transmit/Served.antt =====
-- src/bench/libwayland-client.c: `client_transmit_main` and the child that drains what it sends.
use wayring.Base.{
  replicate, ℕ, ◌+◌, ◌*◌, ◌^◌, ◌<◌, ◌≡◌, refl, ap, ap₂, ◌∙◌, Bool, true, false, Option, some, List,
  [], ◌∷◌, ◌++◌, arith,
}
use wayring.Bench.Options.{Options, u64}
use wayring.Transfer.{Answer, Taken, write_exact}
use wayring.Transfer.Reads.{Brings}
use wayring.Transfer.Writes.{Takes, write_exact-Takes}
use wayring.Transfer.Phases.{BringsStorages, raw_drain-Brings}
use wayring.BenchClient.Transmit.{both_phases}
use wayring.BenchClient.Programs.{
  Flush, Process, outcome, released_all, wait_child, is_unable, client_transmit_main, after_drain,
  after_byte, drain_phases, setup_bytes, transmit_child,
}
use wayring.BenchClient.Transmit.Ready.{IsReady, phases-GoesOn}

drained :
    (sizes : List ℕ) (ack : ℕ) {size : ℕ} {answers left : List Answer} {wire : List ℕ}
    {takes takes_left : List Taken}
    → BringsStorages answers size wire left
    → Takes takes 1 takes_left
    → drain_phases (size ∷ sizes) ack answers takes ≡ drain_phases sizes (ack + 1) left takes_left
unfolding drain_phases
drained sizes ack {size} {answers} {left} {takes} {takes_left} b t =
    ap
      (λ r. after_drain r (λ answers_left.
        after_byte (write_exact takes (ack ∷ []) [])
          (λ later. drain_phases sizes (ack + 1) answers_left later)))
      (raw_drain-Brings b)
    ∙ ap (λ w. after_byte w (λ later. drain_phases sizes (ack + 1) left later))
        (write_exact-Takes (ack ∷ []) [] t refl)

all_drained :
    (ack : ℕ) (answers : List Answer) (takes : List Taken)
    → drain_phases [] ack answers takes ≡ some true
unfolding drain_phases
all_drained ack answers takes = refl

-- The bytes of the pings of a phase, each as `bytes_of` its sequence.
unfoldable pub wire_of : (ℕ → List ℕ) → List ℕ → List ℕ
wire_of bytes_of [] = []
wire_of bytes_of (sequence ∷ pings) = bytes_of sequence ++ wire_of bytes_of pings

-- What the kernel answers to the child: the bytes of the set-up and of both phases of pings come, no piece
-- of them across the end of a phase or of a filled storage, and each acknowledgement is taken.
pub record IsDrained (o : Options) (bytes_of : ℕ → List ℕ) (answers : List Answer)
    (takes : List Taken) : Type 0 where
  pub set_up : List ℕ
  pub first : List Answer
  pub second : List Answer
  pub rest : List Answer
  pub first_takes : List Taken
  pub second_takes : List Taken
  pub rest_takes : List Taken
  pub set_up_comes : BringsStorages answers setup_bytes set_up first
  pub warmup_comes :
      BringsStorages first (o.warmup * 12) (wire_of bytes_of (replicate o.warmup 1)) second
  pub messages_come :
      BringsStorages second (o.messages * 12) (wire_of bytes_of (replicate o.messages 2)) rest
  pub set_up_taken : Takes takes 1 first_takes
  pub warmup_taken : Takes first_takes 1 second_takes
  pub messages_taken : Takes second_takes 1 rest_takes

small : (n : ℕ) → n < 2 ^ 64 → u64 n ≡ n
small n h = omega arith

transmit_child-IsDrained :
    (o : Options) (bytes_of : ℕ → List ℕ) (answers : List Answer) (takes : List Taken)
    → o.warmup * 12 < 2 ^ 64
    → o.messages * 12 < 2 ^ 64
    → IsDrained o bytes_of answers takes
    → transmit_child o answers takes ≡ some true
unfolding transmit_child
transmit_child-IsDrained o bytes_of answers takes w m d =
    ap (λ sizes. drain_phases (setup_bytes ∷ sizes) 0 answers takes)
      (ap₂ (λ a b. a ∷ b ∷ []) (small (o.warmup * 12) w) (small (o.messages * 12) m))
    ∙ drained (o.warmup * 12 ∷ o.messages * 12 ∷ []) 0 d.set_up_comes d.set_up_taken
    ∙ drained (o.messages * 12 ∷ []) 1 d.warmup_comes d.warmup_taken
    ∙ drained [] 2 d.messages_come d.messages_taken
    ∙ all_drained 3 d.rest d.rest_takes

-- The calls of the set-up succeed, and waitpid gives the status of the child.
abbrev pub IsForked : Process → Option Bool → Type 0
IsForked p child =
    (p.socketpair ≡ true)
    × ((p.fork ≡ true)
        × ((p.display ≡ true)
            × ((p.registry ≡ true)
                × ((p.benchmark ≡ true) × ((p.waitpid ≡ true) × (p.child ≡ child))))))

-- What the kernel answers to the parent: its flushes go through, however often the socket is full before,
-- and the three acknowledgements come.
pub record IsAnswered (o : Options) (flushes : List Flush) (answers : List Answer) : Type 0 where
  pub first : List Answer
  pub second : List Answer
  pub rest : List Answer
  pub goes_through : IsReady (1 + (o.warmup + o.messages)) flushes
  pub set_up_ack : Brings answers 1 (0 ∷ []) first
  pub warmup_ack : Brings first 1 (1 ∷ []) second
  pub messages_ack : Brings second 1 (2 ∷ []) rest

pub forked :
    (p : Process) (child : Option Bool)
    → IsForked p child
    → (is_unable p ≡ false) × (wait_child p ≡ child)
unfolding is_unable wait_child
forked p child (s, (f, (d, (g, (h, (v, c)))))) = (ground arith, ground arith)

-- client_transmit_main and its child both succeed, with a positive batch and no count of bytes that
-- overflows: if the calls of the set-up succeed (socketpair, fork, the connection, its registry and the
-- bind) and waitpid gives the status of the child; the child is brought the bytes of the set-up and of
-- exactly the pings of both phases, cut anyhow within its storages, and its acknowledgements are taken;
-- and the flushes of the parent go through, however often the socket is full before, and the three
-- acknowledgements come to it. The parent has then sent exactly these pings and released its objects.
pub transmit_both_succeed :
    (o : Options) (bytes_of : ℕ → List ℕ) (p : Process) (flushes : List Flush)
    (answers child_answers : List Answer) (takes : List Taken)
    → 0 < o.batch
    → o.warmup * 12 < 2 ^ 64
    → o.messages * 12 < 2 ^ 64
    → IsForked p (transmit_child o child_answers takes)
    → IsAnswered o flushes answers
    → IsDrained o bytes_of child_answers takes
    → (transmit_child o child_answers takes ≡ some true)
      × (client_transmit_main o p flushes answers
          ≡ record { status = some true; pings = both_phases o; released = released_all })
unfolding client_transmit_main
transmit_both_succeed o bytes_of p flushes answers child_answers takes b w m k a i =
    let child = transmit_child-IsDrained o bytes_of child_answers takes w m i in
    let (able, finish) = forked p (transmit_child o child_answers takes) k in
    let (rest, e, ready) =
      phases-GoesOn o b flushes a.goes_through a.set_up_ack a.warmup_ack a.messages_ack in
    (
      child,
      rw able (
          ap (outcome p) e
          ∙ ap (λ t. record { status = t; pings = both_phases o; released = released_all })
              (finish ∙ child)),
    )
