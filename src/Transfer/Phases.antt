-- ===== src/Transfer/Phases.antt =====
-- src/bench/libwayland-client.c: `raw_drain_phase` and `wait_for_raw_drain`, of both sides of a phase.
use wayring.Base.{
  ◌==◌, ℕ, zero, suc, ◌-◌, ◌≤◌, ◌<◌, min, ◌≡◌, refl, sym, ap, ◌∙◌, true, some, List, [], ◌∷◌, ◌++◌,
  append_assoc, append-nil, arith,
}
use wayring.Transfer.{
  Answer, finished, storage_size, and_read, drain_loop, raw_drain, wait_for_raw_drain, acknowledged,
  acknowledge, wrote, raw_drain_phase, Taken,
}
use wayring.Transfer.Writes.{Takes, write_exact-Takes}
use wayring.Transfer.Reads.{Brings, read_exact-Brings}

-- The answers bring `size` bytes, no piece of them across the end of a filled storage.
pub data BringsStorages : List Answer → ℕ → List ℕ → List Answer → Type 0 where
  drained : (rest : List Answer) → BringsStorages rest 0 [] rest
  storage :
      (answers : List Answer) (size : ℕ) (wire : List ℕ) (between : List Answer) (wires : List ℕ)
      (rest : List Answer)
      → 0 < size
      → Brings answers (min size storage_size) wire between
      → BringsStorages between (size - min size storage_size) wires rest
      → BringsStorages answers size (wire ++ wires) rest

drain_loop-Brings :
    (fuel : ℕ) (got : List ℕ) {answers : List Answer} {size : ℕ} {wire : List ℕ}
    {rest : List Answer}
    → size ≤ fuel
    → BringsStorages answers size wire rest
    → drain_loop fuel answers size got ≡ finished (got ++ wire) rest
unfolding drain_loop
drain_loop-Brings zero got f (drained rest) = ap (λ g. finished g rest) (sym (append-nil got))
drain_loop-Brings (suc fuel) got f (drained rest) = ap (λ g. finished g rest) (sym (append-nil got))
drain_loop-Brings zero got f (storage answers size wire between wires rest h b s) =
    absurd (omega arith)
drain_loop-Brings (suc fuel) got f (storage answers size wire between wires rest h b s) = ground (
  arith,
  ap
      (λ r. and_read r (λ read next_answers.
        drain_loop fuel next_answers (size - min size storage_size) (got ++ read)))
      (read_exact-Brings [] b),
  drain_loop-Brings fuel (got ++ wire) (omega arith) s,
  append_assoc got wire wires,
)

-- The drain of a phase ends, after as many bytes as it was asked for, when the other side has sent
-- them, and leaves what comes behind them unread.
pub raw_drain-Brings :
    {answers : List Answer} {size : ℕ} {wire : List ℕ} {rest : List Answer}
    → BringsStorages answers size wire rest
    → raw_drain answers size ≡ finished wire rest
unfolding raw_drain
raw_drain-Brings {size} b = drain_loop-Brings size [] (omega arith) b

-- A phase is acknowledged when its bytes have come and the kernel takes the acknowledgement.
pub raw_drain_phase-Brings :
    {answers : List Answer} {size : ℕ} {wire : List ℕ} {rest : List Answer} {takes : List Taken}
    {later : List Taken} (ack : ℕ)
    → BringsStorages answers size wire rest
    → Takes takes 1 later
    → raw_drain_phase answers size ack takes ≡ some true
unfolding raw_drain_phase
raw_drain_phase-Brings {takes} ack b t =
    ap (λ r. acknowledge r ack takes) (raw_drain-Brings b)
    ∙ ap wrote (write_exact-Takes (ack ∷ []) [] t refl)

-- The phases of a run keep in step: the byte that is waited for is the one that was sent.
pub wait-Brings :
    {answers : List Answer} {rest : List Answer} (sent ack : ℕ)
    → Brings answers 1 (sent ∷ []) rest
    → wait_for_raw_drain answers ack ≡ some (sent == ack)
unfolding wait_for_raw_drain
wait-Brings sent ack b = ap (λ r. acknowledged r ack) (read_exact-Brings [] b)
