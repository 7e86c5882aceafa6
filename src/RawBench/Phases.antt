-- ===== src/RawBench/Phases.antt =====
-- src/bench/raw.c: the two sides of a phase.
use wayring.Base.{
  length, replicate, replicate-add, joined, ℕ, ◌+◌, ◌-◌, ◌*◌, ◌%◌, ◌^◌, ◌<◌, ◌≡◌, refl, ap, ◌∙◌,
  Bool, true, Option, some, List, [], ◌∷◌, ◌++◌, arith,
}
use wayring.Bench.Options.{Options, u64}
use wayring.Transfer.{
  Answer, interrupted, failed, bytes, read_exact, Taken, again, error, taken, sent,
}
use wayring.Transfer.Reads.{Brings, whole, retry, piece}
use wayring.Transfer.Writes.{chunks-joined}
use wayring.RawBench.{
  message_size, read_all, serve_bytes, after_bytes, after_write, write_all, serve_phases, server,
  phase_chunks,
}

-- `n` bytes of a buffer after memset.
abbrev pub zeros : ℕ → List ℕ
zeros n = replicate n 0

-- A phase of the client is `count` messages of zeros, whatever the batch is.
pub phase_chunks-joined :
    (count batch : ℕ) → 0 < batch → joined (phase_chunks count batch) ≡ zeros (count * message_size)
unfolding phase_chunks
phase_chunks-joined count batch h =
    chunks-joined (λ n. zeros (n * message_size)) batch refl
      (λ a b.
        ap zeros {x = (a + b) * 12} {y = a * 12 + b * 12} (omega arith)
        ∙ replicate-add (a * 12) (b * 12) 0)
      h count

-- `read_all` is `read_exact` of the other client.
pub read_all_exact :
    (answers : List Answer) (size : ℕ) (got : List ℕ)
    → read_all answers size got ≡ read_exact answers size got
unfolding read_all read_exact
read_all_exact [] size got = refl
read_all_exact (interrupted ∷ answers) size got = ground (arith, read_all_exact answers size got)
read_all_exact (failed ∷ answers) size got = refl
read_all_exact (bytes xs ∷ answers) size got =
    ground (arith, read_all_exact answers (size - length xs) (got ++ xs))

serve_none : (answers : List Answer) → serve_bytes answers 0 ≡ some (some answers)
unfolding serve_bytes
serve_none [] = refl
serve_none (interrupted ∷ answers) = refl
serve_none (failed ∷ answers) = refl
serve_none (bytes xs ∷ answers) = refl

serve_bytes-Brings :
    {answers : List Answer} {size : ℕ} {wire : List ℕ} {rest : List Answer}
    → Brings answers size wire rest
    → serve_bytes answers size ≡ some (some rest)
unfolding serve_bytes
serve_bytes-Brings (whole rest) = serve_none rest
serve_bytes-Brings (retry answers size wire rest h b) = ground (arith, serve_bytes-Brings b)
serve_bytes-Brings (piece xs answers size wire rest h b) =
    ground (arith, shift, serve_bytes-Brings b)
  where
    shift : serve_bytes answers (length xs + size - length xs) ≡ serve_bytes answers size
    shift = ap (serve_bytes answers) {x = length xs + size - length xs} {y = size} (omega arith)

ack_written :
    (ack : ℕ) (takes : List Taken)
    → write_all (taken 1 ∷ takes) (ack ∷ []) [] ≡ sent (ack ∷ []) takes
unfolding write_all
ack_written ack [] = refl
ack_written ack (again ∷ takes) = refl
ack_written ack (error ∷ takes) = refl
ack_written ack (taken n ∷ takes) = refl

serve_phase :
    (count : ℕ) (counts : List ℕ) (phase : ℕ) (takes : List Taken) {answers : List Answer}
    {wire : List ℕ} {rest : List Answer}
    → count * message_size < 2 ^ 64
    → Brings answers (count * message_size) wire rest
    → serve_phases (count ∷ counts) phase answers (taken 1 ∷ takes)
      ≡ serve_phases counts (phase + 1) rest takes
unfolding serve_phases
serve_phase count counts phase takes {answers} {wire} {rest} w b =
    ap (λ n. after_bytes (serve_bytes answers n) next) {x = u64 (count * message_size)}
      {y = count * message_size} (omega arith)
    ∙ ap (λ r. after_bytes r next) (serve_bytes-Brings b)
    ∙ ap (λ r. after_write r (λ t. serve_phases counts (phase + 1) rest t))
        (ack_written (phase % 256) takes)
  where
    next : List Answer → Option Bool
    next left =
        after_write (write_all (taken 1 ∷ takes) (phase % 256 ∷ []) [])
          (λ t. serve_phases counts (phase + 1) left t)

served :
    (phase : ℕ) (answers : List Answer) (takes : List Taken)
    → serve_phases [] phase answers takes ≡ some true
unfolding serve_phases
served phase answers takes = refl

-- The server ends with success when the bytes of both phases come, as many as the client's chunks are,
-- cut in any way, and both acknowledgements are taken.
pub server_succeeds :
    (o : Options) (takes : List Taken) {answers : List Answer} {between : List Answer}
    {rest : List Answer}
    → 0 < o.batch
    → o.warmup * message_size < 2 ^ 64
    → o.messages * message_size < 2 ^ 64
    → Brings answers (o.warmup * message_size) (joined (phase_chunks o.warmup o.batch)) between
    → Brings between (o.messages * message_size) (joined (phase_chunks o.messages o.batch)) rest
    → server o answers (taken 1 ∷ taken 1 ∷ takes) ≡ some true
unfolding server
server_succeeds o takes {answers} {between} {rest} h w v first second =
    serve_phase o.warmup (o.messages ∷ []) 0 (taken 1 ∷ takes) w first
    ∙ serve_phase o.messages [] 1 takes v second
    ∙ served 2 rest takes
