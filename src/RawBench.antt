-- ===== src/RawBench.antt =====
-- src/bench/raw.c: the benchmark of the bare socket, a client that writes and a server that reads and
-- acknowledges.
pub mod Phases
mod Tests
use wayring.Base.{
  ◌==◌, if◌then◌else◌, length, take, drop, replicate, ℕ, ◌+◌, ◌-◌, ◌*◌, ◌%◌, Bool, true, false, not,
  ◌||◌, Option, none, some, List, [], ◌∷◌, ◌++◌,
}
use wayring.Bench.Options.{Options, u64}
use wayring.Transfer.{
  Answer, interrupted, failed, bytes, Read, pending, broken, finished, Taken, again, error, taken,
  Written, blocked, gave_up, sent, chunks_loop,
}

abbrev pub message_size : ℕ
message_size = 12

-- `write_all` of the bytes `left`, after those in `out` went out. Where the kernel takes none it is
-- asked again.
unfoldable pub write_all : List Taken → List ℕ → List ℕ → Written
write_all [] left out = if length left == 0 then sent out [] else blocked
write_all (again ∷ ts) left out =
    let more = write_all ts left out in if length left == 0 then sent out (again ∷ ts) else more
write_all (error ∷ ts) left out = if length left == 0 then sent out (error ∷ ts) else gave_up
write_all (taken n ∷ ts) left out =
    let more = write_all ts (drop n left) (out ++ take n left) in
    if length left == 0 then sent out (taken n ∷ ts) else more

-- `read_all` of `size` bytes, after `got`.
unfoldable pub read_all : List Answer → ℕ → List ℕ → Read
read_all [] size got = if size == 0 then finished got [] else pending
read_all (interrupted ∷ answers) size got =
    let more = read_all answers size got in
    if size == 0 then finished got (interrupted ∷ answers) else more
read_all (failed ∷ answers) size got = if size == 0 then finished got (failed ∷ answers) else broken
read_all (bytes xs ∷ answers) size got =
    let more = read_all answers (size - length xs) (got ++ xs) in
    if size == 0 then finished got (bytes xs ∷ answers) else if length xs == 0 then broken else more

-- The reads of one phase of `server`: the bytes still to come, and what is left of the answers.
unfoldable pub serve_bytes : List Answer → ℕ → Option (Option (List Answer))
serve_bytes [] size = if size == 0 then some (some []) else none
serve_bytes (interrupted ∷ answers) size =
    let more = serve_bytes answers size in
    if size == 0 then some (some (interrupted ∷ answers)) else more
serve_bytes (failed ∷ answers) size =
    if size == 0 then some (some (failed ∷ answers)) else some none
serve_bytes (bytes xs ∷ answers) size =
    let more = serve_bytes answers (size - length xs) in
    if size == 0
    then some (some (bytes xs ∷ answers))
    else if length xs == 0
    then some none
    else more

-- One phase of `server`, then the next; the answers to its writes come in `takes`. Its status, if it
-- returns.
abbrev pub after_write : Written → (List Taken → Option Bool) → Option Bool
after_write blocked next = none
after_write gave_up next = some false
after_write (sent out takes) next = next takes

abbrev pub after_bytes : Option (Option (List Answer)) → (List Answer → Option Bool) → Option Bool
after_bytes none next = none
after_bytes (some none) next = some false
after_bytes (some (some answers)) next = next answers

unfoldable pub serve_phases : List ℕ → ℕ → List Answer → List Taken → Option Bool
serve_phases [] phase answers takes = some true
serve_phases (count ∷ counts) phase answers takes =
    after_bytes (serve_bytes answers (u64 (count * message_size))) (λ answers_left.
      after_write (write_all takes (phase % 256 ∷ []) [])
        (λ takes_left. serve_phases counts (phase + 1) answers_left takes_left))

unfoldable pub server : Options → List Answer → List Taken → Option Bool
server o answers takes = serve_phases (o.warmup ∷ o.messages ∷ []) 0 answers takes

-- What `send_phase` writes, chunk by chunk, where each write succeeds.
unfoldable pub phase_chunks : ℕ → ℕ → List (List ℕ)
phase_chunks count batch = chunks_loop (λ n. replicate (n * message_size) 0) count count batch

-- The end of `send_phase`: whether the byte that it reads is the acknowledgement; none while waiting.
abbrev pub is_acknowledged : Read → ℕ → Option Bool
is_acknowledged pending ack = none
is_acknowledged broken ack = some false
is_acknowledged (finished [] answers) ack = some false
is_acknowledged (finished (x ∷ xs) answers) ack = some (x == ack)

unfoldable pub expect_ack : List Answer → ℕ → Option Bool
expect_ack answers ack = is_acknowledged (read_all answers 1 []) ack

-- What `main` requires of its options.
unfoldable pub has_counts : Options → Bool
has_counts o = not ((o.messages == 0) || ((o.batch == 0) || (o.warmup == 0)))
