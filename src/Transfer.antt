-- ===== src/Transfer.antt =====
-- src/bench/libwayland-client.c: the loops that move bytes through a socket, `read_exact`,
-- `write_exact` and those that stand on them. What the kernel answers to one read or write after the
-- other is a list.
pub mod Reads
pub mod Writes
pub mod Phases
mod Tests
use wayring.Base.{
  ◌==◌, if◌then◌else◌, length, take, drop, ℕ, zero, suc, ◌-◌, ◌*◌, ◌^◌, min, Bool, true, false,
  Option, none, some, List, [], ◌∷◌, ◌++◌,
}

-- An answer to read: EINTR, another error, or the bytes, none at the end of the stream.
pub data Answer : Type 0 where
  interrupted failed : Answer
  bytes : List ℕ → Answer

-- Where a loop stands once the answers are used up or it returns: still waiting, returned -1, or
-- returned 0, with the bytes that were read and the answers to come.
pub data Read : Type 0 where
  pending broken : Read
  finished : List ℕ → List Answer → Read

-- `read_exact` of `size` bytes, after `got`.
unfoldable pub read_exact : List Answer → ℕ → List ℕ → Read
read_exact [] size got = if size == 0 then finished got [] else pending
read_exact (interrupted ∷ answers) size got =
    let again = read_exact answers size got in
    if size == 0 then finished got (interrupted ∷ answers) else again
read_exact (failed ∷ answers) size got =
    if size == 0 then finished got (failed ∷ answers) else broken
read_exact (bytes xs ∷ answers) size got =
    let more = read_exact answers (size - length xs) (got ++ xs) in
    if size == 0 then finished got (bytes xs ∷ answers) else if length xs == 0 then broken else more

-- An answer to write: EINTR, another error, or the number of bytes taken.
pub data Taken : Type 0 where
  again error : Taken
  taken : ℕ → Taken

pub data Written : Type 0 where
  blocked gave_up : Written
  sent : List ℕ → List Taken → Written

-- `write_exact` of the bytes `left`, after those in `out` went out.
unfoldable pub write_exact : List Taken → List ℕ → List ℕ → Written
write_exact [] left out = if length left == 0 then sent out [] else blocked
write_exact (again ∷ ts) left out =
    let more = write_exact ts left out in if length left == 0 then sent out (again ∷ ts) else more
write_exact (error ∷ ts) left out = if length left == 0 then sent out (error ∷ ts) else gave_up
write_exact (taken n ∷ ts) left out =
    let more = write_exact ts (drop n left) (out ++ take n left) in
    if length left == 0 then sent out (taken n ∷ ts) else if n == 0 then gave_up else more

-- `sizeof storage` of `raw_drain_phase`.
abbrev pub storage_size : ℕ
storage_size = 64 * 1024

abbrev pub and_read : Read → (List ℕ → List Answer → Read) → Read
and_read pending next = pending
and_read broken next = broken
and_read (finished got answers) next = next got answers

-- The loop of `raw_drain_phase`, on fuel; it gives what it read in all.
unfoldable pub drain_loop : ℕ → List Answer → ℕ → List ℕ → Read
drain_loop zero answers left got = finished got answers
drain_loop (suc fuel) answers left got =
    let wanted = min left storage_size in
    let rest =
      and_read (read_exact answers wanted [])
        (λ read next_answers. drain_loop fuel next_answers (left - wanted) (got ++ read)) in
    if left == 0 then finished got answers else rest

-- The whole loop. Each round takes a byte at least.
unfoldable pub raw_drain : List Answer → ℕ → Read
raw_drain answers size = drain_loop size answers size []

abbrev wrote : Written → Option Bool
wrote blocked = none
wrote gave_up = some false
wrote (sent out answers) = some true

abbrev acknowledge : Read → ℕ → List Taken → Option Bool
acknowledge pending ack answers = none
acknowledge broken ack answers = some false
acknowledge (finished got rest) ack answers = wrote (write_exact answers (ack ∷ []) [])

-- `raw_drain_phase`: its status, if it returns.
unfoldable pub raw_drain_phase : List Answer → ℕ → ℕ → List Taken → Option Bool
raw_drain_phase answers size ack takes = acknowledge (raw_drain answers size) ack takes

-- `wait_for_raw_drain`: whether the one byte that it reads is the acknowledgement; none while waiting.
abbrev pub acknowledged : Read → ℕ → Option Bool
acknowledged pending ack = none
acknowledged broken ack = some false
acknowledged (finished [] answers) ack = some false
acknowledged (finished (x ∷ xs) answers) ack = some (x == ack)

unfoldable pub wait_for_raw_drain : List Answer → ℕ → Option Bool
wait_for_raw_drain answers ack = acknowledged (read_exact answers 1 []) ack

-- One message of `raw_write_phase`, answers the three words of its storage.
abbrev pub message_words : ℕ → List ℕ
message_words sequence = 3 ∷ 12 * 2 ^ 16 ∷ sequence ∷ []

unfoldable pub storage_words : ℕ → ℕ → List ℕ
storage_words zero sequence = []
storage_words (suc chunk) sequence = message_words sequence ++ storage_words chunk sequence

-- What a loop that sends `count` items in chunks of at most `batch` hands to its writes, one after the
-- other, on fuel, where each write succeeds; `made n` is what is written for `n` items.
unfoldable pub chunks_loop : (ℕ → List ℕ) → ℕ → ℕ → ℕ → List (List ℕ)
chunks_loop made zero remaining batch = []
chunks_loop made (suc fuel) remaining batch =
    let chunk = min remaining batch in
    let rest = chunks_loop made fuel (remaining - chunk) batch in
    if remaining == 0 then [] else made chunk ∷ rest

-- The words that the loop of `raw_write_phase` writes.
unfoldable pub raw_write_chunks : ℕ → ℕ → ℕ → List (List ℕ)
raw_write_chunks count batch sequence =
    chunks_loop (λ n. storage_words n sequence) count count batch
