-- ===== src/ViewportClient.antt =====
-- src/bench/viewport-benchmark.c, the client: it sends its operations in batches, with a roundtrip
-- after each batch.
pub mod Batches
pub mod Main
pub mod Verdict
pub mod Requests
pub mod Session
mod Tests
use wayring.Base.{
  ◌==◌, if◌then◌else◌, ℕ, zero, suc, ◌+◌, ◌%◌, Bool, true, false, not, ◌&&◌, List, [], ◌++◌,
}
use wayring.ViewportServer.{Request}
use wayring.ViewportServer.Operations.{operation}

-- What a run has sent, how many roundtrips it made, and whether none failed.
pub record Sent : Type 0 where
  pub requests : List Request
  pub roundtrips : ℕ
  pub success : Bool

-- `answers k` tells whether the roundtrip number `k` succeeds.
module _ (batch : ℕ) (answers : ℕ → Bool) where
  -- The `for` loop of `send_operations`, with `left` rounds to go, at `i`, after `k` roundtrips.
  unfoldable pub send_loop : ℕ → ℕ → ℕ → Sent
  send_loop zero i k = record { requests = []; roundtrips = k; success = true }
  send_loop (suc left) i k =
      let on = send_loop left (i + 1) k in
      let synced = send_loop left (i + 1) (k + 1) in
      if (i + 1) % batch == 0
      then (if answers k
          then record synced { requests = operation ++ synced.requests }
          else record { requests = operation; roundtrips = k + 1; success = false })
      else record on { requests = operation ++ on.requests }

  -- The roundtrip after an incomplete batch.
  unfoldable pub last_roundtrip : ℕ → Sent → Sent
  last_roundtrip count sent =
      if sent.success && not (count % batch == 0)
      then record sent { roundtrips = sent.roundtrips + 1; success = answers sent.roundtrips }
      else sent

  -- `send_operations`, after `k` roundtrips on the display.
  unfoldable pub send_operations : ℕ → ℕ → Sent
  send_operations count k = last_roundtrip count (send_loop count 0 k)
