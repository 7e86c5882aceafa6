-- ===== src/ViewportClient/Session.antt =====
-- src/bench/viewport-benchmark.c: the client and the server together.
use wayring.Base.{
  ◌==◌, ℕ, ◌+◌, ◌-◌, ◌^◌, ◌<◌, ◌≡◌, ap, ap₂, ◌∙◌, Bool, true, false, not, ◌||◌, Option, none, some,
  List, [], ◌++◌, arith,
}
use wayring.Bench.{is_null}
use wayring.Bench.History.{run}
use wayring.Bench.Options.{u64}
use wayring.ViewportServer as Server
use wayring.ViewportServer.{ViewportServer, Request}
use wayring.ViewportClient.{send_operations}
use wayring.ViewportClient.Batches.{send_operations_patient}
use wayring.ViewportClient.Main.{
  step, init, World, ViewportResult, Running, measured, measure, after_globals, before_cleanup,
  cleanup, viewport_benchmark_client_fd,
}
use wayring.ViewportClient.Verdict.{session_verdict}
use wayring.ViewportClient.Requests.{taken, globals_done, client-IsSession}

-- What the client meets where all goes well, its clock telling `start` and then `finish`.
pub record IsAnswered (w : World) (start finish : ℕ) : Type 0 where
  pub surface : ℕ
  pub viewport : ℕ
  pub is_connected : w.connected ≡ true
  pub is_listening : w.listening ≡ true
  pub has_globals : w.first ≡ true
  pub has_compositor : is_null (run step init w.globals).compositor ≡ false
  pub has_viewporter : is_null (run step init w.globals).viewporter ≡ false
  pub has_surface : w.surface ≡ some surface
  pub has_viewport : w.viewport ≡ some viewport
  pub has_second : w.second ≡ true
  pub is_patient : (k : ℕ) → w.answers k ≡ true
  pub has_start : w.start ≡ some start
  pub has_finish : w.finish ≡ some finish

-- The result of a client whose clock tells `start` and then `finish`.
abbrev pub result_of : (count start finish : ℕ) → ViewportResult
result_of count start finish = record {
  elapsed_ns = u64 (finish + (2 ^ 64 - start));
  operations = count;
}

module _ (batch warmup count : ℕ) (w : World) (start finish : ℕ) (positive : 0 < batch)
    (a : IsAnswered w start finish) where
  measure-IsAnswered : (measure batch warmup count w).1 ≡ some (result_of count start finish)
  unfolding measure
  measure-IsAnswered =
      let first = send_operations batch w.answers warmup 0 in
      let second = send_operations batch w.answers count first.roundtrips in
      let sent : first.success ≡ true =
        (send_operations_patient batch w.answers a.is_patient positive warmup 0).0 in
      let sent_all : second.success ≡ true =
        (send_operations_patient batch w.answers a.is_patient positive count first.roundtrips).0 in
      ap (λ (r : List Request × Option ViewportResult). r.1)
        (taken false (first.requests, none)
          (first.requests ++ second.requests, measured count w.start w.finish second.success)
          (ap₂ (λ x y. not x || is_null y) sent a.has_start))
      ∙ ap (λ s. measured count s w.finish second.success) a.has_start
      ∙ ap (λ f. measured count (some start) f second.success) a.has_finish
      ∙ ap (λ b. measured count (some start) (some finish) b) sent_all

  after_globals-IsAnswered :
      (p : Running)
      → (after_globals batch warmup count w w.surface w.viewport p).result
        ≡ some (result_of count start finish)
  unfolding after_globals
  after_globals-IsAnswered p =
      ap (λ s. (after_globals batch warmup count w s w.viewport p).result) a.has_surface
      ∙ ap (λ v. (after_globals batch warmup count w (some a.surface) v p).result) a.has_viewport
      ∙ ap (λ (q : Running). q.result) (taken true _ _ a.has_second)
      ∙ measure-IsAnswered

  before_cleanup-IsAnswered :
      (before_cleanup batch warmup count w).result ≡ some (result_of count start finish)
  unfolding before_cleanup
  before_cleanup-IsAnswered =
      ap (λ (q : Running). q.result)
        (taken false _ _ (ap not a.is_listening)
          ∙ taken
              {b = not w.first
                || (is_null (run step init w.globals).compositor
                    || is_null (run step init w.globals).viewporter)}
              false _ _ (ground (arith, a.has_globals, a.has_compositor, a.has_viewporter)))
      ∙ after_globals-IsAnswered (globals_done batch warmup count w)

  client-IsAnswered :
      (viewport_benchmark_client_fd batch warmup count true w).1
      ≡ some (result_of count start finish)
  unfolding viewport_benchmark_client_fd
  client-IsAnswered =
      ap (λ (r : List Request × Option ViewportResult). r.1)
        (taken {b = (batch == 0) || (not true || not w.connected)} false ([], none)
          (
            (before_cleanup batch warmup count w).requests
                ++ cleanup (before_cleanup batch warmup count w),
            (before_cleanup batch warmup count w).result,
          )
          (ground (arith, positive, a.is_connected)))
      ∙ before_cleanup-IsAnswered

-- A run of viewport_benchmark_client_fd that succeeds makes the server succeed by its requests, whatever
-- else the client met, if the sum of both counts of operations fits into 64 bits.
pub session_follows :
    (batch warmup count : ℕ) (w : World) (wanted : Bool) (r : ViewportResult)
    → warmup + count < 2 ^ 64
    → (viewport_benchmark_client_fd batch warmup count wanted w).1 ≡ some r
    → Server.succeeded
        (run Server.step Server.init (viewport_benchmark_client_fd batch warmup count wanted w).0)
      ≡ true
session_follows batch warmup count w wanted r h e =
    let (a, b, split) = client-IsSession batch warmup count w wanted r e in
    ap (λ l. Server.succeeded (run Server.step Server.init l)) split
    ∙ session_verdict w.globals warmup count a b (run step init w.globals).viewporter h

-- With a positive batch and two counts of operations whose sum fits into 64 bits,
-- viewport_benchmark_client_fd succeeds, its result being the operations and the time between both
-- readings of the clock, if it is connected and has a result to fill in, its first roundtrip brings both
-- globals, nothing it makes is NULL, its roundtrips are answered and its clock can be read; and the server
-- succeeds by its requests.
pub session-succeeded :
    (batch warmup count : ℕ) (w : World) (start finish : ℕ)
    → 0 < batch
    → warmup + count < 2 ^ 64
    → IsAnswered w start finish
    → ((viewport_benchmark_client_fd batch warmup count true w).1
        ≡ some (result_of count start finish))
      × (Server.succeeded
            (run Server.step Server.init (viewport_benchmark_client_fd batch warmup count true w).0)
          ≡ true)
session-succeeded batch warmup count w start finish positive h a =
    let done = client-IsAnswered batch warmup count w start finish positive a in
    (done, session_follows batch warmup count w true (result_of count start finish) h done)
