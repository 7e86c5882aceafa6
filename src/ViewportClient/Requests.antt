-- ===== src/ViewportClient/Requests.antt =====
-- src/bench/viewport-benchmark.c: the requests of a client that succeeds.
use wayring.Base.{
  if◌then◌else◌, ℕ, ◌≡◌, refl, sym, ap, ap₂, ◌∙◌, Bool, true, false, not, ◌||◌, Option, none, some,
  List, [], ◌++◌, append_assoc, arith,
}
use wayring.Bench.{is_null}
use wayring.Bench.History.{run, calls}
use wayring.ViewportServer.{Request}
use wayring.ViewportServer.Operations.{operations}
use wayring.ViewportClient.{send_operations}
use wayring.ViewportClient.Batches.{send_operations-IsWhole}
use wayring.ViewportClient.Main.{
  step, init, World, ViewportResult, Running, measured, measure, after_globals, before_cleanup,
  cleanup, viewport_benchmark_client_fd,
}
use wayring.ViewportClient.Verdict.{opening, closing}

abbrev choose :
    Bool
    → List Request × Option ViewportResult
    → List Request × Option ViewportResult
    → List Request × Option ViewportResult
choose b x y = if b then x else y

-- The branch that a test takes.
pub taken :
    {A : Type 0} {b : Bool} (c : Bool) (x y : A)
    → b ≡ c
    → (if b then x else y) ≡ (if c then x else y)
taken c x y e = ap (λ d. if d then x else y) e

module _ (batch warmup count : ℕ) (w : World) where
  whole_sent :
      (n k : ℕ)
      → (send_operations batch w.answers n k).success ≡ true
      → (send_operations batch w.answers n k).requests ≡ operations n
  whole_sent n k e =
      let (m, le, sent, all) = send_operations-IsWhole batch w.answers n k in
      sent ∙ ap operations (all e)

  measured_success :
      (start finish : Option ℕ) (success : Bool) (r : ViewportResult)
      → measured count start finish success ≡ some r
      → success ≡ true
  measured_success none finish success r e = absurd (cc)
  measured_success (some s) none success r e = absurd (cc)
  measured_success (some s) (some f) false r e = absurd (cc)
  measured_success (some s) (some f) true r e = refl

  past_first :
      (failed : Bool) (first all : List Request) (result : Option ViewportResult)
      (r : ViewportResult)
      → (choose failed (first, none) (all, result)).1 ≡ some r
      → (failed ≡ false) × (result ≡ some r) × ((choose failed (first, none) (all, result)).0 ≡ all)
  past_first true first all result r e = absurd (cc)
  past_first false first all result r e = (refl, e, refl)

  measure_whole :
      (r : ViewportResult)
      → (measure batch warmup count w).1 ≡ some r
      → (measure batch warmup count w).0 ≡ operations warmup ++ operations count
  unfolding measure
  measure_whole r e =
      let first = send_operations batch w.answers warmup 0 in
      let second = send_operations batch w.answers count first.roundtrips in
      let (on, result, sent) =
        past_first (not first.success || is_null w.start) first.requests
          (first.requests ++ second.requests) (measured count w.start w.finish second.success) r
          e in
      sent
      ∙ ap₂ (◌++◌) (whole_sent warmup 0 (ground arith)) (
          whole_sent count first.roundtrips
            (measured_success w.start w.finish second.success r result))

  abbrev pub globals_done : Running
  globals_done = record {
    state = run step init w.globals;
    held_surface = none;
    held_viewport = none;
    requests = calls step init w.globals;
    result = none;
  }

  -- The requests of a client that succeeds.
  abbrev pub IsSession : List Request → Type 0
  IsSession requests =
      (a : ℕ) × (b : ℕ) × (requests
        ≡ calls step init w.globals
          ++ (opening a b
              ++ (operations warmup
                  ++ (operations count ++ closing a b (run step init w.globals).viewporter))))

  past_second :
      (good : Bool) (all viewed : Running) (r : ViewportResult)
      → viewed.result ≡ none
      → (if good then all else viewed).result ≡ some r
      → (if good then all else viewed) ≡ all
  past_second true all viewed r n e = refl
  past_second false all viewed r n e = absurd (cc)

  in_order :
      (gs os ms ns bs : List Request)
      → ((gs ++ os) ++ (ms ++ ns)) ++ bs ≡ gs ++ (os ++ (ms ++ (ns ++ bs)))
  in_order gs os ms ns bs = simp append_assoc

  after_globals-IsSession :
      (surface viewport : Option ℕ) (r : ViewportResult)
      → (after_globals batch warmup count w surface viewport globals_done).result ≡ some r
      → IsSession (
          (after_globals batch warmup count w surface viewport globals_done).requests
          ++ cleanup (after_globals batch warmup count w surface viewport globals_done))
  unfolding after_globals cleanup
  after_globals-IsSession none viewport r e = absurd (cc)
  after_globals-IsSession (some a) none r e = absurd (cc)
  after_globals-IsSession (some a) (some b) r e =
      let same = past_second w.second _ _ r refl e in
      let sent = measure_whole r (sym (ap (λ (p : Running). p.result) same) ∙ e) in
      (
        a,
        b,
        ap (λ (p : Running). p.requests ++ cleanup p) same
            ∙ ap
                (λ l.
                  ((calls step init w.globals ++ opening a b) ++ l)
                  ++ closing a b (run step init w.globals).viewporter)
                sent
            ∙ in_order (calls step init w.globals) (opening a b) (operations warmup)
                (operations count) (closing a b (run step init w.globals).viewporter),
      )

  past_globals :
      (unheard missing : Bool) (bare some_way all : Running) (r : ViewportResult)
      → bare.result ≡ none
      → some_way.result ≡ none
      → (if unheard then bare else if missing then some_way else all).result ≡ some r
      → (if unheard then bare else if missing then some_way else all) ≡ all
  past_globals true missing bare some_way all r b s e = absurd (cc)
  past_globals false true bare some_way all r b s e = absurd (cc)
  past_globals false false bare some_way all r b s e = refl

  before_cleanup-IsSession :
      (r : ViewportResult)
      → (before_cleanup batch warmup count w).result ≡ some r
      → IsSession (
          (before_cleanup batch warmup count w).requests
          ++ cleanup (before_cleanup batch warmup count w))
  unfolding before_cleanup
  before_cleanup-IsSession r e =
      let same = past_globals (not w.listening) _ _ globals_done _ r refl refl e in
      let (a, b, split) =
        after_globals-IsSession w.surface w.viewport r
          (sym (ap (λ (p : Running). p.result) same) ∙ e) in
      (a, b, ap (λ (p : Running). p.requests ++ cleanup p) same ∙ split)

  past_checks :
      (refused : Bool) (sent : List Request) (result : Option ViewportResult) (r : ViewportResult)
      → (choose refused ([], none) (sent, result)).1 ≡ some r
      → (result ≡ some r) × ((choose refused ([], none) (sent, result)).0 ≡ sent)
  past_checks true sent result r e = absurd (cc)
  past_checks false sent result r e = (e, refl)

  pub client-IsSession :
      (wanted : Bool) (r : ViewportResult)
      → (viewport_benchmark_client_fd batch warmup count wanted w).1 ≡ some r
      → IsSession (viewport_benchmark_client_fd batch warmup count wanted w).0
  unfolding viewport_benchmark_client_fd
  client-IsSession wanted r e =
      let p = before_cleanup batch warmup count w in
      let (result, sent) = past_checks _ (p.requests ++ cleanup p) p.result r e in
      let (a, b, split) = before_cleanup-IsSession r result in (a, b, sent ∙ split)
