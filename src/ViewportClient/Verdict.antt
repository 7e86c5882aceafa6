-- ===== src/ViewportClient/Verdict.antt =====
-- src/bench/viewport-benchmark.c: what the server makes of the requests of a whole run.
use wayring.Base.{
  ℕ, ◌+◌, ◌^◌, ◌<◌, ◌≡◌, refl, ap, ◌∙◌, true, Option, none, some, List, [], ◌∷◌, ◌++◌, arith,
}
use wayring.Bench.History.{run, run-append, calls}
use wayring.ViewportServer as Server
use wayring.ViewportServer.{
  ViewportServer, Request, creates_surface, gets_viewport, destroys_viewport, destroys_surface,
  destroys_viewporter, leaves,
}
use wayring.ViewportServer.Operations.{operations, after_operations, run-operations}
use wayring.ViewportClient.Main.{ViewportClient, Event, global, global_remove, step, init, held}

-- Binding the globals leaves the server's state alone.
quiet : (e : Event) (c : ViewportClient) (s : ViewportServer) → run Server.step s (step e c).1 ≡ s
unfolding run step Server.step
quiet (global interface bound) c s = ground arith
quiet global_remove c s = refl

run-globals :
    (es : List Event) (c : ViewportClient) (s : ViewportServer)
    → run Server.step s (calls step c es) ≡ s
unfolding calls run
run-globals [] c s = refl
run-globals (e ∷ es) c s =
    run-append Server.step s (step e c).1 (calls step (step e c).0 es)
    ∙ ap (λ t. run Server.step t (calls step (step e c).0 es)) (quiet e c s)
    ∙ run-globals es (step e c).0 s

abbrev opened : ℕ → ViewportServer
opened a = record {
  surface = some a;
  phase = 0;
  sources = 0;
  destinations = 0;
  commits = 0;
  valid = true;
  viewport_created = true;
}

-- The requests before and behind the operations; `a` and `b` are the server's resources.
abbrev pub opening : ℕ → ℕ → List Request
opening a b = creates_surface (some a) ∷ gets_viewport (some a) (some b) ∷ []

abbrev pub closing : ℕ → ℕ → Option ℕ → List Request
closing a b viewporter =
    destroys_viewport b
    ∷ destroys_surface a
    ∷ (held destroys_viewporter viewporter ++ (leaves ∷ []))

run-opening : (a b : ℕ) → run Server.step Server.init (opening a b) ≡ opened a
unfolding run Server.step
run-opening a b = ground arith

run-closing :
    (n a b : ℕ) (viewporter : Option ℕ)
    → n < 2 ^ 64
    → Server.succeeded (run Server.step (after_operations n (opened a)) (closing a b viewporter))
      ≡ true
unfolding run Server.step Server.succeeded
run-closing n a b none h = ground arith
run-closing n a b (some v) h = ground arith

run-operations_twice :
    (m n a : ℕ) (rest : List Request)
    → run Server.step (opened a) (operations m ++ (operations n ++ rest))
      ≡ run Server.step (after_operations n (after_operations m (opened a))) rest
run-operations_twice m n a rest =
    run-append Server.step (opened a) (operations m) (operations n ++ rest)
    ∙ ap (λ s. run Server.step s (operations n ++ rest))
        (run-operations m (opened a) refl (record {
          sources_word = omega arith;
          destinations_word = omega arith;
          commits_word = omega arith;
        }))
    ∙ run-append Server.step (after_operations m (opened a)) (operations n) rest
    ∙ ap (λ s. run Server.step s rest)
        (run-operations n (after_operations m (opened a)) refl (record {
          sources_word = omega arith;
          destinations_word = omega arith;
          commits_word = omega arith;
        }))

after_both :
    (m n a : ℕ)
    → m + n < 2 ^ 64
    → after_operations n (after_operations m (opened a)) ≡ after_operations (m + n) (opened a)
after_both m n a h = ground arith

-- The server's verdict on a whole run.
pub session_verdict :
    (es : List Event) (m n a b : ℕ) (viewporter : Option ℕ)
    → m + n < 2 ^ 64
    → Server.succeeded (
        run Server.step Server.init (
          calls step init es
          ++ (opening a b ++ (operations m ++ (operations n ++ closing a b viewporter)))))
      ≡ true
session_verdict es m n a b viewporter h =
    rw
      (
        run-append Server.step Server.init (calls step init es)
            (opening a b ++ (operations m ++ (operations n ++ closing a b viewporter))),
        run-globals es init Server.init,
        run-append Server.step Server.init (opening a b)
            (operations m ++ (operations n ++ closing a b viewporter)),
        run-opening a b,
        run-operations_twice m n a (closing a b viewporter),
        after_both m n a h,
      )
      (run-closing (m + n) a b viewporter h)
