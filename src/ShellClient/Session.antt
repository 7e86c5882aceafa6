-- ===== src/ShellClient/Session.antt =====
-- src/bench/shell-interop-client.c and src/bench/shell-interop-server.c: a run of both.
use wayring.Base.{
  ℕ, ◌≡◌, refl, sym, ap, ◌∙◌, Bool, true, false, not, ◌&&◌, ◌||◌, Option, none, some, List, [], ◌∷◌,
  ◌++◌, arith,
}
use wayring.Bench.{is_null}
use wayring.Bench.History.{run, calls}
use wayring.Bench.Routes.{requests, requests-append}
use wayring.Bench.Tallies.{any, any-append}
use wayring.Bench.Texts.{streq}
use wayring.ShellServer as Server
use wayring.ShellServer.{
  Request, creates_surface, gets_shell_surface, sets_toplevel, sets_title, sets_class, pongs,
  destroys_surface,
}
use wayring.ShellServer.Verdict.{
  is_created, is_pong, is_title, is_class, is_toplevel, is_destroy, succeeded_iff_any,
}
use wayring.ShellClient.{
  ShellClient, Call, create_surface, get_shell_surface, set_toplevel, set_title, set_class, pong,
  shell_surface_destroy, surface_destroy, shell_destroy, compositor_destroy, registry_destroy,
  flush, disconnect, Event, pings, step, init, World, held, has_globals, passes, before_cleanup,
  cleanup, shell_client_fd,
}

-- The requests that the server has of a call, with the resources that it made. wl_shell and wl_compositor
-- have no request to destroy them, and none destroys a shell surface.
unfoldable pub routed : ℕ → ℕ → Call → List Request
routed surface shell_surface create_surface = creates_surface (some surface) ∷ []
routed surface shell_surface get_shell_surface = gets_shell_surface (some shell_surface) ∷ []
routed surface shell_surface set_toplevel = sets_toplevel ∷ []
routed surface shell_surface (set_title title) = sets_title title ∷ []
routed surface shell_surface (set_class class_name) = sets_class class_name ∷ []
routed surface shell_surface (pong serial) = pongs serial ∷ []
routed surface shell_surface (shell_surface_destroy r) = []
routed surface shell_surface (surface_destroy r) = destroys_surface r ∷ []
routed surface shell_surface (shell_destroy r) = []
routed surface shell_surface (compositor_destroy r) = []
routed surface shell_surface registry_destroy = []
routed surface shell_surface flush = []
routed surface shell_surface disconnect = Server.leaves ∷ []

abbrev first_state : World → ShellClient
first_state w = run step init w.first.0

abbrev second_state : World → ShellClient
second_state w = run step (first_state w) w.second.0

abbrev third_state : World → ShellClient
third_state w = run step (second_state w) w.third.0

status_of :
    (w : World)
    → (shell_client_fd w).0
      ≡ w.connected
        && ((w.first.1 && has_globals (first_state w))
            && ((not (is_null w.surface) && not (is_null w.shell_surface))
                && ((w.second.1 && passes (second_state w)) && w.third.1)))
unfolding shell_client_fd before_cleanup
status_of w = ground arith

-- The calls of a run that comes to its last roundtrip.
calls_of :
    (w : World)
    → w.connected ≡ true
    → (w.first.1 ≡ true) × (has_globals (first_state w) ≡ true)
    → (is_null w.surface ≡ false) × (is_null w.shell_surface ≡ false)
    → (w.second.1 ≡ true) × (passes (second_state w) ≡ true)
    → (shell_client_fd w).1
      ≡ (((((calls step init w.first.0 ++ (create_surface ∷ get_shell_surface ∷ []))
                ++ (set_title "wayring-shell" ∷ set_class "wayring" ∷ set_toplevel ∷ []))
              ++ calls step (first_state w) w.second.0)
            ++ (held shell_surface_destroy w.shell_surface ++ held surface_destroy w.surface))
          ++ calls step (second_state w) w.third.0)
        ++ (held shell_destroy (third_state w).shell
            ++ (held compositor_destroy (third_state w).compositor
                ++ (registry_destroy ∷ flush ∷ disconnect ∷ [])))
unfolding shell_client_fd before_cleanup cleanup
calls_of w c (f, g) (u, x) (s, p) = rw (c, f, g, u, x, s, p) refl

module _ (surface shell_surface : ℕ) where
  -- Whether some request of these calls passes a test.
  abbrev has : (Request → Bool) → List Call → Bool
  has test cs = any test (requests (routed surface shell_surface) cs)

  has-append :
      (test : Request → Bool) (cs ds : List Call) → has test (cs ++ ds) ≡ has test cs || has test ds
  has-append test cs ds =
      ap (any test) (requests-append (routed surface shell_surface) cs ds)
      ∙ any-append test (requests (routed surface shell_surface) cs)
          (requests (routed surface shell_surface) ds)

  -- The client has answered the ping that it noted.
  step_ponged :
      (e : Event) (c : ShellClient) → (step e c).0.ping ≡ has is_pong (step e c).1 || c.ping
  unfolding step requests routed any
  step_ponged (pings serial) c = ground arith
  step_ponged _ c = ground arith

  run_ponged :
      (es : List Event) (c : ShellClient)
      → (run step c es).ping ≡ has is_pong (calls step c es) || c.ping
  unfolding run calls requests any
  run_ponged [] c = refl
  run_ponged (e ∷ es) c = ground (
    arith,
    has-append is_pong (step e c).1 (calls step (step e c).0 es),
    run_ponged es (step e c).0,
    step_ponged e c,
  )

  destroyed : (o : Option ℕ) → is_null o ≡ false → has is_destroy (held surface_destroy o) ≡ true
  unfolding requests routed any
  destroyed none h = absurd (cc)
  destroyed (some r) h = refl

  -- A request is found among those of a whole run.
  somewhere :
      (test : Request → Bool) (a m q b d c e : List Call)
      → has test a || (has test m || (has test q || (has test b || has test d))) ≡ true
      → has test ((((((a ++ m) ++ q) ++ b) ++ d) ++ c) ++ e) ≡ true
  somewhere test a m q b d c e h = ground (
    arith,
    has-append test (((((a ++ m) ++ q) ++ b) ++ d) ++ c) e,
    has-append test ((((a ++ m) ++ q) ++ b) ++ d) c,
    has-append test (((a ++ m) ++ q) ++ b) d,
    has-append test ((a ++ m) ++ q) b,
    has-append test (a ++ m) q,
    has-append test a m,
  )

  all_six :
      {a b c d e f : Bool}
      → a ≡ true
      → b ≡ true
      → c ≡ true
      → d ≡ true
      → e ≡ true
      → f ≡ true
      → a && (b && (c && (d && (e && f)))) ≡ true
  all_six a b c d e f = rw (a, b, c, d, e, f) refl

  -- If a run of the shell client succeeds, the server succeeds by its calls.
  pub shell_both_succeed :
      (w : World)
      → (shell_client_fd w).0 ≡ true
      → Server.succeeded (
          run Server.step Server.init
            (requests (routed surface shell_surface) (shell_client_fd w).1))
        ≡ true
  unfolding requests routed any streq
  shell_both_succeed w s =
      let e = sym (status_of w) ∙ s in
      let c : w.connected ≡ true = ground arith in
      let f : (w.first.1 ≡ true) × (has_globals (first_state w) ≡ true) =
        (ground arith, ground arith) in
      let u : (is_null w.surface ≡ false) × (is_null w.shell_surface ≡ false) =
        (ground arith, ground arith) in
      let p : (w.second.1 ≡ true) × (passes (second_state w) ≡ true) =
        (ground arith, ground arith) in
      let first = calls step init w.first.0 in
      let made = create_surface ∷ get_shell_surface ∷ [] in
      let asked = set_title "wayring-shell" ∷ set_class "wayring" ∷ set_toplevel ∷ [] in
      let second = calls step (first_state w) w.second.0 in
      let gone = held shell_surface_destroy w.shell_surface ++ held surface_destroy w.surface in
      let third = calls step (second_state w) w.third.0 in
      let ending =
        held shell_destroy (third_state w).shell
        ++ (held compositor_destroy (third_state w).compositor
            ++ (registry_destroy ∷ flush ∷ disconnect ∷ [])) in
      let found : (test : Request → Bool)
          → has test first
              || (has test made || (has test asked || (has test second || has test gone)))
            ≡ true
          → has test (shell_client_fd w).1 ≡ true =
        λ test h.
          ap (has test) (calls_of w c f u p)
          ∙ somewhere test first made asked second gone third ending h in
      let ponged : has is_pong first || has is_pong second ≡ true =
        ground (arith, run_ponged w.first.0 init, run_ponged w.second.0 (first_state w)) in
      let one : has is_created made ≡ true = refl in
      let two : has is_title asked ≡ true = refl in
      let three : has is_class asked ≡ true = refl in
      let four : has is_toplevel asked ≡ true = refl in
      let six : has is_destroy gone ≡ true =
        has-append is_destroy (held shell_surface_destroy w.shell_surface)
          (held surface_destroy w.surface)
        ∙ ground (arith, destroyed w.surface u.0) in
      succeeded_iff_any (requests (routed surface shell_surface) (shell_client_fd w).1)
      ∙ all_six (found is_created (ground arith)) (found is_pong (ground arith))
          (found is_title (ground arith)) (found is_class (ground arith))
          (found is_toplevel (ground arith)) (found is_destroy (ground arith))
