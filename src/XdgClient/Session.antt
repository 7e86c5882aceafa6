-- ===== src/XdgClient/Session.antt =====
-- src/bench/xdg-interop-client.c and src/bench/xdg-interop-server.c: a whole run of the client, and what
-- the server makes of it.
use wayring.Base.{
  if◌then◌else◌, ℕ, ◌≡◌, refl, ap, ◌∙◌, Bool, true, false, Option, none, some, List, [], ◌∷◌, ◌++◌,
}
use wayring.Bench.{is_null}
use wayring.Bench.History
use wayring.XdgServer as Server
use wayring.XdgServer.{XdgServer, succeeded}
use wayring.XdgClient.{
  Call, toplevel_destroy, xdg_surface_destroy, surface_destroy, wm_base_destroy,
  presentation_destroy, compositor_destroy, registry_destroy, flush, disconnect,
}
use wayring.XdgClient.Main.{
  World, Running, held, cleanup, before_cleanup, is_waiting, xdg_client_fd,
}
use wayring.XdgClient.Routed.{routed, requests, behind, behind-append}
use wayring.XdgClient.Stages.{IsServedRun, IsFinished}
use wayring.XdgClient.Beginnings.{before-IsFinished}

-- The server succeeds by the cleanup of a client that has everything.
cleanup-succeeded :
    (s : XdgServer) (toplevel xdg_surface surface wm_base presentation compositor : Option ℕ)
    → is_null toplevel ≡ false
    → is_null xdg_surface ≡ false
    → is_null surface ≡ false
    → is_null wm_base ≡ false
    → is_null presentation ≡ false
    → s.ponged ≡ true
    → s.configured ≡ true
    → s.feedback_count ≡ 2
    → succeeded (
        behind s (
          held toplevel_destroy toplevel
          ++ (held xdg_surface_destroy xdg_surface
              ++ (held surface_destroy surface
                  ++ (held wm_base_destroy wm_base
                      ++ (held presentation_destroy presentation
                          ++ (held compositor_destroy compositor
                              ++ (registry_destroy ∷ flush ∷ disconnect ∷ []))))))))
      ≡ true
unfolding behind requests routed History.run Server.step succeeded
cleanup-succeeded s none x u b q k i j l m n e f g = absurd (cc)
cleanup-succeeded s (some t) none u b q k i j l m n e f g = absurd (cc)
cleanup-succeeded s (some t) (some x) none b q k i j l m n e f g = absurd (cc)
cleanup-succeeded s (some t) (some x) (some u) none q k i j l m n e f g = absurd (cc)
cleanup-succeeded s (some t) (some x) (some u) (some b) none k i j l m n e f g = absurd (cc)
cleanup-succeeded s (some t) (some x) (some u) (some b) (some q) none i j l m n e f g =
    rw (e, f, g) refl
cleanup-succeeded s (some t) (some x) (some u) (some b) (some q) (some k) i j l m n e f g =
    rw (e, f, g) refl

-- What the client returns, and its calls.
abbrev answer : Bool → Running → Option Bool × List Call
answer connected p =
    if connected
    then (p.status, if is_waiting p.status then p.done else p.done ++ cleanup p)
    else (some false, [])

ended :
    (connected : Bool) (p : Running)
    → (answer connected p).0 ≡ some true
    → (p.status ≡ some true) × ((answer connected p).1 ≡ p.done ++ cleanup p)
ended false p s = absurd (cc)
ended true p s = (s, ap (λ t. if is_waiting t then p.done else p.done ++ cleanup p) s)

finished-succeeded :
    (p : Running) → IsFinished p → succeeded (behind Server.init (p.done ++ cleanup p)) ≡ true
unfolding cleanup
finished-succeeded p f =
    let o = f.ongoing in
    ap succeeded (behind-append Server.init p.done (cleanup p))
    ∙ cleanup-succeeded (behind Server.init p.done) p.made_toplevel p.made_xdg_surface
        p.made_surface p.state.wm_base p.state.presentation p.state.compositor o.toplevel
        o.xdg_surface o.surface o.joined.wm_base o.joined.presentation (o.follows.ponged ∙ o.pinged)
        (o.follows.acked ∙ f.configured) o.follows.counted

-- If a run of the xdg client succeeds, and its events are those that this server sends (pings with 41,
-- configures with 77, globals that can be bound), then the server succeeds by the calls of that run.
pub succeeded-xdg_client_fd :
    (w : World)
    → IsServedRun w
    → (xdg_client_fd w).0 ≡ some true
    → succeeded (behind Server.init (xdg_client_fd w).1) ≡ true
unfolding xdg_client_fd
succeeded-xdg_client_fd w served s =
    let (status, all) = ended w.connected (before_cleanup w) s in
    ap (λ cs. succeeded (behind Server.init cs)) all
    ∙ finished-succeeded (before_cleanup w) (before-IsFinished w served status)
