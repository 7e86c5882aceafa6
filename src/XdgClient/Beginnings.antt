-- ===== src/XdgClient/Beginnings.antt =====
-- src/bench/xdg-interop-client.c and src/bench/xdg-interop-server.c: the stages of a run of the client
-- that succeeds, up to its toplevel.
use wayring.Base.{
  if◌then◌else◌, ℕ, ◌≡◌, refl, sym, ap, subst, ◌∙◌, Bool, true, false, not, ◌&&◌, ◌||◌, Option,
  none, some, [], ◌∷◌, arith,
}
use wayring.Bench.{is_null}
use wayring.Bench.History
use wayring.Bench.Branches.{past_stop}
use wayring.XdgServer as Server
use wayring.XdgServer.{XdgServer}
use wayring.XdgClient.{XdgClient, create_surface, get_xdg_surface, get_toplevel, init}
use wayring.XdgClient.Main.{
  World, Running, dispatch, does, fails, until_presented, make_toplevel, started, has_globals,
  before_cleanup,
}
use wayring.XdgClient.Routed.{routed, requests, behind, behind-append, Follows}
use wayring.XdgClient.Joined.{IsJoined, run-IsJoined}
use wayring.XdgClient.Waits.{IsOngoing, dispatch-Follows}
use wayring.XdgClient.Stages.{IsServedRun, IsFinished, presented-IsFinished, and_left, does-Follows}

make-Follows :
    (n : ℕ) (surface xdg_surface toplevel : Option ℕ) (c : XdgClient) (s : XdgServer)
    → is_null xdg_surface ≡ false
    → is_null toplevel ≡ false
    → Follows n c s
    → Follows n c (
        behind
          (behind s (create_surface surface ∷ get_xdg_surface xdg_surface ∷ []))
          (get_toplevel xdg_surface toplevel ∷ []))
unfolding behind requests routed History.run Server.step
make-Follows n surface none toplevel c s x t f = absurd (cc)
make-Follows n surface (some r) none c s x t f = absurd (cc)
make-Follows n surface (some r) (some q) c s x t f = f

or_false : (a b : Bool) → a || b ≡ false → (a ≡ false) × (b ≡ false)
or_false true b e = absurd (cc)
or_false false b e = (refl, e)

unnegated : (a : Bool) → not a ≡ false → a ≡ true
unnegated true e = refl
unnegated false e = absurd (cc)

and_right : (a b : Bool) → a && b ≡ true → b ≡ true
and_right true b e = e
and_right false b e = absurd (cc)

toplevel-IsFinished :
    (w : World) (p : Running)
    → IsServedRun w
    → Follows 0 p.state (behind Server.init p.done)
    → IsJoined p.state
    → p.state.pinged ≡ true
    → (make_toplevel w p).status ≡ some true
    → IsFinished (make_toplevel w p)
unfolding make_toplevel
toplevel-IsFinished w p served f j pinged s =
    let surfaces =
      does (create_surface w.surface ∷ get_xdg_surface w.xdg_surface ∷ [])
        (record p { made_surface = w.surface; made_xdg_surface = w.xdg_surface }) in
    let toplevel =
      does (get_toplevel w.xdg_surface w.toplevel ∷ [])
        (record surfaces { made_toplevel = w.toplevel }) in
    let go = if is_null w.toplevel then fails toplevel else until_presented w toplevel in
    let (made, e) =
      past_stop (λ (r : Running). r.status) (is_null w.surface || is_null w.xdg_surface)
        (fails surfaces) go refl s in
    let (is_surface, is_xdg_surface) = or_false (is_null w.surface) (is_null w.xdg_surface) made in
    let t = sym (ap (λ (r : Running). r.status) e) ∙ s in
    let (is_toplevel, g) =
      past_stop (λ (r : Running). r.status) (is_null w.toplevel) (fails toplevel)
        (until_presented w toplevel) refl t in
    let going : IsOngoing 0 toplevel = record {
      follows = does-Follows 0 (get_toplevel w.xdg_surface w.toplevel ∷ []) surfaces (
          subst (λ s. Follows 0 p.state (behind s (get_toplevel w.xdg_surface w.toplevel ∷ [])))
            (sym (
              behind-append Server.init p.done
                (create_surface w.surface ∷ get_xdg_surface w.xdg_surface ∷ [])))
            (make-Follows 0 w.surface w.xdg_surface w.toplevel p.state (behind Server.init p.done)
              is_xdg_surface is_toplevel f));
      joined = j;
      pinged = pinged;
      surface = is_surface;
      xdg_surface = is_xdg_surface;
      toplevel = is_toplevel;
    } in
    subst IsFinished (sym (e ∙ g))
      (presented-IsFinished w toplevel served going (sym (ap (λ (r : Running). r.status) g) ∙ t))

globals-IsJoined : (c : XdgClient) → has_globals c ≡ true → IsJoined c
globals-IsJoined c e = record { wm_base = ground arith; presentation = ground arith }

init-Follows : Follows 0 init (behind Server.init [])
unfolding behind requests History.run
init-Follows = record { ponged = refl; acked = refl; counted = refl }

pub before-IsFinished :
    (w : World)
    → IsServedRun w
    → (before_cleanup w).status ≡ some true
    → IsFinished (before_cleanup w)
unfolding before_cleanup
before-IsFinished w served s =
    let p = dispatch w.first.0 started in
    let q = dispatch w.second.0 p in
    let go =
      if not w.second.1 || not (q.state.pinged && q.state.clock_seen)
      then q
      else make_toplevel w q in
    let (answered, e) =
      past_stop (λ (r : Running). r.status) (not w.first.1 || not (has_globals p.state)) p go refl
        s in
    let globals =
      unnegated (has_globals p.state)
        (or_false (not w.first.1) (not (has_globals p.state)) answered).1 in
    let t = sym (ap (λ (r : Running). r.status) e) ∙ s in
    let (greeted, g) =
      past_stop (λ (r : Running). r.status)
        (not w.second.1 || not (q.state.pinged && q.state.clock_seen)) q (make_toplevel w q) refl
        t in
    let seen =
      unnegated (q.state.pinged && q.state.clock_seen)
        (or_false (not w.second.1) (not (q.state.pinged && q.state.clock_seen)) greeted).1 in
    subst IsFinished (sym (e ∙ g)) (
      toplevel-IsFinished w q served
        (dispatch-Follows 0 w.second.0 p served.second
          (dispatch-Follows 0 w.first.0 started served.first init-Follows))
        (run-IsJoined w.second.0 p.state served.second (globals-IsJoined p.state globals))
        (and_left q.state.pinged q.state.clock_seen seen)
        (sym (ap (λ (r : Running). r.status) g) ∙ t))
