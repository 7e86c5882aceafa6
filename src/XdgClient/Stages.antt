-- ===== src/XdgClient/Stages.antt =====
-- src/bench/xdg-interop-client.c and src/bench/xdg-interop-server.c: the stages of a run of the client
-- that succeeds.
use wayring.Base.{
  All, ℕ, ◌+◌, ◌≡◌, refl, sym, ap, subst, ◌∙◌, Bool, true, false, ◌&&◌, Option, none, some, List,
  [], ◌∷◌, ◌++◌,
}
use wayring.Bench.{is_null}
use wayring.Bench.Branches.{past_stop}
use wayring.Bench.History
use wayring.XdgServer as Server
use wayring.XdgServer.{XdgServer}
use wayring.XdgClient.{XdgClient, Call, ask_feedback, commit}
use wayring.XdgClient.Main.{
  World, Running, does, wait_until, fails, and_after, both_seen, is_discarded, last_roundtrip,
  until_discarded, until_presented,
}
use wayring.XdgClient.Routed.{routed, requests, behind, behind-append, IsServed, Follows}
use wayring.XdgClient.Joined.{run-configured}
use wayring.XdgClient.Waits.{
  IsOngoing, AreServed, with_status, dispatch-IsOngoing, wait-IsOngoing, wait-configured, wait-ends,
}

past_wait :
    (st : Option Bool) (p q : Running)
    → p.status ≡ st
    → (and_after st p q).status ≡ some true
    → (st ≡ some true) × (and_after st p q ≡ q)
past_wait none p q e s = absurd (cc)
past_wait (some false) p q e s = absurd (cc)
past_wait (some true) p q e s = (refl, refl)

-- What the events of a run are.
pub record IsServedRun (w : World) : Type 0 where
  pub first : All IsServed w.first.0
  pub second : All IsServed w.second.0
  pub until_presented : All AreServed w.until_presented
  pub until_discarded : All AreServed w.until_discarded
  pub last : All IsServed w.last.0

-- What a run is at its end, if it succeeds.
pub record IsFinished (p : Running) : Type 0 where
  pub ongoing : IsOngoing 2 p
  pub configured : p.state.configured ≡ true

pub does-Follows :
    (n : ℕ) (cs : List Call) (p : Running)
    → Follows n p.state (behind (behind Server.init p.done) cs)
    → Follows n p.state (behind Server.init (p.done ++ cs))
does-Follows n cs p f = subst (Follows n p.state) (sym (behind-append Server.init p.done cs)) f

-- A feedback and a commit behind it.
ask-Follows :
    (n : ℕ) (made : Option ℕ) (c : XdgClient) (s : XdgServer)
    → is_null made ≡ false
    → Follows n c s
    → Follows (n + 1) c (behind (behind s (ask_feedback made ∷ [])) (commit ∷ []))
unfolding behind requests routed History.run Server.step
ask-Follows n none c s m f = absurd (cc)
ask-Follows n (some r) c s m f = record {
  ponged = f.ponged;
  acked = f.acked;
  counted = ap (λ k. k + 1) f.counted;
}

ask-IsOngoing :
    (n : ℕ) (made : Option ℕ) (p : Running)
    → is_null made ≡ false
    → IsOngoing n p
    → IsOngoing (n + 1) (does (commit ∷ []) (does (ask_feedback made ∷ []) p))
ask-IsOngoing n made p m o = record {
  follows = does-Follows (n + 1) (commit ∷ []) (does (ask_feedback made ∷ []) p) (
      subst (λ s. Follows (n + 1) p.state (behind s (commit ∷ [])))
        (sym (behind-append Server.init p.done (ask_feedback made ∷ [])))
        (ask-Follows n made p.state (behind Server.init p.done) m o.follows));
  joined = o.joined;
  pinged = o.pinged;
  surface = o.surface;
  xdg_surface = o.xdg_surface;
  toplevel = o.toplevel;
}

discarded-IsFinished :
    (w : World) (p : Running)
    → IsServedRun w
    → IsOngoing 1 p
    → p.state.configured ≡ true
    → (until_discarded w p).status ≡ some true
    → IsFinished (until_discarded w p)
unfolding until_discarded
discarded-IsFinished w p served o c s =
    let asked = does (ask_feedback w.discarded_feedback ∷ []) p in
    let waited = wait_until is_discarded w.until_discarded (does (commit ∷ []) asked) in
    let (made, e) =
      past_stop (λ (r : Running). r.status) (is_null w.discarded_feedback) (fails asked)
        (and_after waited.status waited (last_roundtrip w waited)) refl s in
    let (ended, f) =
      past_wait waited.status waited (last_roundtrip w waited) refl
        (sym (ap (λ (r : Running). r.status) e) ∙ s) in
    let going =
      wait-IsOngoing is_discarded w.until_discarded (does (commit ∷ []) asked)
        served.until_discarded (ask-IsOngoing 1 w.discarded_feedback p made o) in
    let conf =
      wait-configured is_discarded w.until_discarded (does (commit ∷ []) asked)
        served.until_discarded c in
    subst IsFinished (sym (e ∙ f)) (record {
      ongoing = with_status (some w.last.1) (dispatch-IsOngoing w.last.0 waited served.last going);
      configured = run-configured w.last.0 waited.state served.last conf;
    })

pub and_left : (a b : Bool) → a && b ≡ true → a ≡ true
and_left true b e = refl
and_left false b e = e

pub presented-IsFinished :
    (w : World) (p : Running)
    → IsServedRun w
    → IsOngoing 0 p
    → (until_presented w p).status ≡ some true
    → IsFinished (until_presented w p)
unfolding until_presented
presented-IsFinished w p served o s =
    let asked = does (ask_feedback w.presented_feedback ∷ []) p in
    let waited = wait_until both_seen w.until_presented (does (commit ∷ []) asked) in
    let (made, e) =
      past_stop (λ (r : Running). r.status) (is_null w.presented_feedback) (fails asked)
        (and_after waited.status waited (until_discarded w waited)) refl s in
    let t = sym (ap (λ (r : Running). r.status) e) ∙ s in
    let (ended, f) = past_wait waited.status waited (until_discarded w waited) refl t in
    let going =
      wait-IsOngoing both_seen w.until_presented (does (commit ∷ []) asked) served.until_presented
        (ask-IsOngoing 0 w.presented_feedback p made o) in
    let conf =
      and_left waited.state.configured waited.state.presented
        (wait-ends both_seen w.until_presented (does (commit ∷ []) asked) ended) in
    subst IsFinished (sym (e ∙ f))
      (discarded-IsFinished w waited served going conf (sym (ap (λ (r : Running). r.status) f) ∙ t))
