-- ===== src/XdgClient/Waits.antt =====
-- src/bench/xdg-interop-client.c and src/bench/xdg-interop-server.c: what lasts over the
-- dispatches of a run of the client.
use wayring.Base.{
  if◌then◌else◌, All, ℕ, ◌≡◌, refl, sym, subst, Bool, true, false, Option, none, some, List, [],
  ◌∷◌,
}
use wayring.Bench.{is_null}
use wayring.Bench.History
use wayring.XdgServer as Server
use wayring.XdgServer.{XdgServer}
use wayring.XdgClient.{XdgClient, Event, step}
use wayring.XdgClient.Main.{Running, Dispatches, dispatch, wait_until}
use wayring.XdgClient.Routed.{behind, behind-append, IsServed, Follows, run-Follows}
use wayring.XdgClient.Joined.{IsJoined, run-IsJoined, run-pinged, run-configured}

-- A client that has its toplevel and asked for `n` feedbacks, and the server behind its calls.
pub record IsOngoing (n : ℕ) (p : Running) : Type 0 where
  pub follows : Follows n p.state (behind Server.init p.done)
  pub joined : IsJoined p.state
  pub pinged : p.state.pinged ≡ true
  pub surface : is_null p.made_surface ≡ false
  pub xdg_surface : is_null p.made_xdg_surface ≡ false
  pub toplevel : is_null p.made_toplevel ≡ false

pub with_status :
    {n : ℕ} {p : Running} (s : Option Bool) → IsOngoing n p → IsOngoing n (record p { status = s })
with_status s o = record {
  follows = o.follows;
  joined = o.joined;
  pinged = o.pinged;
  surface = o.surface;
  xdg_surface = o.xdg_surface;
  toplevel = o.toplevel;
}

pub dispatch-Follows :
    (n : ℕ) (es : List Event) (p : Running)
    → All IsServed es
    → Follows n p.state (behind Server.init p.done)
    → Follows n (dispatch es p).state (behind Server.init (dispatch es p).done)
dispatch-Follows n es p a f =
    subst (Follows n (History.run step p.state es))
      (sym (behind-append Server.init p.done (History.calls step p.state es)))
      (run-Follows n es p.state (behind Server.init p.done) a f)

pub dispatch-IsOngoing :
    {n : ℕ} (es : List Event) (p : Running)
    → All IsServed es
    → IsOngoing n p
    → IsOngoing n (dispatch es p)
dispatch-IsOngoing {n} es p a o = record {
  follows = dispatch-Follows n es p a o.follows;
  joined = run-IsJoined es p.state a o.joined;
  pinged = run-pinged es p.state a o.pinged;
  surface = o.surface;
  xdg_surface = o.xdg_surface;
  toplevel = o.toplevel;
}

-- The events of a dispatch that succeeds are the server's.
unfoldable pub AreServed : Option (List Event) → Type 0
AreServed none = Unit
AreServed (some es) = All IsServed es

either_run : (P : Running → Type 0) {p q : Running} (b : Bool) → P p → P q → P (if b then p else q)
either_run P true x y = x
either_run P false x y = y

pub wait-IsOngoing :
    {n : ℕ} (ends : XdgClient → Bool) (ds : Dispatches) (p : Running)
    → All AreServed ds
    → IsOngoing n p
    → IsOngoing n (wait_until ends ds p)
unfolding wait_until AreServed
wait-IsOngoing ends [] p a o = with_status _ o
wait-IsOngoing ends (none ∷ ds) p a o = with_status _ o
wait-IsOngoing {n} ends (some es ∷ ds) p (served, a) o =
    either_run (IsOngoing n) (ends p.state) (with_status _ o)
      (wait-IsOngoing ends ds (dispatch es p) a (dispatch-IsOngoing es p served o))

pub wait-configured :
    (ends : XdgClient → Bool) (ds : Dispatches) (p : Running)
    → All AreServed ds
    → p.state.configured ≡ true
    → (wait_until ends ds p).state.configured ≡ true
unfolding wait_until AreServed
wait-configured ends [] p a e = e
wait-configured ends (none ∷ ds) p a e = e
wait-configured ends (some es ∷ ds) p (served, a) e =
    either_run (λ q. q.state.configured ≡ true) (ends p.state) e
      (wait-configured ends ds (dispatch es p) a (run-configured es p.state served e))

ends_now : (b : Bool) → (if b then some true else none) ≡ some true → b ≡ true
ends_now true s = refl
ends_now false s = absurd (cc)

ends_later :
    (ends : XdgClient → Bool) (p r : Running) (b : Bool)
    → ends p.state ≡ b
    → (r.status ≡ some true → ends r.state ≡ true)
    → (if b then record p { status = some true } else r).status ≡ some true
    → ends (if b then record p { status = some true } else r).state ≡ true
ends_later ends p r true e later s = e
ends_later ends p r false e later s = later s

-- A loop that ends without an error ends where its condition does.
pub wait-ends :
    (ends : XdgClient → Bool) (ds : Dispatches) (p : Running)
    → (wait_until ends ds p).status ≡ some true
    → ends (wait_until ends ds p).state ≡ true
unfolding wait_until
wait-ends ends [] p s = ends_now (ends p.state) s
wait-ends ends (none ∷ ds) p s = cc
wait-ends ends (some es ∷ ds) p s =
    ends_later ends p (wait_until ends ds (dispatch es p)) (ends p.state) refl
      (wait-ends ends ds (dispatch es p)) s
